-- ===== src/MyoClient/Tests.antt =====
-- A fist, for a module that answers the first of its messages, or both.
use hmtl.Prelude.{
  ℕ, ◌*◌, ◌≡◌, ◌⊎◌, refl, List, [], ◌∷◌, Bytes, All, length, none, some, arith, Bool, true, false,
  Result, ok, err, Error,
}
use hmtl.InputBuffer.{InputItem}
use hmtl.Serial.{Value, Poll, config_ack}
use hmtl.Server.{HmtlServer, returned, failed}
use hmtl.MyoClient.{fist, build_all, pose_requests, on_pose}
use hmtl.MyoClient.Poses.{Writes, on_pose-Writes}
use hmtl.MyoClient.Acked.{IsAck, on_pose-acked}
use hmtl.Emulator.Outputs.{rgb_output, value_output}
use hmtl.Emulator.Device.{Emulator}
use hmtl.Emulator.Control.{client_handler}
use hmtl.Emulator.Effects.{effects}

abbrev writes : Value → Result (Unit {0})
writes v = ok tt

abbrev no_text : Bytes → Bool
no_text bs = false

abbrev clock : ℕ → ℕ
clock k = 100 * k

abbrev ok_line : InputItem
ok_line = record { bytes = config_ack; timestamp = 0; is_hmtl = false; hdr = none }

abbrev answer : Poll
answer = record { got = some ok_line; received_at = 20; checked_at = 20 }

abbrev server_with : List Poll → HmtlServer
server_with polls = record {
  ser = record { incoming = polls; written = []; last_received = 0 };
  sent = [];
  connected = true;
  replied = false;
  terminate = false;
}

abbrev server : HmtlServer
server = server_with (answer ∷ [])

abbrev both : List Poll
both = answer ∷ answer ∷ []

-- The module of address 69 with a dimmer and a lamp.
abbrev module_69 : Emulator
module_69 = record {
  address = 69;
  outputs = value_output 3 0 ∷ rgb_output (9 ∷ 10 ∷ 11 ∷ []) (0 ∷ 0 ∷ 0 ∷ []) ∷ [];
  programs = none ∷ none ∷ [];
  no_output_program = none;
  heap = [];
  virtual_ms = 0;
}

acked_both : All IsAck both
acked_both = ((ok_line, refl, refl), ((ok_line, refl, refl), tt))

two_requests : length both ≡ length (pose_requests 69 fist)
unfolding pose_requests
two_requests = refl

on_pose-Writes_example :
    ((ms : List Bytes) × (build_all (pose_requests 0xFFFF fist) ≡ ok ms)
      × Writes ms server (on_pose writes writes no_text clock 0 0xFFFF fist server))
    ⊎ ((e : Error) × (build_all (pose_requests 0xFFFF fist) ≡ err e)
        × (on_pose writes writes no_text clock 0 0xFFFF fist server ≡ (failed e, server)))
on_pose-Writes_example = on_pose-Writes writes writes no_text clock (λ v. refl) 0 0xFFFF fist server

on_pose-acked_example :
    ((on_pose writes writes no_text clock 0 69 fist (server_with both)).0 ≡ returned tt)
    × (client_handler
          (on_pose writes writes no_text clock 0 69 fist (server_with both)).1.ser.written
          module_69
        ≡ (none, effects (pose_requests 69 fist) module_69))
on_pose-acked_example =
    on_pose-acked writes writes no_text clock (λ v. refl) (λ v. refl) 0 69 fist both []
      (server_with both) module_69 (omega arith) acked_both two_requests refl refl refl
