-- ===== src/Server/Threads/Tests.antt =====
-- The listener sends a message while the scanner waits for the lock.
use hmtl.Prelude.{refl, [], ◌∷◌, Bytes, none, some, Bool, true, false, Result, ok}
use hmtl.InputBuffer.{InputItem}
use hmtl.Serial.{Value, bytes, Poll, HmtlSerial, get_message, config_ack}
use hmtl.Server.{HmtlServer, returned}
use hmtl.Server.Threads.{
  listener, scanner, Job, send_call, sent, Loop, confirming, queued, reading, Shared, fresh, move,
  enter, leave, check, call, acquire, written, leaves, Reach, here, next,
}
use hmtl.Server.Threads.Atomic.{IsSerial, Reach-IsSerial}
use hmtl.Server.Threads.Progress.{IsDone, Reach-IsDone}

abbrev writes : Value → Result (Unit {0})
writes v = ok tt

abbrev no_text : Bytes → Bool
no_text bs = false

abbrev ok_line : InputItem
ok_line = record { bytes = config_ack; timestamp = 0; is_hmtl = false; hdr = none }

abbrev answer : Poll
answer = record { got = some ok_line; received_at = 20; checked_at = 20 }

abbrev port : HmtlSerial
port = record { incoming = answer ∷ answer ∷ []; written = []; last_received = 0 }

abbrev server : HmtlServer
server = record { ser = port; sent = []; connected = true; replied = false; terminate = false }

abbrev job : Job
job = send_call (bytes (1 ∷ []))

abbrev loop : Loop
loop = confirming (bytes (1 ∷ [])) 10

abbrev locked : Shared
locked = record (move listener (enter job 10) (move listener (queued job) (fresh port))) {
  lock = some listener;
}

abbrev both : Shared
both = move scanner (queued job) locked

abbrev sending : Shared
sending = record (move listener (reading loop) both) {
  ser = record port { written = bytes (1 ∷ []) ∷ [] };
}

abbrev acked : Shared
acked =
    leave listener job 10 (sent (returned tt))
      (get_message answer (answer ∷ []) (record port { written = bytes (1 ∷ []) ∷ [] })) sending

acked_reached : Reach writes no_text (fresh port) acked
unfolding move check leave get_message
acked_reached =
    next
      (next
        (next
          (next (next here (call listener job (fresh port) refl))
            (acquire listener job 10 (move listener (queued job) (fresh port)) refl refl))
          (call scanner job locked refl))
        (written listener (bytes (1 ∷ [])) 10 both refl refl))
      (leaves listener loop (sent (returned tt)) answer (answer ∷ []) sending refl refl refl)

Reach-IsSerial_example : IsSerial writes writes no_text server port acked
Reach-IsSerial_example = Reach-IsSerial writes writes no_text server port acked acked_reached

Reach-IsDone_example : (u : Shared) × Reach writes no_text acked u × IsDone u
Reach-IsDone_example = Reach-IsDone writes writes no_text server port acked acked_reached
