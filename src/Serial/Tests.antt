-- ===== src/Serial/Tests.antt =====
-- Examples for Serial.
use hmtl.Prelude.{ℕ, List, [], ◌∷◌, Option, none, some, Bytes, false, Result, ok}
use hmtl.InputBuffer.{InputItem}
use hmtl.Serial.{Value, Poll, HmtlSerial, config_ready, bytes, wait_for_ready, send_and_confirm}
use hmtl.Serial.Ready.{IsVerdict, wait_for_ready-IsVerdict}
use hmtl.Serial.Sending.{IsAnswered, send_and_confirm-IsAnswered}

abbrev line : Bytes → InputItem
line bs = record { bytes = bs; timestamp = 0; is_hmtl = false; hdr = none }

abbrev poll : Option InputItem → ℕ → Poll
poll got now = record { got = got; received_at = now; checked_at = now }

abbrev serial : List Poll → HmtlSerial
serial polls = record { incoming = polls; written = []; last_received = 0 }

abbrev booting : List Poll
booting =
    poll (some (line (b'h' ∷ b'i' ∷ []))) 700
    ∷ poll none 1700
    ∷ poll (some (line config_ready)) 2000
    ∷ poll none 3000
    ∷ []

abbrev quiet : List Poll
quiet = poll none 9000 ∷ poll none 15001 ∷ []

abbrev write_all : Value → Result (Unit {0})
write_all v = ok tt

wait_for_ready-IsVerdict_example : IsVerdict 0 [] booting (wait_for_ready 0 (serial booting))
wait_for_ready-IsVerdict_example = wait_for_ready-IsVerdict 0 (serial booting)

send_and_confirm-IsAnswered_example :
    IsAnswered write_all 0 10000
      (bytes (1 ∷ []))
      false
      (serial booting)
      (send_and_confirm write_all 0 10000 (bytes (1 ∷ [])) false (serial booting))
send_and_confirm-IsAnswered_example =
    send_and_confirm-IsAnswered write_all 0 10000 (bytes (1 ∷ [])) false (serial booting)
