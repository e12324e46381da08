-- ===== src/Serial.antt =====
-- `class HMTLSerial` of python/hmtl/HMTLSerial.py: waits for a module to be ready, and sends to it
-- with a confirmation. Its reader is a SerialBuffer or a SocketBuffer, whose `write` is a
-- parameter here; what its queue is going to return, and the clock, are a list. Logging is left
-- out. Times are in milliseconds.
pub mod Ready
pub mod Confirm
pub mod Sending
mod Tests
use hmtl.Prelude.{
  ℕ, ◌+◌, List, [], ◌∷◌, ◌++◌, Bytes, Option, none, some, Bool, false, ltb, if◌then◌else◌, Result,
  ok, err, Error, bytes_eq, last_n,
}
use Prim.Native.String.{String}
use hmtl.InputBuffer.{InputItem}

-- A Python value that is written to a port or sent over a connection: bytes, a str, or None.
pub data Value : Type 0 where
  bytes : Bytes → Value
  str : String → Value
  nothing : Value

-- One `self.serial.get(…)`: what the queue has within the second or tenth that is waited for, the
-- clock where the item is taken, and the clock where the caller looks at it next. A `get` without
-- a time limit goes on to the next of these where there is no item.
pub record Poll : Type 0 where
  pub got : Option InputItem
  pub received_at : ℕ
  pub checked_at : ℕ

-- The object's fields: `last_received`, and `self.serial` as what is still to come from it and
-- what was passed to its `write`.
pub record HmtlSerial : Type 0 where
  pub incoming : List Poll
  pub written : List Value
  pub last_received : ℕ

-- `HMTL_CONFIG_READY`
abbrev pub config_ready : Bytes
config_ready = b'r' ∷ b'e' ∷ b'a' ∷ b'd' ∷ b'y' ∷ []

-- `HMTL_CONFIG_ACK`
abbrev pub config_ack : Bytes
config_ack = b'o' ∷ b'k' ∷ []

-- `HMTL_CONFIG_FAIL`
abbrev pub config_fail : Bytes
config_fail = b'f' ∷ b'a' ∷ b'i' ∷ b'l' ∷ []

-- `HMTL_TERMINATOR`
abbrev pub terminator : Bytes
terminator = 0xFE ∷ 0xFE ∷ 0xFE ∷ 0xFE ∷ []

-- `MAX_READY_WAIT`: FIRMWARE_READY_THRESHOLD + FIRMWARE_READY_RESEND_PERIOD + 3 seconds.
abbrev pub max_ready_wait : ℕ
max_ready_wait = 10000 + 1000 + 3000

-- `TIMEOUT_CONTEXT_LINES`
abbrev pub timeout_context_lines : ℕ
timeout_context_lines = 5

receive_at : Option InputItem → ℕ → ℕ → ℕ
receive_at none now last = last
receive_at (some i) now last = now

-- `get_message`, which notes when an item came.
unfoldable pub get_message : Poll → List Poll → HmtlSerial → HmtlSerial
unfolding receive_at
get_message p rest s = record s {
  incoming = rest;
  last_received = receive_at p.got p.received_at s.last_received;
}

-- `if item: if item.data == …`
abbrev pub says : Bytes → Option InputItem → Bool
says word none = false
says word (some i) = bytes_eq i.bytes word

-- `seen.append(str(item)); del seen[:-self.TIMEOUT_CONTEXT_LINES]`, the items for their texts.
unfoldable pub remember : Option InputItem → List InputItem → List InputItem
remember none seen = seen
remember (some i) seen = last_n timeout_context_lines (seen ++ (i ∷ []))

-- `(time.time() - start_wait) > limit`
abbrev pub late : ℕ → ℕ → Poll → Bool
late start limit p = ltb (start + limit) p.checked_at

-- How `wait_for_ready` ends: True, HMTLReadyTimeout with the items that its text quotes, or not
-- within the polls at hand.
pub data Waited : Type 0 where
  ready : Waited
  timed_out : List InputItem → Waited
  waiting : Waited

unfoldable pub ready_loop : ℕ → List InputItem → List Poll → HmtlSerial → Waited × HmtlSerial
unfolding get_message remember
ready_loop start seen [] s = (waiting, record s { incoming = [] })
ready_loop start seen (p ∷ ps) s =
    let s' : HmtlSerial = get_message p ps s in
    let seen' : List InputItem = remember p.got seen in
    let rest : Waited × HmtlSerial = ready_loop start seen' ps s' in
    if says config_ready p.got
    then (ready, s')
    else (if late start max_ready_wait p then (timed_out seen', s') else rest)

-- `wait_for_ready`, begun at `start`.
unfoldable pub wait_for_ready : ℕ → HmtlSerial → Waited × HmtlSerial
unfolding ready_loop
wait_for_ready start s = ready_loop start [] s.incoming s

-- How `send_and_confirm` ends: True, an exception, or never within the polls at hand.
pub data Confirmed : Type 0 where
  confirmed : Confirmed
  raised : Error → Confirmed
  blocked : Confirmed

-- What a round of the loop of `send_and_confirm` does with an item, if that ends the loop.
unfoldable pub confirm_check : ℕ → ℕ → Option InputItem → ℕ → Option Confirmed
confirm_check start timeout none now = none
confirm_check start timeout (some i) now =
    if bytes_eq i.bytes config_ack
    then some confirmed
    else (if bytes_eq i.bytes config_fail
        then some (raised Error.config_exception)
        else (if ltb (start + timeout) now then some (raised Error.exception) else none))

leave_with : Option Confirmed → HmtlSerial → Confirmed × HmtlSerial → Confirmed × HmtlSerial
leave_with none s rest = rest
leave_with (some out) s rest = (out, s)

-- The loop of `send_and_confirm`: its `get_message()` has no time limit, and returns an item.
unfoldable pub confirm_loop : ℕ → ℕ → List Poll → HmtlSerial → Confirmed × HmtlSerial
unfolding get_message confirm_check leave_with
confirm_loop start timeout [] s = (blocked, record s { incoming = [] })
confirm_loop start timeout (p ∷ ps) s =
    let s' : HmtlSerial = get_message p ps s in
    leave_with (confirm_check start timeout p.got p.checked_at) s'
      (confirm_loop start timeout ps s')

module _ (write : Value → Result (Unit {0})) where
  sent : Value → Result (Unit {0}) → HmtlSerial → Result (Unit {0}) × HmtlSerial
  sent v (err e) s = (err e, s)
  sent v (ok done) s = (ok done, record s { written = s.written ++ (v ∷ []) })

  -- `self.serial.write(data)`
  unfoldable pub send : Value → HmtlSerial → Result (Unit {0}) × HmtlSerial
  unfolding sent
  send v s = sent v (write v) s

  and_terminator : Bool → Result (Unit {0}) × HmtlSerial → Result (Unit {0}) × HmtlSerial
  unfolding send
  and_terminator terminated (err e, s) = (err e, s)
  and_terminator terminated (ok done, s) =
      if terminated then send (bytes terminator) s else (ok done, s)

  -- The two writes of `send_and_confirm`.
  unfoldable pub send_terminated : Value → Bool → HmtlSerial → Result (Unit {0}) × HmtlSerial
  unfolding and_terminator
  send_terminated v terminated s = and_terminator terminated (send v s)

  -- What follows the writes.
  unfoldable pub await : ℕ → ℕ → Result (Unit {0}) × HmtlSerial → Confirmed × HmtlSerial
  unfolding confirm_loop
  await start timeout (err e, s) = (raised e, s)
  await start timeout (ok done, s) = confirm_loop start timeout s.incoming s

  -- `send_and_confirm`, whose writes end at `start`.
  unfoldable pub send_and_confirm : ℕ → ℕ → Value → Bool → HmtlSerial → Confirmed × HmtlSerial
  unfolding send_terminated await
  send_and_confirm start timeout v terminated s =
      await start timeout (send_terminated v terminated s)

  -- `send_command` and `send_config`, with the default time-out of ten seconds.
  unfoldable pub send_command : ℕ → Value → HmtlSerial → Confirmed × HmtlSerial
  unfolding send_and_confirm
  send_command start command s = send_and_confirm start 10000 command Bool.true s

  unfoldable pub send_config : ℕ → Bytes → HmtlSerial → Confirmed × HmtlSerial
  unfolding send_and_confirm
  send_config start config s = send_and_confirm start 10000 (bytes config) Bool.true s
