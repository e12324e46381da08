-- ===== src/Server.antt =====
-- `class HMTLServer` of python/hmtl/server.py: takes requests from a client over a connection and
-- passes them to the module at its serial port. Logging is left out, but not the decoding of a
-- message for its log line, which can raise. Times are in milliseconds.
pub mod Rounds
pub mod Listen
pub mod Scanner
pub mod Threads
pub mod Connections
use hmtl.Prelude.{
  ℕ, ◌+◌, List, [], ◌∷◌, ◌++◌, Bytes, Option, none, some, Bool, true, false, not, ltb, ◌==◌,
  if◌then◌else◌, Result, ok, err, Error, ◌>>=◌,
}
use Prim.Native.String.{String}
use text.Mathlib.Text.{◌==◌ as str_eq}
use hmtl.InputBuffer.{InputItem, new_item}
use hmtl.Protocol.MsgHdr.{start_code}
use hmtl.Replies.{msg_to_headers}
use hmtl.Serial.{
  Value, bytes, str, nothing, Poll, HmtlSerial, get_message, Confirmed, confirmed, raised, blocked,
  send_and_confirm,
}

-- `SERVER_ACK`, `SERVER_EXIT` and `SERVER_DATA_REQ`
abbrev pub server_ack : String
server_ack = "ack"

abbrev pub server_exit : String
server_exit = "exit"

abbrev pub server_data_req : String
server_data_req = "data"

-- `DATA_TIMEOUT` and `SCAN_TIMEOUT`
abbrev pub data_timeout : ℕ
data_timeout = 1000

abbrev pub scan_timeout : ℕ
scan_timeout = 250

-- The fields: `ser`, what was sent over `conn` and is not received yet, whether it and the listener
-- are open still, and the flags.
pub record HmtlServer : Type 0 where
  pub ser : HmtlSerial
  pub sent : List Value
  pub connected : Bool
  pub replied : Bool
  pub terminate : Bool

-- An `InputItem` of what came over the connection, which can hold a str.
pub data Received : Type 0 where
  item : InputItem → Received
  words : String → Received

unfoldable pub bytes_item : Bytes → ℕ → Result (Option Received)
bytes_item [] now = ok none
bytes_item (b ∷ bs) now = do i ← new_item (b ∷ bs) now (b == start_code); ok (some (item i))

-- `InputItem.from_data`
unfoldable pub from_data : Value → ℕ → Result (Option Received)
unfolding bytes_item
from_data nothing now = err Error.type_error
from_data (str s) now = if str_eq s "" then ok none else ok (some (words s))
from_data (bytes bs) now = bytes_item bs now

-- How a call ends: it returns, it raises, or it waits within the polls at hand.
pub data Ended {ℓ} (V : Type ℓ) : Type ℓ where
  returned : V → Ended V
  failed : Error → Ended V
  waits : Ended V

unfoldable pub of_confirmed : Confirmed → Ended (Unit {0})
of_confirmed confirmed = returned tt
of_confirmed (raised e) = failed e
of_confirmed blocked = waits

-- `decode_data`, for its exceptions: `utf8` tells whether `readdata.decode()` returns.
unfoldable pub decode_data : (Bytes → Bool) → Bytes → Result (Unit {0})
decode_data utf8 bs = if utf8 bs then ok tt else (msg_to_headers bs >>= λ headers. ok tt)

of_decoded : InputItem → Result (Unit {0}) → Ended (Option InputItem)
of_decoded i (err e) = failed e
of_decoded i (ok done) = returned (some i)

-- What a round of the loop of `get_data_msg` does, if that ends the loop.
unfoldable pub data_check :
    (Bytes → Bool) → ℕ → Option InputItem → ℕ → Option (Ended (Option InputItem))
unfolding of_decoded decode_data
data_check utf8 time_limit none now = if ltb time_limit now then some (returned none) else none
data_check utf8 time_limit (some i) now =
    if i.is_hmtl
    then some (of_decoded i (decode_data utf8 i.bytes))
    else (if ltb time_limit now then some (returned none) else none)

unfoldable pub leave_with :
    {V : Type 0} → Option (Ended V) → HmtlSerial → Ended V × HmtlSerial → Ended V × HmtlSerial
leave_with none s rest = rest
leave_with (some out) s rest = (out, s)

-- The loop of `get_data_msg`
unfoldable pub data_loop :
    (Bytes → Bool) → ℕ → List Poll → HmtlSerial → Ended (Option InputItem) × HmtlSerial
unfolding data_check leave_with
data_loop utf8 time_limit [] s = (waits, record s { incoming = [] })
data_loop utf8 time_limit (p ∷ ps) s =
    let s' : HmtlSerial = get_message p ps s in
    leave_with (data_check utf8 time_limit p.got p.checked_at) s' (data_loop utf8 time_limit ps s')

-- `get_data_msg`, begun at `start`.
unfoldable pub get_data_msg :
    (Bytes → Bool) → ℕ → ℕ → HmtlServer → Ended (Option InputItem) × HmtlServer
unfolding data_loop
get_data_msg utf8 start timeout s =
    let (out, ser) = data_loop utf8 (start + timeout) s.ser.incoming s.ser in
    (out, record s { ser = ser })

-- What a round of the loop of `listen` comes to: the next one; the search for another
-- connection after an EOFError or IOError; or it waits within the polls at hand.
pub data Round : Type 0 where
  served lost hangs : Round

-- `write` is the port's and `transmit` is `conn.send`; `utf8` tells whether `bytes.decode()` returns.
module _ (write transmit : Value → Result (Unit {0})) (utf8 : Bytes → Bool) where
  unfoldable pub transmitted :
      Value → Result (Unit {0}) → HmtlServer → Ended (Unit {0}) × HmtlServer
  transmitted v (err e) s = (failed e, record s { replied = true })
  transmitted v (ok done) s = (returned tt, record s { replied = true; sent = s.sent ++ (v ∷ []) })

  -- `reply`
  unfoldable pub reply : Value → HmtlServer → Ended (Unit {0}) × HmtlServer
  unfolding transmitted
  reply v s = transmitted v (transmit v) s

  -- `close`
  unfoldable pub close : HmtlServer → HmtlServer
  close s = record s { connected = false; terminate = true }

  -- `send_data`, begun at `start`.
  unfoldable pub send_data : ℕ → Value → HmtlServer → Ended (Unit {0}) × HmtlServer
  unfolding send_and_confirm of_confirmed
  send_data start v s =
      let (out, ser) = send_and_confirm write start 10000 v false s.ser in
      (of_confirmed out, record s { ser = ser })

  -- `if item: self.reply(item.data) else: self.reply(None)`
  unfoldable pub reply_item : Ended (Option InputItem) × HmtlServer → Ended (Unit {0}) × HmtlServer
  unfolding reply
  reply_item (returned none, s) = reply nothing s
  reply_item (returned (some i), s) = reply (bytes i.bytes) s
  reply_item (failed e, s) = (failed e, s)
  reply_item (waits, s) = (waits, s)

  -- `self.reply(SERVER_ACK); self.close()`
  unfoldable pub reply_exit : Ended (Unit {0}) × HmtlServer → Ended (Unit {0}) × HmtlServer
  unfolding close
  reply_exit (returned done, s) = (returned done, close s)
  reply_exit (failed e, s) = (failed e, s)
  reply_exit (waits, s) = (waits, s)

  -- `self.send_data(item.data); self.reply(SERVER_ACK)`
  unfoldable pub reply_sent : Ended (Unit {0}) × HmtlServer → Ended (Unit {0}) × HmtlServer
  unfolding reply
  reply_sent (returned done, s) = reply (str server_ack) s
  reply_sent (failed e, s) = (failed e, s)
  reply_sent (waits, s) = (waits, s)

  -- `handle_msg`, at `start`.
  unfoldable pub handle_msg : ℕ → Option Received → HmtlServer → Ended (Unit {0}) × HmtlServer
  unfolding reply_item reply_exit reply_sent
  handle_msg start none s = (failed Error.attribute_error, s)
  handle_msg start (some (item i)) s = reply_sent (send_data start (bytes i.bytes) s)
  handle_msg start (some (words w)) s =
      if str_eq w server_exit
      then reply_exit (reply (str server_ack) s)
      else (if str_eq w server_data_req
          then reply_item (get_data_msg utf8 start data_timeout s)
          else reply_sent (send_data start (str w) s))

  -- `recovery`
  unfoldable pub recovery : Value → Value
  recovery nothing = str server_ack
  recovery (bytes bs) = str server_ack
  recovery (str w) = if str_eq w server_data_req then nothing else str server_ack

  unfoldable pub is_os_error : Error → Bool
  is_os_error Error.os_error = true
  is_os_error _ = false

  -- The two `except` blocks.
  unfoldable pub recover : Value → Error → HmtlServer → Round × HmtlServer
  unfolding is_os_error reply recovery
  recover request e s =
      if is_os_error e
      then (lost, record s { connected = false })
      else (if s.replied then (served, s) else (served, (reply (recovery request) s).1))

  unfoldable pub end_round : Value → Ended (Unit {0}) × HmtlServer → Round × HmtlServer
  unfolding recover
  end_round request (returned done, s) = (served, s)
  end_round request (failed e, s) = recover request e s
  end_round request (waits, s) = (hangs, s)

  unfoldable pub handle_item :
      ℕ → Result (Option Received) → HmtlServer → Ended (Unit {0}) × HmtlServer
  unfolding handle_msg
  handle_item start (err e) s = (failed e, s)
  handle_item start (ok i) s = handle_msg start i s

  -- One round of the loop of `listen`, for what `conn.recv()` returned at `start`.
  unfoldable pub listen_round : ℕ → Value → HmtlServer → Round × HmtlServer
  unfolding end_round handle_item from_data
  listen_round start request s =
      end_round request (handle_item start (from_data request start) (record s { replied = false }))

  unfoldable pub on_round :
      (HmtlServer → Round × HmtlServer) → Round × HmtlServer → Round × HmtlServer
  on_round next (served, s) = next s
  on_round next (lost, s) = (lost, s)
  on_round next (hangs, s) = (hangs, s)

  -- The loop of `listen` on one connection, for what `conn.recv()` returns and when.
  unfoldable pub listen : List (ℕ × Value) → HmtlServer → Round × HmtlServer
  unfolding on_round listen_round
  listen [] s = (served, s)
  listen ((start, request) ∷ more) s =
      if s.terminate then (served, s) else on_round (listen more) (listen_round start request s)
