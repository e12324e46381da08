-- ===== src/Client.antt =====
-- `class HMTLClient` of python/hmtl/client.py, with a server at the other end of its connection:
-- what the client sends is a round of the server. Verbose logging is off.
pub mod Session
pub mod Progress
pub mod Answers
pub mod Port
pub mod Exchange
pub mod Undecoded
pub mod Interleaving
mod Tests
use hmtl.Prelude.{
  ℕ, zero, suc, ◌+◌, List, [], ◌∷◌, ◌++◌, length, Option, none, some, Bool, true, false, Bytes,
  if◌then◌else◌, Result, ok, err, Error,
}
use text.Mathlib.Text.{◌==◌ as str_eq}
use hmtl.Protocol.MsgHdr.{MsgHdr, more_data}
use hmtl.Replies.{ReplyHdr, msg_to_headers}
use hmtl.Serial.{Value, bytes, str, nothing}
use hmtl.Server.{
  HmtlServer, Ended, returned, failed, waits, Round, served, lost, hangs, listen_round, server_ack,
  server_data_req, server_exit,
}

-- `conn.recv()` where nothing is on its way: an EOFError where the server gave the connection up.
unfoldable pub dry : {V : Type 0} → Round → Ended V
dry served = waits
dry lost = failed Error.os_error
dry hangs = waits

-- `get_ack`, for a message that was received.
unfoldable pub get_ack : Value → Bool
get_ack nothing = false
get_ack (bytes bs) = false
get_ack (str w) = str_eq w server_ack

-- The first loop of `send_and_ack`: what is received before the acknowledgement is dropped.
unfoldable pub ack_loop : Round → List Value → HmtlServer → Ended (Unit {0}) × HmtlServer
unfolding get_ack dry
ack_loop r [] s = (dry r, record s { sent = [] })
ack_loop r (v ∷ vs) s =
    let rest : Ended (Unit {0}) × HmtlServer = ack_loop r vs s in
    if get_ack v then (returned tt, record s { sent = vs }) else rest

-- `conn.recv()`
unfoldable pub recv : Round → List Value → HmtlServer → Ended Value × HmtlServer
unfolding dry
recv r [] s = (dry r, s)
recv r (v ∷ vs) s = (returned v, record s { sent = vs })

abbrev pub Headers : Type 0
Headers = MsgHdr × ReplyHdr

of_parsed : Result Headers → Option Headers
of_parsed (err e) = none
of_parsed (ok h) = some h

-- `HMTLprotocol.msg_to_headers(msg)`, None where that raises.
unfoldable pub decode : Value → Option Headers
unfolding of_parsed
decode nothing = none
decode (str w) = none
decode (bytes bs) = of_parsed (msg_to_headers bs)

-- `more_data`, after the message.
unfoldable pub wants_more : Option Headers → Bool
wants_more none = false
wants_more (some (h, r)) = more_data h

-- `[messages, headers]`
pub record Responses : Type 0 where
  pub messages : List Value
  pub headers : List (Option Headers)

unfoldable pub some_responses : Option (Ended Responses) → Option (Ended (Option Responses))
some_responses none = none
some_responses (some (returned got)) = some (returned (some got))
some_responses (some (failed e)) = some (failed e)
some_responses (some waits) = some waits

abbrev pub no_responses : Responses
no_responses = record { messages = []; headers = [] }

unfoldable pub add : Value → Responses → Responses
add v got = record { messages = got.messages ++ (v ∷ []); headers = got.headers ++ (decode v ∷ []) }

-- `write` and `utf8` are the server's; the connection is up; `clock k` is the time of request `k`.
module _ (write transmit : Value → Result (Unit {0})) (utf8 : Bytes → Bool) (clock : ℕ → ℕ) where
  unfoldable pub recv_after : Round × HmtlServer → Ended Value × HmtlServer
  unfolding recv
  recv_after (r, s) = recv r s.sent s

  -- `get_response_data`
  unfoldable pub get_response_data : ℕ → HmtlServer → Ended Value × HmtlServer
  unfolding recv_after
  get_response_data k s =
      recv_after (listen_round write transmit utf8 (clock k) (str server_data_req) s)

  -- What follows a response: `next` is the rest of the loop.
  unfoldable pub on_response :
      (Responses → HmtlServer → Option (Ended Responses) × HmtlServer)
      → Responses
      → Ended Value × HmtlServer
      → Option (Ended Responses) × HmtlServer
  unfolding add wants_more
  on_response next got (returned v, s) =
      if wants_more (decode v) then next (add v got) s else (some (returned (add v got)), s)
  on_response next got (failed e, s) = (some (failed e), s)
  on_response next got (waits, s) = (some waits, s)

  -- The second loop of `send_and_ack`, on fuel: `none` is no Python value.
  unfoldable pub response_loop :
      ℕ → ℕ → Responses → HmtlServer → Option (Ended Responses) × HmtlServer
  unfolding on_response
  response_loop zero k got s = (none, s)
  response_loop (suc fuel) k got s =
      on_response (response_loop fuel (k + 1)) got (get_response_data k s)

  -- Behind the acknowledgement: every response but the last takes an item of the serial port.
  unfoldable pub on_ack :
      Bool → ℕ → Ended (Unit {0}) × HmtlServer → Option (Ended (Option Responses)) × HmtlServer
  unfolding response_loop some_responses
  on_ack expect k (failed e, s) = (some (failed e), s)
  on_ack expect k (waits, s) = (some waits, s)
  on_ack false k (returned done, s) = (some (returned none), s)
  on_ack true k (returned done, s) =
      let (out, s') = response_loop (suc (length s.ser.incoming)) (k + 1) no_responses s in
      (some_responses out, s')

  unfoldable pub ack_after : Round × HmtlServer → Ended (Unit {0}) × HmtlServer
  unfolding ack_loop
  ack_after (r, s) = ack_loop r s.sent s

  -- `send_and_ack`, with `[None, None]` as `none`.
  unfoldable pub send_and_ack :
      ℕ → Value → Bool → HmtlServer → Option (Ended (Option Responses)) × HmtlServer
  unfolding on_ack ack_after
  send_and_ack k msg expect s =
      on_ack expect k (ack_after (listen_round write transmit utf8 (clock k) msg s))

  -- `send_exit`
  unfoldable pub send_exit : ℕ → HmtlServer → Option (Ended (Option Responses)) × HmtlServer
  unfolding send_and_ack
  send_exit k s = send_and_ack k (str server_exit) false s
