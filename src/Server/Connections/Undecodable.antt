-- ===== src/Server/Connections/Undecodable.antt =====
-- What comes over a connection and cannot be unpickled: `conn.recv()` of `HMTLServer.listen` of
-- python/hmtl/server.py raises, and `replied` still says what the round before left there.
use hmtl.Prelude.{
  ℕ, ◌≡◌, refl, Bytes, Option, none, some, Bool, true, false, Bool-cases, inl, inr, Result, ok, err,
  Error, if◌then◌else◌,
}
use Prim.Native.String.{String}
use text.Mathlib.Text.{◌==◌ as str_eq}
use hmtl.InputBuffer.{InputItem}
use hmtl.Serial.{Value, bytes, str, nothing}
use hmtl.Server.{
  HmtlServer, Received, item, words, Ended, returned, failed, waits, Round, served, lost, hangs,
  transmitted, reply, close, reply_item, reply_exit, reply_sent, send_data, get_data_msg,
  handle_msg, handle_item, recover, recovery, is_os_error, end_round, listen_round, from_data,
  data_timeout, server_ack, server_exit, server_data_req,
}
use hmtl.Server.Connections.{recv_round}

-- A call that returned has replied.
abbrev HasReplied : Ended (Unit {0}) × HmtlServer → Type 0
HasReplied (returned done, s) = s.replied ≡ true
HasReplied (failed e, s) = Unit
HasReplied (waits, s) = Unit

-- A round that was served has replied.
abbrev HasServed : Round × HmtlServer → Type 0
HasServed (served, s) = s.replied ≡ true
HasServed (lost, s) = Unit
HasServed (hangs, s) = Unit

module _ (write transmit : Value → Result (Unit {0})) (utf8 : Bytes → Bool) where
  transmitted-replied :
      (v : Value) (sent : Result (Unit {0})) (s : HmtlServer)
      → (transmitted write transmit utf8 v sent s).1.replied ≡ true
  unfolding transmitted
  transmitted-replied v (err e) s = refl
  transmitted-replied v (ok done) s = refl

  reply-replied : (v : Value) (s : HmtlServer) → (reply write transmit utf8 v s).1.replied ≡ true
  unfolding reply
  reply-replied v s = transmitted-replied v (transmit v) s

  HasReplied-intro : (out : Ended (Unit {0}) × HmtlServer) → out.1.replied ≡ true → HasReplied out
  HasReplied-intro (returned done, s) h = h
  HasReplied-intro (failed e, s) h = tt
  HasReplied-intro (waits, s) h = tt

  reply_item-HasReplied :
      (out : Ended (Option InputItem) × HmtlServer)
      → HasReplied (reply_item write transmit utf8 out)
  unfolding reply_item
  reply_item-HasReplied (returned none, s) = HasReplied-intro _ (reply-replied nothing s)
  reply_item-HasReplied (returned (some i), s) =
      HasReplied-intro _ (reply-replied (bytes i.bytes) s)
  reply_item-HasReplied (failed e, s) = tt
  reply_item-HasReplied (waits, s) = tt

  reply_sent-HasReplied :
      (out : Ended (Unit {0}) × HmtlServer) → HasReplied (reply_sent write transmit utf8 out)
  unfolding reply_sent
  reply_sent-HasReplied (returned done, s) = HasReplied-intro _ (reply-replied (str server_ack) s)
  reply_sent-HasReplied (failed e, s) = tt
  reply_sent-HasReplied (waits, s) = tt

  reply_exit-HasReplied :
      (out : Ended (Unit {0}) × HmtlServer)
      → out.1.replied ≡ true
      → HasReplied (reply_exit write transmit utf8 out)
  unfolding reply_exit close
  reply_exit-HasReplied (returned done, s) h = h
  reply_exit-HasReplied (failed e, s) h = tt
  reply_exit-HasReplied (waits, s) h = tt

  handle_words-HasReplied :
      (start : ℕ) (w : String) (s : HmtlServer)
      → HasReplied (handle_msg write transmit utf8 start (some (words w)) s)
  unfolding handle_msg
  handle_words-HasReplied start w s = elim (Bool-cases (str_eq w server_exit)) [
    | inl x ↦ rw x (
        reply_exit-HasReplied (reply write transmit utf8 (str server_ack) s)
          (reply-replied (str server_ack) s))
    | inr x ↦ elim (Bool-cases (str_eq w server_data_req)) [
      | inl y ↦ rw (x, y) (reply_item-HasReplied (get_data_msg utf8 start data_timeout s))
      | inr y ↦ rw (x, y) (reply_sent-HasReplied (send_data write transmit utf8 start (str w) s))
    ]
  ]

  handle_item-HasReplied :
      (start : ℕ) (received : Result (Option Received)) (s : HmtlServer)
      → HasReplied (handle_item write transmit utf8 start received s)
  unfolding handle_item handle_msg
  handle_item-HasReplied start (err e) s = tt
  handle_item-HasReplied start (ok none) s = tt
  handle_item-HasReplied start (ok (some (item i))) s =
      reply_sent-HasReplied (send_data write transmit utf8 start (bytes i.bytes) s)
  handle_item-HasReplied start (ok (some (words w))) s = handle_words-HasReplied start w s

  recover_reply-HasServed :
      (b : Bool) (v : Value) (s : HmtlServer)
      → s.replied ≡ b
      → HasServed (if b then (served, s) else (served, (reply write transmit utf8 v s).1))
  recover_reply-HasServed true v s h = h
  recover_reply-HasServed false v s h = reply-replied v s

  end_round-HasServed :
      (request : Value) (out : Ended (Unit {0}) × HmtlServer)
      → HasReplied out
      → HasServed (end_round write transmit utf8 request out)
  unfolding end_round recover
  end_round-HasServed request (returned done, s) h = h
  end_round-HasServed request (failed e, s) h =
      elim (Bool-cases (is_os_error write transmit utf8 e)) [
        | inl o ↦ rw o tt
        | inr o ↦
            rw o (recover_reply-HasServed s.replied (recovery write transmit utf8 request) s refl)
      ]
  end_round-HasServed request (waits, s) h = tt

  served-replied :
      (out : Round × HmtlServer) (s : HmtlServer)
      → HasServed out
      → out ≡ (served, s)
      → s.replied ≡ true
  served-replied out s h e = rw e at h

  listen_round-replied :
      (start : ℕ) (request : Value) (s s' : HmtlServer)
      → listen_round write transmit utf8 start request s ≡ (served, s')
      → s'.replied ≡ true
  unfolding listen_round
  listen_round-replied start request s s' e =
      let s0 : HmtlServer = record s { replied = false } in
      let received = from_data request start in
      let out = handle_item write transmit utf8 start received s0 in
      served-replied (end_round write transmit utf8 request out) s'
        (end_round-HasServed request out (handle_item-HasReplied start received s0)) e

  -- What cannot be unpickled is answered by nothing behind a request that was served: `replied`
  -- is still true of that request, so the server goes on to wait with the connection as it was,
  -- while the client waits for a reply. The exception is no EOFError or IOError.
  pub recv_round-undecodable :
      (start later : ℕ) (request : Value) (e : Error) (s s' : HmtlServer)
      → listen_round write transmit utf8 start request s ≡ (served, s')
      → is_os_error write transmit utf8 e ≡ false
      → recv_round write transmit utf8 later (err e) s' ≡ (served, s')
  unfolding recv_round recover
  recv_round-undecodable start later request e s s' done other =
      rw (other, listen_round-replied start request s s' done) refl
