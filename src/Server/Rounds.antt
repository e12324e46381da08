-- ===== src/Server/Rounds.antt =====
-- The rounds of `HMTLServer.listen` of python/hmtl/server.py: what goes out for a request.
use hmtl.Prelude.{
  ℕ, ◌≡◌, ◌⊎◌, inl, inr, refl, [], ◌∷◌, ◌++◌, Bytes, Option, none, some, Bool, true, false,
  Bool-cases, Result, Result-cases, ok, Error, if◌then◌else◌, ◌==◌,
}
use Prim.Native.String.{String}
use text.Mathlib.Text.{◌==◌ as str_eq}
use text.Mathlib.TextEquality.{eq_iff}
use hmtl.InputBuffer.{InputItem, new_item}
use hmtl.Protocol.MsgHdr.{start_code}
use hmtl.Serial.{Value, bytes, str, nothing}
use hmtl.Server.{
  bytes_item, is_os_error, HmtlServer, words, from_data, Ended, returned, failed, waits, reply,
  close, send_data, reply_item, reply_exit, reply_sent, handle_msg, handle_item, recovery, recover,
  end_round, Round, served, lost, hangs, listen_round, get_data_msg, server_ack, server_exit,
  server_data_req, data_timeout,
}

abbrev pub is_data_req : Value → Bool
is_data_req nothing = false
is_data_req (bytes bs) = false
is_data_req (str w) = str_eq w server_data_req

-- The reply that the client looks for: what the module sent or None after a request for data, and
-- otherwise the acknowledgement.
abbrev pub Fits : Bool → Value → Type 0
Fits true v = (v ≡ nothing) ⊎ ((bs : Bytes) × (v ≡ bytes bs))
Fits false v = v ≡ str server_ack

abbrev pub IsOneReply : Value → HmtlServer → HmtlServer → Type 0
IsOneReply request s s' =
    (v : Value) × (s'.sent ≡ s.sent ++ (v ∷ [])) × Fits (is_data_req request) v

-- A round that is served sent one reply; one that lost the connection or hangs sent none.
abbrev pub IsAnswered : Value → HmtlServer → Round × HmtlServer → Type 0
IsAnswered request s (served, s') = IsOneReply request s s'
IsAnswered request s (lost, s') = s'.sent ≡ s.sent
IsAnswered request s (hangs, s') = s'.sent ≡ s.sent

abbrev IsHandled : Value → HmtlServer → Ended (Unit {0}) × HmtlServer → Type 0
IsHandled request s (returned done, s') = IsOneReply request s s'
IsHandled request s (failed e, s') = (s'.sent ≡ s.sent) × (s'.replied ≡ false)
IsHandled request s (waits, s') = s'.sent ≡ s.sent

not_data : (w : String) → str_eq w server_exit ≡ true → Fits (is_data_req (str w)) (str server_ack)
not_data w x = rw ((eq_iff w server_exit).0 x) refl

-- Nothing was sent so far.
abbrev IsFresh : HmtlServer → HmtlServer → Type 0
IsFresh s s' = (s'.sent ≡ s.sent) × (s'.replied ≡ false)

module _ (write transmit : Value → Result (Unit {0})) (utf8 : Bytes → Bool)
    (delivers : (v : Value) → transmit v ≡ ok tt) where
  reply_lem :
      (v : Value) (s : HmtlServer)
      → reply write transmit utf8 v s
        ≡ (returned tt, record s { replied = true; sent = s.sent ++ (v ∷ []) })
  unfolding reply
  reply_lem v s = rw (delivers v) refl

  reply-IsHandled :
      (request v : Value) (s s' : HmtlServer)
      → s'.sent ≡ s.sent
      → Fits (is_data_req request) v
      → IsHandled request s (reply write transmit utf8 v s')
  reply-IsHandled request v s s' e f = rw (reply_lem v s') (v, rw e refl, f)

  reply_item-IsHandled :
      (request : Value) (s : HmtlServer) (out : Ended (Option InputItem) × HmtlServer)
      → IsFresh s out.1
      → is_data_req request ≡ true
      → IsHandled request s (reply_item write transmit utf8 out)
  unfolding reply_item
  reply_item-IsHandled request s (returned none, s') (e, r) d =
      reply-IsHandled request nothing s s' e (rw d (inl refl))
  reply_item-IsHandled request s (returned (some i), s') (e, r) d =
      reply-IsHandled request (bytes i.bytes) s s' e (rw d (inr (i.bytes, refl)))
  reply_item-IsHandled request s (failed x, s') f d = f
  reply_item-IsHandled request s (waits, s') (e, r) d = e

  reply_sent-IsHandled :
      (request : Value) (s : HmtlServer) (out : Ended (Unit {0}) × HmtlServer)
      → IsFresh s out.1
      → is_data_req request ≡ false
      → IsHandled request s (reply_sent write transmit utf8 out)
  unfolding reply_sent
  reply_sent-IsHandled request s (returned done, s') (e, r) d =
      reply-IsHandled request (str server_ack) s s' e (rw d refl)
  reply_sent-IsHandled request s (failed x, s') f d = f
  reply_sent-IsHandled request s (waits, s') (e, r) d = e

  handle_words-IsHandled :
      (start : ℕ) (w : String) (s : HmtlServer)
      → IsHandled
          (str w)
          s
          (handle_msg write transmit utf8 start (some (words w)) (record s { replied = false }))
  unfolding handle_msg reply_exit close get_data_msg send_data
  handle_words-IsHandled start w s =
      let s' : HmtlServer = record s { replied = false } in
      elim (Bool-cases (str_eq w server_exit)) [
        | inl x ↦ rw (x, reply_lem (str server_ack) s') (str server_ack, refl, not_data w x)
        | inr x ↦ elim (Bool-cases (str_eq w server_data_req)) [
          | inl y ↦
              rw (x, y)
                (reply_item-IsHandled (str w) s (get_data_msg utf8 start data_timeout s')
                  (refl, refl) y)
          | inr y ↦
              rw (x, y)
                (reply_sent-IsHandled (str w) s (send_data write transmit utf8 start (str w) s')
                  (refl, refl) y)
        ]
      ]

  handle_bytes-IsHandled :
      (start : ℕ) (bs : Bytes) (s : HmtlServer)
      → IsHandled (bytes bs) s (
          handle_item write transmit utf8 start
            (bytes_item bs start)
            (record s { replied = false }))
  unfolding handle_item bytes_item handle_msg send_data
  handle_bytes-IsHandled start [] s = (refl, refl)
  handle_bytes-IsHandled start (b ∷ bs) s =
      elim (Result-cases (new_item (b ∷ bs) start (b == start_code))) [
        | inr (e, n) ↦ rw n (refl, refl)
        | inl (i, n) ↦ rw n (
            reply_sent-IsHandled (bytes (b ∷ bs)) s
              (send_data write transmit utf8 start (bytes i.bytes) (record s { replied = false }))
              (refl, refl) refl)
      ]

  handle_item-IsHandled :
      (start : ℕ) (request : Value) (s : HmtlServer)
      → IsHandled request s (
          handle_item write transmit utf8 start
            (from_data request start)
            (record s { replied = false }))
  unfolding handle_item from_data handle_msg
  handle_item-IsHandled start nothing s = (refl, refl)
  handle_item-IsHandled start (bytes bs) s = handle_bytes-IsHandled start bs s
  handle_item-IsHandled start (str w) s = elim (Bool-cases (str_eq w "")) [
    | inl x ↦ rw x (refl, refl)
    | inr x ↦ rw x (handle_words-IsHandled start w s)
  ]

  recovery-Fits :
      (request : Value) → Fits (is_data_req request) (recovery write transmit utf8 request)
  unfolding recovery
  recovery-Fits nothing = refl
  recovery-Fits (bytes bs) = refl
  recovery-Fits (str w) = elim (Bool-cases (str_eq w server_data_req)) [
    | inl d ↦ rw d (inl refl)
    | inr d ↦ rw d refl
  ]

  recover_first :
      (replied : Bool) (request : Value) (s s' : HmtlServer)
      → s'.sent ≡ s.sent
      → replied ≡ false
      → IsAnswered request s (
          if replied
          then (served, s')
          else (served, (reply write transmit utf8 (recovery write transmit utf8 request) s').1))
  recover_first true request s s' same r = cc
  recover_first false request s s' same r =
      rw (reply_lem (recovery write transmit utf8 request) s')
        (recovery write transmit utf8 request, rw same refl, recovery-Fits request)

  recover-IsAnswered :
      (request : Value) (e : Error) (s s' : HmtlServer)
      → IsFresh s s'
      → IsAnswered request s (recover write transmit utf8 request e s')
  unfolding recover
  recover-IsAnswered request e s s' (same, r) =
      elim (Bool-cases (is_os_error write transmit utf8 e)) [
        | inl o ↦ rw o same
        | inr o ↦ rw o (recover_first s'.replied request s s' same r)
      ]

  end_round-IsAnswered :
      (request : Value) (s : HmtlServer) (out : Ended (Unit {0}) × HmtlServer)
      → IsHandled request s out
      → IsAnswered request s (end_round write transmit utf8 request out)
  unfolding end_round recover
  end_round-IsAnswered request s (returned done, s') h = h
  end_round-IsAnswered request s (failed e, s') h = recover-IsAnswered request e s s' h
  end_round-IsAnswered request s (waits, s') h = h

  -- A round of the server that is served sends one reply, which is what the client looks for; one
  -- that loses the connection or waits on sends none.
  pub listen_round-IsAnswered :
      (start : ℕ) (request : Value) (s : HmtlServer)
      → IsAnswered request s (listen_round write transmit utf8 start request s)
  unfolding listen_round
  listen_round-IsAnswered start request s =
      end_round-IsAnswered request s _ (handle_item-IsHandled start request s)
