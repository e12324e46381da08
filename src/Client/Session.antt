-- ===== src/Client/Session.antt =====
-- A client and a server together: python/hmtl/client.py with python/hmtl/server.py.
use hmtl.Prelude.{
  ℕ, zero, suc, ◌+◌, ◌≡◌, ◌⊎◌, inl, inr, refl, ap, ◌∙◌, List, [], ◌∷◌, Bytes, Option, Bool, true,
  false, Bool-cases, Result, ok, length, drop,
}
use hmtl.Serial.{Value, str}
use hmtl.Server.{
  HmtlServer, Ended, returned, failed, waits, Round, served, lost, hangs, server_ack,
  server_data_req,
}
use hmtl.Server.Rounds.{is_data_req, Fits, IsAnswered, listen_round-IsAnswered}
use hmtl.Client.{
  get_ack, ack_loop, recv, Responses, wants_more, decode, add, recv_after, get_response_data,
  on_response, response_loop, on_ack, ack_after, send_and_ack, no_responses,
}

Fits-ack : (b : Bool) (v : Value) → b ≡ false → Fits b v → v ≡ str server_ack
Fits-ack true v e f = cc
Fits-ack false v e f = f

ack_loop_one :
    (r : Round) (vs : List Value) (v : Value) (s : HmtlServer)
    → vs ≡ v ∷ []
    → v ≡ str server_ack
    → ack_loop r vs s ≡ (returned tt, record s { sent = [] })
unfolding ack_loop get_ack
ack_loop_one r vs v s e a = rw (e, a) refl

abbrev pub NothingUnread {ℓ} : {V : Type ℓ} → V × HmtlServer → Type 0
NothingUnread out = out.1.sent ≡ []

ack_loop-NothingUnread :
    (r : Round) (vs : List Value) (s : HmtlServer) → vs ≡ [] → NothingUnread (ack_loop r vs s)
unfolding ack_loop
ack_loop-NothingUnread r vs s e = rw e refl

recv-NothingUnread :
    (r : Round) (vs : List Value) (s : HmtlServer)
    → s.sent ≡ vs
    → (vs ≡ []) ⊎ ((v : Value) × (vs ≡ v ∷ []))
    → NothingUnread (recv r vs s)
unfolding recv
recv-NothingUnread r [] s e h = e
recv-NothingUnread r (v ∷ vs) s e (inl h) = cc
recv-NothingUnread r (v ∷ vs) s e (inr (w, h)) = ap (λ (l : List Value). drop 1 l) h

module _ (write transmit : Value → Result (Unit {0})) (utf8 : Bytes → Bool) (clock : ℕ → ℕ)
    (delivers : (v : Value) → transmit v ≡ ok tt) where
  pub ack_after-NothingUnread :
      (msg : Value) (s : HmtlServer) (out : Round × HmtlServer)
      → s.sent ≡ []
      → is_data_req msg ≡ false
      → IsAnswered msg s out
      → NothingUnread (ack_after write transmit utf8 clock out)
  unfolding ack_after
  ack_after-NothingUnread msg s (served, s') e d (v, sent, fits) =
      ap (λ (o : Ended (Unit {0}) × HmtlServer). o.1.sent)
        (ack_loop_one served s'.sent v s' (sent ∙ rw e refl) (Fits-ack _ v d fits))
  ack_after-NothingUnread msg s (lost, s') e d sent =
      ack_loop-NothingUnread lost s'.sent s' (sent ∙ e)
  ack_after-NothingUnread msg s (hangs, s') e d sent =
      ack_loop-NothingUnread hangs s'.sent s' (sent ∙ e)

  recv_after-NothingUnread :
      (msg : Value) (s : HmtlServer) (out : Round × HmtlServer)
      → s.sent ≡ []
      → IsAnswered msg s out
      → NothingUnread (recv_after write transmit utf8 clock out)
  unfolding recv_after
  recv_after-NothingUnread msg s (served, s') e (v, sent, fits) =
      recv-NothingUnread served s'.sent s' refl (inr (v, sent ∙ rw e refl))
  recv_after-NothingUnread msg s (lost, s') e sent =
      recv-NothingUnread lost s'.sent s' refl (inl (sent ∙ e))
  recv_after-NothingUnread msg s (hangs, s') e sent =
      recv-NothingUnread hangs s'.sent s' refl (inl (sent ∙ e))

  pub get_response_data-NothingUnread :
      (k : ℕ) (s : HmtlServer)
      → s.sent ≡ []
      → NothingUnread (get_response_data write transmit utf8 clock k s)
  unfolding get_response_data
  get_response_data-NothingUnread k s e =
      recv_after-NothingUnread (str server_data_req) s _ e
        (listen_round-IsAnswered write transmit utf8 delivers (clock k) (str server_data_req) s)

  on_response-NothingUnread :
      (next : Responses → HmtlServer → Option (Ended Responses) × HmtlServer) (got : Responses)
      → (out : Ended Value × HmtlServer)
      → ((got' : Responses) (s : HmtlServer) → s.sent ≡ [] → NothingUnread (next got' s))
      → NothingUnread out
      → NothingUnread (on_response write transmit utf8 clock next got out)
  unfolding on_response
  on_response-NothingUnread next got (returned v, s) h e =
      elim (Bool-cases (wants_more (decode v))) [
        | inl m ↦ rw m (h (add v got) s e)
        | inr m ↦ rw m e
      ]
  on_response-NothingUnread next got (failed x, s) h e = e
  on_response-NothingUnread next got (waits, s) h e = e

  response_loop-NothingUnread :
      (fuel k : ℕ) (got : Responses) (s : HmtlServer)
      → s.sent ≡ []
      → NothingUnread (response_loop write transmit utf8 clock fuel k got s)
  unfolding response_loop
  response_loop-NothingUnread zero k got s e = e
  response_loop-NothingUnread (suc fuel) k got s e =
      on_response-NothingUnread (response_loop write transmit utf8 clock fuel (k + 1)) got _
        (response_loop-NothingUnread fuel (k + 1)) (get_response_data-NothingUnread k s e)

  on_ack-NothingUnread :
      (expect : Bool) (k : ℕ) (out : Ended (Unit {0}) × HmtlServer)
      → NothingUnread out
      → NothingUnread (on_ack write transmit utf8 clock expect k out)
  unfolding on_ack
  on_ack-NothingUnread expect k (failed e, s) h = h
  on_ack-NothingUnread expect k (waits, s) h = h
  on_ack-NothingUnread false k (returned done, s) h = h
  on_ack-NothingUnread true k (returned done, s) h =
      response_loop-NothingUnread (suc (length s.ser.incoming)) (k + 1) no_responses s h

  -- A client and its server do not get out of step: where no reply was unread before `send_and_ack`,
  -- none is unread after it, however it ends, whether responses are expected or not; the message is
  -- not the request for data itself, and the connection takes what is sent.
  pub send_and_ack-NothingUnread :
      (k : ℕ) (msg : Value) (expect : Bool) (s : HmtlServer)
      → s.sent ≡ []
      → is_data_req msg ≡ false
      → NothingUnread (send_and_ack write transmit utf8 clock k msg expect s)
  unfolding send_and_ack
  send_and_ack-NothingUnread k msg expect s e d = on_ack-NothingUnread expect k _ (
      ack_after-NothingUnread msg s _ e d
        (listen_round-IsAnswered write transmit utf8 delivers (clock k) msg s))
