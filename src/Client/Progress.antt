-- ===== src/Client/Progress.antt =====
-- The loop of `send_and_ack` of python/hmtl/client.py that asks for more responses.
use hmtl.Prelude.{
  ℕ, zero, suc, ◌+◌, ◌<◌, ◌≤◌, if◌then◌else◌, ◌≡◌, ◌≢◌, ◌⊎◌, inl, inr, refl, List, [], ◌∷◌, Bytes,
  Option, none, some, Option-cases, Bool, true, false, Bool-cases, Result, ok, length, arith,
}
use hmtl.InputBuffer.{InputItem}
use hmtl.Serial.{Value, bytes, str, nothing, Poll, HmtlSerial, get_message}
use hmtl.Server.{
  HmtlServer, Ended, returned, failed, waits, listen_round, data_check, data_loop, get_data_msg,
  leave_with, is_os_error, end_round, recover, reply, reply_item, recovery, handle_item, handle_msg,
  from_data, server_data_req, data_timeout,
}
use hmtl.Server.Rounds.{is_data_req, listen_round-IsAnswered}
use hmtl.Client.Session.{get_response_data-NothingUnread, ack_after-NothingUnread}
use hmtl.Client.{
  dry, recv, Responses, wants_more, decode, add, recv_after, get_response_data, on_response,
  response_loop, on_ack, send_and_ack, no_responses, some_responses,
}

abbrev message_count : Option InputItem → ℕ
message_count none = 0
message_count (some i) = if i.is_hmtl then 1 else 0

-- The polls that bring a message.
abbrev pub messages : List Poll → ℕ
messages [] = 0
messages (p ∷ ps) = message_count p.got + messages ps

messages-length : (ps : List Poll) → messages ps ≤ length ps
messages-length [] = omega arith
messages-length (p ∷ ps) = count-le p.got (messages ps) (length ps) (messages-length ps)
  where
    count-le : (got : Option InputItem) (m n : ℕ) → m ≤ n → message_count got + m ≤ suc n
    count-le none m n h = omega arith
    count-le (some i) m n h = elim (Bool-cases i.is_hmtl) [
      | inl t ↦ rw t (omega arith)
      | inr f ↦ rw f (omega arith)
    ]

-- An item that the loop of `get_data_msg` returns is a message of the polls.
abbrev Takes : ℕ → Ended (Option InputItem) × HmtlSerial → Type 0
Takes n (returned (some i), s) = messages s.incoming < n
Takes n (returned none, s) = Unit
Takes n (failed e, s) = Unit
Takes n (waits, s) = Unit

Takes-later :
    (m n : ℕ) (out : Ended (Option InputItem) × HmtlSerial) → m ≤ n → Takes m out → Takes n out
Takes-later m n (returned (some i), s) le h = omega arith
Takes-later m n (returned none, s) le h = tt
Takes-later m n (failed e, s) le h = tt
Takes-later m n (waits, s) le h = tt

data_check-message_count :
    (utf8 : Bytes → Bool) (limit now : ℕ) (got : Option InputItem) (i : InputItem)
    → data_check utf8 limit got now ≡ some (returned (some i))
    → message_count got ≡ 1
unfolding data_check
data_check-message_count utf8 limit now none i e = ground arith
data_check-message_count utf8 limit now (some j) i e = elim (Bool-cases j.is_hmtl) [
  | inl t ↦ rw t refl
  | inr f ↦ absurd (ground arith)
]

Takes-now :
    (utf8 : Bytes → Bool) (limit : ℕ) (p : Poll) (out : Ended (Option InputItem)) (s : HmtlSerial)
    → data_check utf8 limit p.got p.checked_at ≡ some out
    → Takes (message_count p.got + messages s.incoming) (out, s)
Takes-now utf8 limit p (returned (some i)) s e =
    let one = data_check-message_count utf8 limit p.checked_at p.got i e in omega arith
Takes-now utf8 limit p (returned none) s e = tt
Takes-now utf8 limit p (failed x) s e = tt
Takes-now utf8 limit p waits s e = tt

data_loop-Takes :
    (utf8 : Bytes → Bool) (limit : ℕ) (polls : List Poll) (s : HmtlSerial)
    → Takes (messages polls) (data_loop utf8 limit polls s)
unfolding data_loop get_message leave_with
data_loop-Takes utf8 limit [] s = tt
data_loop-Takes utf8 limit (p ∷ ps) s =
    let s' : HmtlSerial = get_message p ps s in
    elim (Option-cases (data_check utf8 limit p.got p.checked_at)) [
      | inl n ↦
          rw (n, data_loop)
            (Takes-later (messages ps) (messages (p ∷ ps)) _ (omega arith)
              (data_loop-Takes utf8 limit ps s'))
      | inr (out, e) ↦ rw (e, data_loop) (Takes-now utf8 limit p out s' e)
    ]

-- A response after which more are asked for left fewer than `n` messages.
abbrev Shrinks : ℕ → Ended Value × HmtlServer → Type 0
Shrinks n (returned v, s) = (wants_more (decode v) ≡ false) ⊎ (messages s.ser.incoming < n)
Shrinks n (failed e, s) = Unit
Shrinks n (waits, s) = Unit

some_responses-Finishes : (out : Option (Ended Responses)) → out ≢ none → some_responses out ≢ none
unfolding some_responses
some_responses-Finishes none h = λ x. h refl
some_responses-Finishes (some (returned got)) h = λ x. cc
some_responses-Finishes (some (failed e)) h = λ x. cc
some_responses-Finishes (some waits) h = λ x. cc

module _ (write transmit : Value → Result (Unit {0})) (utf8 : Bytes → Bool) (clock : ℕ → ℕ)
    (delivers : (v : Value) → transmit v ≡ ok tt) where
  -- `s` is the state in which the server has what `get_data_msg` returned.
  abbrev pub answer : Ended (Option InputItem) × HmtlServer → Ended Value × HmtlServer
  answer out =
      recv_after write transmit utf8 clock
        (end_round write transmit utf8 (str server_data_req) (reply_item write transmit utf8 out))

  answer-Shrinks :
      (n : ℕ) (out : Ended (Option InputItem)) (s : HmtlServer)
      → s.sent ≡ []
      → s.replied ≡ false
      → Takes n (out, s.ser)
      → Shrinks n (answer (out, s))
  unfolding recv_after recv end_round reply_item reply recover recovery dry wants_more decode
  answer-Shrinks n (returned (some i)) s e r t = rw (delivers (bytes i.bytes), e) (inr t)
  answer-Shrinks n (returned none) s e r t = rw (delivers nothing, e) (inl refl)
  answer-Shrinks n (failed x) s e r t = elim (Bool-cases (is_os_error write transmit utf8 x)) [
    | inl o ↦ rw (o, e) tt
    | inr o ↦ rw (o, r, delivers nothing, e) (inl refl)
  ]
  answer-Shrinks n waits s e r t = rw e tt

  get_response_data-Shrinks :
      (k : ℕ) (s : HmtlServer)
      → s.sent ≡ []
      → Shrinks (messages s.ser.incoming) (get_response_data write transmit utf8 clock k s)
  unfolding get_response_data listen_round handle_item from_data handle_msg get_data_msg
  get_response_data-Shrinks k s e =
      let polls : List Poll = s.ser.incoming in
      let limit : ℕ = clock k + data_timeout in
      let (out, ser) = data_loop utf8 limit polls s.ser in
      answer-Shrinks (messages polls) out (record s { replied = false; ser = ser }) e refl
        (data_loop-Takes utf8 limit polls s.ser)

  on_response-Finishes :
      (next : Responses → HmtlServer → Option (Ended Responses) × HmtlServer) (got : Responses)
      → (n : ℕ) (out : Ended Value × HmtlServer)
      → ((got' : Responses) (s : HmtlServer)
          → s.sent ≡ []
          → messages s.ser.incoming < n
          → (next got' s).0 ≢ none)
      → out.1.sent ≡ []
      → Shrinks n out
      → (on_response write transmit utf8 clock next got out).0 ≢ none
  unfolding on_response
  on_response-Finishes next got n (returned v, s) h e (inl q) = rw q (λ x. cc)
  on_response-Finishes next got n (returned v, s) h e (inr q) =
      elim (Bool-cases (wants_more (decode v))) [
        | inl m ↦ rw m (h (add v got) s e q)
        | inr m ↦ rw m (λ x. cc)
      ]
  on_response-Finishes next got n (failed x, s) h e q = λ y. cc
  on_response-Finishes next got n (waits, s) h e q = λ y. cc

  -- The loop that asks for more responses ends, and asks at most once more than the module's
  -- messages are in the polls at hand: with any fuel above their number it does not run out of
  -- it. No reply is unread before, and the connection takes what is sent.
  pub response_loop-Finishes :
      (fuel k : ℕ) (got : Responses) (s : HmtlServer)
      → s.sent ≡ []
      → messages s.ser.incoming < fuel
      → (response_loop write transmit utf8 clock fuel k got s).0 ≢ none
  unfolding response_loop
  response_loop-Finishes zero k got s e h = absurd (omega arith)
  response_loop-Finishes (suc fuel) k got s e h =
      on_response-Finishes (response_loop write transmit utf8 clock fuel (k + 1)) got
        (messages s.ser.incoming) (get_response_data write transmit utf8 clock k s)
        (λ got' s' e' h'. response_loop-Finishes fuel (k + 1) got' s' e' (omega arith))
        (get_response_data-NothingUnread write transmit utf8 clock delivers k s e)
        (get_response_data-Shrinks k s e)

  on_ack-Finishes :
      (expect : Bool) (k : ℕ) (out : Ended (Unit {0}) × HmtlServer)
      → out.1.sent ≡ []
      → (on_ack write transmit utf8 clock expect k out).0 ≢ none
  unfolding on_ack
  on_ack-Finishes expect k (failed x, s) e = λ y. cc
  on_ack-Finishes expect k (waits, s) e = λ y. cc
  on_ack-Finishes false k (returned done, s) e = λ y. cc
  on_ack-Finishes true k (returned done, s) e = some_responses-Finishes _ (
      response_loop-Finishes (suc (length s.ser.incoming)) (k + 1) no_responses s e
        (omega (arith, messages-length s.ser.incoming)))

  -- The loop that asks for more responses ends: where no reply was unread before, `send_and_ack` does
  -- not run out of its fuel, one more than the polls at hand; the message is not the request for
  -- data itself, and the connection takes what is sent.
  pub send_and_ack-Finishes :
      (k : ℕ) (msg : Value) (expect : Bool) (s : HmtlServer)
      → s.sent ≡ []
      → is_data_req msg ≡ false
      → (send_and_ack write transmit utf8 clock k msg expect s).0 ≢ none
  unfolding send_and_ack
  send_and_ack-Finishes k msg expect s e d = on_ack-Finishes expect k _ (
      ack_after-NothingUnread write transmit utf8 clock delivers msg s _ e d
        (listen_round-IsAnswered write transmit utf8 delivers (clock k) msg s))
