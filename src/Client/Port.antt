-- ===== src/Client/Port.antt =====
-- What the requests for data of python/hmtl/client.py leave in the serial port: nothing is written.
use hmtl.Prelude.{
  ℕ, zero, suc, ◌+◌, ◌≡◌, refl, ap, ◌∙◌, List, [], ◌∷◌, Bytes, Option, none, some, Option-cases,
  Bool, true, false, Bool-cases, inl, inr, if◌then◌else◌, Result, ok, err,
}
use hmtl.InputBuffer.{InputItem}
use hmtl.Serial.{Value, str, Poll, HmtlSerial, get_message}
use hmtl.Server.{
  HmtlServer, Ended, returned, failed, waits, Round, served, transmitted, reply, reply_sent,
  reply_item, recover, recovery, is_os_error, end_round, listen_round, handle_item, handle_msg,
  from_data, data_check, data_loop, leave_with, get_data_msg, server_ack, server_data_req,
}
use hmtl.Client.{
  recv, recv_after, get_response_data, Responses, add, decode, wants_more, on_response,
  response_loop,
}

abbrev SamePort : HmtlServer → Round × HmtlServer → Type 0
SamePort s out = out.1.ser ≡ s.ser

data_loop-written :
    (utf8 : Bytes → Bool) (limit : ℕ) (polls : List Poll) (s : HmtlSerial)
    → (data_loop utf8 limit polls s).1.written ≡ s.written
unfolding data_loop get_message leave_with
data_loop-written utf8 limit [] s = refl
data_loop-written utf8 limit (p ∷ ps) s =
    let s' : HmtlSerial = get_message p ps s in
    elim (Option-cases (data_check utf8 limit p.got p.checked_at)) [
      | inl n ↦ rw (n, data_loop) (data_loop-written utf8 limit ps s')
      | inr (out, e) ↦ rw (e, data_loop) refl
    ]

module _ (write transmit : Value → Result (Unit {0})) (utf8 : Bytes → Bool) where
  transmitted-ser :
      (v : Value) (done : Result (Unit {0})) (s : HmtlServer)
      → (transmitted write transmit utf8 v done s).1.ser ≡ s.ser
  unfolding transmitted
  transmitted-ser v (err e) s = refl
  transmitted-ser v (ok done) s = refl

  pub reply-ser : (v : Value) (s : HmtlServer) → (reply write transmit utf8 v s).1.ser ≡ s.ser
  unfolding reply
  reply-ser v s = transmitted-ser v (transmit v) s

  pub reply_sent-ser :
      (out : Ended (Unit {0}) × HmtlServer) → (reply_sent write transmit utf8 out).1.ser ≡ out.1.ser
  unfolding reply_sent
  reply_sent-ser (returned done, s) = reply-ser (str server_ack) s
  reply_sent-ser (failed e, s) = refl
  reply_sent-ser (waits, s) = refl

  recover_reply-ser :
      (replied : Bool) (v : Value) (s : HmtlServer)
      → SamePort s (if replied then (served, s) else (served, (reply write transmit utf8 v s).1))
  recover_reply-ser true v s = refl
  recover_reply-ser false v s = reply-ser v s

  pub end_round-ser :
      (request : Value) (out : Ended (Unit {0}) × HmtlServer)
      → (end_round write transmit utf8 request out).1.ser ≡ out.1.ser
  unfolding end_round recover
  end_round-ser request (returned done, s) = refl
  end_round-ser request (failed e, s) = elim (Bool-cases (is_os_error write transmit utf8 e)) [
    | inl o ↦ rw o refl
    | inr o ↦ rw o (recover_reply-ser s.replied (recovery write transmit utf8 request) s)
  ]
  end_round-ser request (waits, s) = refl

  reply_item-ser :
      (out : Ended (Option InputItem) × HmtlServer)
      → (reply_item write transmit utf8 out).1.ser ≡ out.1.ser
  unfolding reply_item
  reply_item-ser (returned none, s) = reply-ser Value.nothing s
  reply_item-ser (returned (some i), s) = reply-ser (Value.bytes i.bytes) s
  reply_item-ser (failed e, s) = refl
  reply_item-ser (waits, s) = refl

  module _ (clock : ℕ → ℕ) where
    recv_after-ser :
        (r : Round) (sent : List Value) (s : HmtlServer) → (recv r sent s).1.ser ≡ s.ser
    unfolding recv
    recv_after-ser r [] s = refl
    recv_after-ser r (v ∷ vs) s = refl

    get_response_data-written :
        (k : ℕ) (s : HmtlServer)
        → (get_response_data write transmit utf8 clock k s).1.ser.written ≡ s.ser.written
    unfolding get_response_data recv_after listen_round handle_item from_data handle_msg
        get_data_msg
    get_response_data-written k s =
        let s' : HmtlServer = record s { replied = false } in
        let out = get_data_msg utf8 (clock k) 1000 s' in
        let round =
          end_round write transmit utf8 (str server_data_req)
            (reply_item write transmit utf8 out) in
        ap (λ (p : HmtlSerial). p.written)
          (recv_after-ser round.0 round.1.sent round.1
            ∙ end_round-ser (str server_data_req) (reply_item write transmit utf8 out)
            ∙ reply_item-ser out)
        ∙ data_loop-written utf8 (clock k + 1000) s.ser.incoming s.ser

    on_response-written :
        (next : Responses → HmtlServer → Option (Ended Responses) × HmtlServer) (got : Responses)
        → (out : Ended Value × HmtlServer)
        → ((got' : Responses) (s : HmtlServer) → (next got' s).1.ser.written ≡ s.ser.written)
        → (on_response write transmit utf8 clock next got out).1.ser.written ≡ out.1.ser.written
    unfolding on_response
    on_response-written next got (returned v, s) h = elim (Bool-cases (wants_more (decode v))) [
      | inl m ↦ rw m (h (add v got) s)
      | inr m ↦ rw m refl
    ]
    on_response-written next got (failed e, s) h = refl
    on_response-written next got (waits, s) h = refl

    -- The requests for data write nothing to the serial port.
    pub response_loop-written :
        (fuel k : ℕ) (got : Responses) (s : HmtlServer)
        → (response_loop write transmit utf8 clock fuel k got s).1.ser.written ≡ s.ser.written
    unfolding response_loop
    response_loop-written zero k got s = refl
    response_loop-written (suc fuel) k got s =
        on_response-written (response_loop write transmit utf8 clock fuel (k + 1)) got
          (get_response_data write transmit utf8 clock k s) (response_loop-written fuel (k + 1))
        ∙ get_response_data-written k s
