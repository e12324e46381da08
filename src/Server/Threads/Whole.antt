-- ===== src/Server/Threads/Whole.antt =====
-- The calls of python/hmtl/server.py on the serial port in one piece, and what is left of them
-- behind a step.
use hmtl.Prelude.{
  ℕ, ◌+◌, ◌≡◌, inl, inr, refl, ap, List, [], ◌∷◌, ◌++◌, Bytes, Option-cases, none, some, Bool,
  Result, ok, err, Error,
}
use hmtl.Serial.{
  Value, Poll, HmtlSerial, get_message, confirm_check, confirm_loop, send_and_confirm, send,
  send_terminated, await,
}
use hmtl.Server.{HmtlServer, failed, of_confirmed, data_check, data_loop, send_data, get_data_msg}
use hmtl.Server.Threads.{
  Job, send_call, data_call, Outcome, sent, asked, Loop, confirming, asking, check,
}

module _ (write transmit : Value → Result (Unit {0})) (utf8 : Bytes → Bool)
    (base : HmtlServer) where
  -- A call from its beginning to its end, with nothing between: `send_data` or `get_data_msg` on
  -- the server whose port is `ser`.
  abbrev pub perform : Job → ℕ → HmtlSerial → Outcome × HmtlSerial
  perform (send_call v) start ser =
      let out = send_data write transmit utf8 start v (record base { ser = ser }) in
      (sent out.0, out.1.ser)
  perform (data_call timeout) start ser =
      let out = get_data_msg utf8 start timeout (record base { ser = ser }) in
      (asked out.0, out.1.ser)

  -- What is left of a call in its loop.
  abbrev pub finish : Loop → HmtlSerial → Outcome × HmtlSerial
  finish (confirming v start) ser =
      let out = confirm_loop start 10000 ser.incoming ser in (sent (of_confirmed out.0), out.1)
  finish (asking timeout start) ser =
      let out = data_loop utf8 (start + timeout) ser.incoming ser in (asked out.0, out.1)

  pub perform-written :
      (v : Value) (start : ℕ) (ser : HmtlSerial)
      → write v ≡ ok tt
      → perform (send_call v) start ser
        ≡ finish (confirming v start) (record ser { written = ser.written ++ (v ∷ []) })
  unfolding send_data send_and_confirm await send_terminated send
  perform-written v start ser e = rw e refl

  pub perform-refused :
      (v : Value) (start : ℕ) (e : Error) (ser : HmtlSerial)
      → write v ≡ err e
      → perform (send_call v) start ser ≡ (sent (failed e), ser)
  unfolding send_data send_and_confirm await send_terminated send of_confirmed
  perform-refused v start e ser w = rw w refl

  pub finish-again :
      (l : Loop) (p : Poll) (ps : List Poll) (ser : HmtlSerial)
      → ser.incoming ≡ p ∷ ps
      → check utf8 l p ≡ none
      → finish l ser ≡ finish l (get_message p ps ser)
  unfolding check get_message confirm_loop data_loop
  finish-again (confirming v start) p ps ser i e =
      elim (Option-cases (confirm_check start 10000 p.got p.checked_at)) [
        | inl n ↦ rw i (rw n refl)
        | inr (c, m) ↦ absurd (cc)
      ]
  finish-again (asking timeout start) p ps ser i e =
      elim (Option-cases (data_check utf8 (start + timeout) p.got p.checked_at)) [
        | inl n ↦ rw i (rw n refl)
        | inr (c, m) ↦ absurd (cc)
      ]

  pub finish-leaves :
      (l : Loop) (out : Outcome) (p : Poll) (ps : List Poll) (ser : HmtlSerial)
      → ser.incoming ≡ p ∷ ps
      → check utf8 l p ≡ some out
      → finish l ser ≡ (out, get_message p ps ser)
  unfolding check get_message confirm_loop data_loop
  finish-leaves (confirming v start) out p ps ser i e =
      elim (Option-cases (confirm_check start 10000 p.got p.checked_at)) [
        | inl n ↦ absurd (cc)
        | inr (c, m) ↦
            let same : sent (of_confirmed c) ≡ out = cc in
            rw i (rw m (ap (λ (o : Outcome). (o, get_message p ps ser)) same))
      ]
  finish-leaves (asking timeout start) out p ps ser i e =
      elim (Option-cases (data_check utf8 (start + timeout) p.got p.checked_at)) [
        | inl n ↦ absurd (cc)
        | inr (c, m) ↦
            let same : asked c ≡ out = cc in
            rw i (rw m (ap (λ (o : Outcome). (o, get_message p ps ser)) same))
      ]
