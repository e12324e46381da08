-- ===== src/Serial/Sending.antt =====
-- `HMTLSerial.send_and_confirm` of python/hmtl/HMTLSerial.py: its writes, and then its loop.
use hmtl.Prelude.{
  ℕ, ◌≡◌, ◌⊎◌, inl, inr, refl, List, [], ◌∷◌, ◌++◌, none, Bool, true, false, All, if◌then◌else◌,
  Result, Result-cases, ok, err, Error, append_assoc,
}
use hmtl.Serial.{
  Value, HmtlSerial, Confirmed, raised, blocked, send, send_terminated, await, send_and_confirm,
  bytes, terminator,
}
use hmtl.Serial.Confirm.{
  IsVerdict, confirm_loop-IsVerdict, confirm_loop_written, confirm_loop_silent,
}

-- What is written, for good.
abbrev pub all_written : Value → Bool → List Value
all_written v terminated = v ∷ (if terminated then bytes terminator ∷ [] else [])

module _ (write : Value → Result (Unit {0})) where
  abbrev pub IsRefused : Value → Bool → Error → Type 0
  IsRefused v terminated e =
      (write v ≡ err e) ⊎ ((terminated ≡ true) × (write (bytes terminator) ≡ err e))

  -- A write raises, and then that is raised; or all is written, and what comes in decides.
  abbrev pub IsAnswered : ℕ → ℕ → Value → Bool → HmtlSerial → Confirmed × HmtlSerial → Type 0
  IsAnswered start timeout v terminated s out =
      ((e : Error) × IsRefused v terminated e × (out.0 ≡ raised e))
      ⊎ ((out.1.written ≡ s.written ++ all_written v terminated)
          × IsVerdict start timeout s.incoming out)

  send-ok :
      (v : Value) (s : HmtlSerial)
      → write v ≡ ok tt
      → send write v s ≡ (ok tt, record s { written = s.written ++ (v ∷ []) })
  unfolding send
  send-ok v s w = rw w refl

  send-err :
      (v : Value) (s : HmtlSerial) (e : Error) → write v ≡ err e → send write v s ≡ (err e, s)
  unfolding send
  send-err v s e w = rw w refl

  send_terminated-cases :
      (v : Value) (terminated : Bool) (s : HmtlSerial)
      → ((e : Error) × IsRefused v terminated e
          × ((send_terminated write v terminated s).0 ≡ err e))
        ⊎ (send_terminated write v terminated s
            ≡ (ok tt, record s { written = s.written ++ all_written v terminated }))
  unfolding send_terminated
  send_terminated-cases v false s = elim (Result-cases (write v)) [
    | inr (e, w) ↦ inl (e, inl w, rw (send-err v s e w) refl)
    | inl (done, w) ↦ inr (rw (send-ok v s w) refl)
  ]
  send_terminated-cases v true s = elim (Result-cases (write v)) [
    | inr (e, w) ↦ inl (e, inl w, rw (send-err v s e w) refl)
    | inl (done, w) ↦
        let s' : HmtlSerial = record s { written = s.written ++ (v ∷ []) } in
        elim (Result-cases (write (bytes terminator))) [
          | inr (e, t) ↦
              inl (e, inr (refl, t), rw (send-ok v s w, send-err (bytes terminator) s' e t) refl)
          | inl (done', t) ↦ inr (
              rw
                (
                  send-ok v s w,
                  send-ok (bytes terminator) s' t,
                  append_assoc s.written (v ∷ []) (bytes terminator ∷ []),
                )
                refl)
        ]
  ]

  await-err :
      (start timeout : ℕ) (e : Error) (sent : Result (Unit {0}) × HmtlSerial)
      → sent.0 ≡ err e
      → (await write start timeout sent).0 ≡ raised e
  unfolding await
  await-err start timeout e (err x, s) h = cc
  await-err start timeout e (ok done, s) h = cc

  -- Sending with a confirmation either raises what a write raises; or it has written the data, with
  -- the terminator where that is asked for, and the first poll that brings an item which is the
  -- acknowledgement, or the refusal, or late, ends it so, while without one it never returns.
  pub send_and_confirm-IsAnswered :
      (start timeout : ℕ) (v : Value) (terminated : Bool) (s : HmtlSerial)
      → IsAnswered start timeout v terminated s
          (send_and_confirm write start timeout v terminated s)
  unfolding send_and_confirm await
  send_and_confirm-IsAnswered start timeout v terminated s =
      elim (send_terminated-cases v terminated s) [
        | inl (e, refused, r) ↦ inl (e, refused, await-err start timeout e _ r)
        | inr r ↦
            let s' : HmtlSerial = record s { written = s.written ++ all_written v terminated } in
            rw r (
              inr (
                confirm_loop_written start timeout s.incoming s',
                confirm_loop-IsVerdict start timeout s.incoming s',
              ))
      ]

  -- Data that the port takes, sent with a confirmation and without the terminator to a module that
  -- answers nothing at all: the call never returns, however late it gets, since the time-out is not
  -- looked at.
  pub send_and_confirm_silent :
      (start timeout : ℕ) (v : Value) (s : HmtlSerial)
      → write v ≡ ok tt
      → All (λ p. p.got ≡ none) s.incoming
      → (send_and_confirm write start timeout v false s).0 ≡ blocked
  unfolding send_and_confirm await send_terminated
  send_and_confirm_silent start timeout v s w h =
      rw (send-ok v s w) (confirm_loop_silent start timeout s.incoming _ h)
