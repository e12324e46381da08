-- ===== src/Serial/Confirm.antt =====
-- The loop of `HMTLSerial.send_and_confirm` of python/hmtl/HMTLSerial.py against what comes in.
use hmtl.Prelude.{
  ℕ, ◌+◌, ◌≡◌, ◌≢◌, ◌⊎◌, inl, inr, refl, ap, List, [], ◌∷◌, ◌++◌, Option, none, some, true, false,
  All, Option-cases, arith, ltb, Error,
}
use hmtl.InputBuffer.{InputItem}
use hmtl.Serial.{
  Poll, HmtlSerial, config_ack, config_fail, get_message, says, late, Confirmed, confirmed, raised,
  blocked, confirm_loop, confirm_check,
}

-- A poll that does not end the loop: nothing, or in time an item that is no answer.
abbrev pub IsPassed : ℕ → ℕ → Poll → Type 0
IsPassed start timeout p =
    (p.got ≡ none)
    ⊎ ((says config_ack p.got ≡ false)
        × (says config_fail p.got ≡ false)
        × (late start timeout p ≡ false))

-- What the item and the clock are like that end the loop so.
abbrev pub Decides : ℕ → ℕ → Option InputItem → ℕ → Confirmed → Type 0
Decides start timeout got now confirmed = says config_ack got ≡ true
Decides start timeout got now (raised e) =
    (says config_ack got ≡ false)
    × (((e ≡ Error.config_exception) × (says config_fail got ≡ true))
        ⊎ ((e ≡ Error.exception)
            × (says config_fail got ≡ false)
            × (got ≢ none)
            × (ltb (start + timeout) now ≡ true)))
Decides start timeout got now blocked = ⊥

abbrev pub IsFirst : (Poll → Type 0) → (Poll → Type 0) → List Poll → List Poll → Type 0
IsFirst Passed Ends polls after =
    (before : List Poll) × (p : Poll) × (polls ≡ before ++ (p ∷ after)) × All Passed before × Ends p

-- The first poll that brings an answer, or brings anything at all too late, decides.
abbrev pub IsVerdict : ℕ → ℕ → List Poll → Confirmed × HmtlSerial → Type 0
IsVerdict start timeout polls (confirmed, s) =
    IsFirst (IsPassed start timeout) (λ p. Decides start timeout p.got p.checked_at confirmed) polls
      s.incoming
IsVerdict start timeout polls (raised e, s) =
    IsFirst (IsPassed start timeout) (λ p. Decides start timeout p.got p.checked_at (raised e))
      polls s.incoming
IsVerdict start timeout polls (blocked, s) = All (IsPassed start timeout) polls × (s.incoming ≡ [])

IsFirst-later :
    (Passed Ends : Poll → Type 0) (p : Poll) (polls after : List Poll)
    → Passed p
    → IsFirst Passed Ends polls after
    → IsFirst Passed Ends (p ∷ polls) after
IsFirst-later Passed Ends p polls after h (before, q, e, all, ends) =
    (p ∷ before, q, ap (λ (l : List Poll). p ∷ l) e, (h, all), ends)

IsVerdict-later :
    (start timeout : ℕ) (p : Poll) (ps : List Poll) (out : Confirmed × HmtlSerial)
    → IsPassed start timeout p
    → IsVerdict start timeout ps out
    → IsVerdict start timeout (p ∷ ps) out
IsVerdict-later start timeout p ps (confirmed, s) g v = IsFirst-later _ _ p ps s.incoming g v
IsVerdict-later start timeout p ps (raised e, s) g v = IsFirst-later _ _ p ps s.incoming g v
IsVerdict-later start timeout p ps (blocked, s) g (all, e) = ((g, all), e)

check-none :
    (start timeout : ℕ) (got : Option InputItem) (now : ℕ)
    → confirm_check start timeout got now ≡ none
    → (got ≡ none)
      ⊎ ((says config_ack got ≡ false)
          × (says config_fail got ≡ false)
          × (ltb (start + timeout) now ≡ false))
unfolding confirm_check
check-none start timeout none now h = inl refl
check-none start timeout (some i) now h = inr (ground arith)

check-some :
    (start timeout : ℕ) (got : Option InputItem) (now : ℕ) (out : Confirmed)
    → confirm_check start timeout got now ≡ some out
    → Decides start timeout got now out
unfolding confirm_check
check-some start timeout none now out h = cc
check-some start timeout (some i) now confirmed h = ground arith
check-some start timeout (some i) now blocked h = ground arith
check-some start timeout (some i) now (raised e) h = ground arith

IsVerdict-now :
    (start timeout : ℕ) (p : Poll) (ps : List Poll) (s : HmtlSerial) (out : Confirmed)
    → Decides start timeout p.got p.checked_at out
    → s.incoming ≡ ps
    → IsVerdict start timeout (p ∷ ps) (out, s)
IsVerdict-now start timeout p ps s confirmed d e = ([], p, rw e refl, tt, d)
IsVerdict-now start timeout p ps s (raised x) d e = ([], p, rw e refl, tt, d)
IsVerdict-now start timeout p ps s blocked d e = absurd d

pub confirm_loop-IsVerdict :
    (start timeout : ℕ) (polls : List Poll) (s : HmtlSerial)
    → IsVerdict start timeout polls (confirm_loop start timeout polls s)
unfolding confirm_loop get_message
confirm_loop-IsVerdict start timeout [] s = (tt, refl)
confirm_loop-IsVerdict start timeout (p ∷ ps) s =
    let s' : HmtlSerial = get_message p ps s in
    elim (Option-cases (confirm_check start timeout p.got p.checked_at)) [
      | inl n ↦
          rw (n, confirm_loop)
            (IsVerdict-later start timeout p ps _ (check-none start timeout p.got p.checked_at n)
              (confirm_loop-IsVerdict start timeout ps s'))
      | inr (out, e) ↦
          rw (e, confirm_loop)
            (IsVerdict-now start timeout p ps s' out
              (check-some start timeout p.got p.checked_at out e) refl)
    ]

pub confirm_loop_written :
    (start timeout : ℕ) (polls : List Poll) (s : HmtlSerial)
    → (confirm_loop start timeout polls s).1.written ≡ s.written
unfolding confirm_loop get_message
confirm_loop_written start timeout [] s = refl
confirm_loop_written start timeout (p ∷ ps) s =
    elim (Option-cases (confirm_check start timeout p.got p.checked_at)) [
      | inl n ↦ rw (n, confirm_loop) (confirm_loop_written start timeout ps (get_message p ps s))
      | inr (out, e) ↦ rw (e, confirm_loop) refl
    ]

pub confirm_loop_silent :
    (start timeout : ℕ) (polls : List Poll) (s : HmtlSerial)
    → All (λ p. p.got ≡ none) polls
    → (confirm_loop start timeout polls s).0 ≡ blocked
unfolding confirm_loop get_message confirm_check
confirm_loop_silent start timeout [] s h = refl
confirm_loop_silent start timeout (p ∷ ps) s (n, h) =
    let c : confirm_check start timeout p.got p.checked_at ≡ none = rw n refl in
    rw (c, confirm_loop) (confirm_loop_silent start timeout ps (get_message p ps s) h)
