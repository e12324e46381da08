-- ===== src/Serial/Ready.antt =====
-- `HMTLSerial.wait_for_ready` of python/hmtl/HMTLSerial.py against the polls that it makes.
use hmtl.Prelude.{
  ℕ, ◌≡◌, ◌≢◌, ◌∙◌, inl, inr, refl, sym, ap, List, [], ◌∷◌, ◌++◌, Option, none, some, true, false,
  All, last_n, last_n-last_n, append_assoc, append-nil, Bool-cases,
}
use hmtl.InputBuffer.{InputItem}
use hmtl.Serial.{
  Poll, HmtlSerial, config_ready, max_ready_wait, timeout_context_lines, get_message, says,
  remember, late, Waited, ready, timed_out, waiting, ready_loop, wait_for_ready,
}

-- What a list of polls brought.
abbrev with_item : Option InputItem → List InputItem → List InputItem
with_item none later = later
with_item (some i) later = i ∷ later

abbrev pub items : List Poll → List InputItem
items [] = []
items (p ∷ ps) = with_item p.got (items ps)

-- Neither ready nor late.
abbrev pub GoesOn : ℕ → Poll → Type 0
GoesOn start p = (says config_ready p.got ≡ false) × (late start max_ready_wait p ≡ false)

-- The first poll that brings `ready` or is late decides, and all behind it is left alone; the text
-- of a time-out quotes the last five items of all that came.
abbrev pub IsVerdict : ℕ → List InputItem → List Poll → Waited × HmtlSerial → Type 0
IsVerdict start seen polls (ready, s) =
    (before : List Poll) × (p : Poll) × (polls ≡ before ++ (p ∷ s.incoming))
    × All (GoesOn start) before
    × (says config_ready p.got ≡ true)
IsVerdict start seen polls (timed_out quoted, s) =
    (before : List Poll) × (p : Poll) × (polls ≡ before ++ (p ∷ s.incoming))
    × All (GoesOn start) before
    × (says config_ready p.got ≡ false)
    × (late start max_ready_wait p ≡ true)
    × (quoted ≡ last_n timeout_context_lines (seen ++ items (before ++ (p ∷ []))))
IsVerdict start seen polls (waiting, s) = All (GoesOn start) polls × (s.incoming ≡ [])

abbrev IsTrimmed : List InputItem → Type 0
IsTrimmed seen = last_n timeout_context_lines seen ≡ seen

last_n-remember :
    (got : Option InputItem) (seen later : List InputItem)
    → last_n timeout_context_lines (remember got seen ++ later)
      ≡ last_n timeout_context_lines (seen ++ with_item got later)
unfolding remember
last_n-remember none seen later = refl
last_n-remember (some i) seen later =
    last_n-last_n timeout_context_lines (seen ++ (i ∷ [])) later
    ∙ ap (λ (l : List InputItem). last_n timeout_context_lines l) (append_assoc seen (i ∷ []) later)

remember-IsTrimmed :
    (got : Option InputItem) (seen : List InputItem)
    → IsTrimmed seen
    → IsTrimmed (remember got seen)
unfolding remember
remember-IsTrimmed none seen h = h
remember-IsTrimmed (some i) seen h =
    let xs : List InputItem = seen ++ (i ∷ []) in
    let last : List InputItem → List InputItem = λ l. last_n timeout_context_lines l in
    sym (ap last (append-nil (last xs)))
    ∙ last_n-last_n timeout_context_lines xs []
    ∙ ap last (append-nil xs)

quoted-remember :
    (got : Option InputItem) (seen : List InputItem)
    → IsTrimmed seen
    → remember got seen ≡ last_n timeout_context_lines (seen ++ with_item got [])
quoted-remember got seen h =
    sym (remember-IsTrimmed got seen h)
    ∙ ap (λ (l : List InputItem). last_n timeout_context_lines l)
        (sym (append-nil (remember got seen)))
    ∙ last_n-remember got seen []

IsVerdict-later :
    (start : ℕ) (seen : List InputItem) (p : Poll) (ps : List Poll) (out : Waited × HmtlSerial)
    → GoesOn start p
    → IsVerdict start (remember p.got seen) ps out
    → IsVerdict start seen (p ∷ ps) out
IsVerdict-later start seen p ps (ready, s) g (before, q, e, all, r) =
    (p ∷ before, q, ap (λ (l : List Poll). p ∷ l) e, (g, all), r)
IsVerdict-later start seen p ps (timed_out quoted, s) g (before, q, e, all, r, l, c) = (
  p ∷ before,
  q,
  ap (λ (l : List Poll). p ∷ l) e,
  (g, all),
  r,
  l,
  c ∙ last_n-remember p.got seen (items (before ++ (q ∷ []))),
)
IsVerdict-later start seen p ps (waiting, s) g (all, e) = ((g, all), e)

ready_loop-IsVerdict :
    (start : ℕ) (seen : List InputItem) (polls : List Poll) (s : HmtlSerial)
    → IsTrimmed seen
    → IsVerdict start seen polls (ready_loop start seen polls s)
unfolding ready_loop get_message
ready_loop-IsVerdict start seen [] s h = (tt, refl)
ready_loop-IsVerdict start seen (p ∷ ps) s h = elim (Bool-cases (says config_ready p.got)) [
  | inl r ↦ rw r ([], p, refl, tt, r)
  | inr r ↦ elim (Bool-cases (late start max_ready_wait p)) [
    | inl l ↦ rw (r, l) ([], p, refl, tt, r, l, quoted-remember p.got seen h)
    | inr l ↦
        rw (r, l)
          (IsVerdict-later start seen p ps _ (r, l)
            (ready_loop-IsVerdict start (remember p.got seen) ps (get_message p ps s)
              (remember-IsTrimmed p.got seen h)))
  ]
]

-- Waiting for `ready` ends at the first poll that brings it, or else at the first that is late,
-- with the last five items of all that came as context; before either it goes on.
pub wait_for_ready-IsVerdict :
    (start : ℕ) (s : HmtlSerial) → IsVerdict start [] s.incoming (wait_for_ready start s)
unfolding wait_for_ready
wait_for_ready-IsVerdict start s = ready_loop-IsVerdict start [] s.incoming s refl

late-not-All :
    (start : ℕ) (before : List Poll) (p : Poll) (after : List Poll)
    → late start max_ready_wait p ≡ true
    → ¬ All (GoesOn start) (before ++ (p ∷ after))
late-not-All start [] p after l (g, all) = cc
late-not-All start (q ∷ before) p after l (g, all) = late-not-All start before p after l all

ends-IsVerdict :
    (start : ℕ) (polls before : List Poll) (p : Poll) (after : List Poll)
    → (out : Waited × HmtlSerial) → polls ≡ before ++ (p ∷ after)
    → late start max_ready_wait p ≡ true
    → IsVerdict start [] polls out
    → out.0 ≢ waiting
ends-IsVerdict start polls before p after (ready, s) e l v = λ h. cc
ends-IsVerdict start polls before p after (timed_out quoted, s) e l v = λ h. cc
ends-IsVerdict start polls before p after (waiting, s) e l (all, _) =
    absurd (late-not-All start before p after l (rw (← e) all))

-- Waiting for `ready` ends once a poll is made more than fourteen seconds after it began, whatever
-- the polls bring.
pub wait_for_ready-ends :
    (start : ℕ) (s : HmtlSerial) (before : List Poll) (p : Poll) (after : List Poll)
    → s.incoming ≡ before ++ (p ∷ after)
    → late start max_ready_wait p ≡ true
    → (wait_for_ready start s).0 ≢ waiting
wait_for_ready-ends start s before p after e l =
    ends-IsVerdict start s.incoming before p after (wait_for_ready start s) e l
      (wait_for_ready-IsVerdict start s)
