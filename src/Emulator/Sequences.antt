-- ===== src/Emulator/Sequences.antt =====
-- `SequenceProgram.tick` on the list of all outputs.
use hmtl.Prelude.{
  ℕ, zero, suc, ◌+◌, ◌%◌, ◌<◌, ◌≤◌, ◌≡◌, refl, List, [], ◌∷◌, length, length-set, none, some, Bool,
  true, false, get_elem?, set, get_elem?-lt, All, ok, err, arith, Option-cases, ◌∙◌, inl, inr,
}
use native.Mathlib.Nat.{mod-lt}
use native.Mathlib.Decide.{dec_lt}
use hmtl.Emulator.Outputs.{Output, Rgb, set_rgb}
use hmtl.Protocol.Programs.{SeqStep}
use hmtl.Emulator.Programs.{
  Sequence, Target, many, Ticked, sequence_tick, begin_step, next_step, set_at, set_indexed,
}

-- A step that is on an output of the first `n`.
abbrev pub IsOn : ℕ → SeqStep → Type 0
IsOn n (i, duration, value) = i < n

-- A sequence that can run on `n` outputs.
pub record IsRunnable (n : ℕ) (p : Sequence) : Type 0 where
  pub steps_on : All (IsOn n) p.steps
  pub current_in : p.current < length p.steps

-- A tick that raised nothing: the program and the outputs behind it.
pub record Ran (p : Sequence) (os : List Output) (r : Ticked Sequence) : Type 0 where
  pub changed : Bool
  pub after : Sequence
  pub lit : List Output
  pub ran : r ≡ (ok changed, after, many lit)
  pub same_steps : after.steps ≡ p.steps
  pub current_in : after.current < length p.steps
  pub same_length : length lit ≡ length os

All-get_elem? :
    (n : ℕ) (ss : List SeqStep) (i : ℕ)
    → All (IsOn n) ss
    → i < length ss
    → (s : SeqStep) × (get_elem? ss i ≡ some s) × IsOn n s
All-get_elem? n [] i h room = absurd (omega arith)
All-get_elem? n (s ∷ ss) zero h room = (s, refl, h.0)
All-get_elem? n (s ∷ ss) (suc i) h room = All-get_elem? n ss i h.1 (omega arith)

-- In range, `outputs[i].set_rgb` writes that output.
set_at_in :
    (i : ℕ) (c : Rgb) (os : List Output)
    → i < length os
    → (o : Output) × (set_at i c (many os) ≡ ok (many (set os i (set_rgb c o))))
unfolding set_at set_indexed
set_at_in i c os room = let (o, e) = get_elem?-lt os i room in (o, rw (e, set_indexed) refl)

begin_step-Ran :
    (now i : ℕ) (p : Sequence) (os : List Output)
    → All (IsOn (length os)) p.steps
    → i < length p.steps
    → p.current < length p.steps
    → Ran p os (begin_step now i p (many os))
unfolding begin_step
begin_step-Ran now i p os on room cur =
    let ((a, d, v), e, h) = All-get_elem? (length os) p.steps i on room in
    let (o, w) = set_at_in a (v, v, v) os h in
    record {
      changed = true;
      after = record p { next_change = some (now + d) };
      lit = set os a (set_rgb (v, v, v) o);
      ran = rw (e, begin_step, w) refl;
      same_steps = refl;
      current_in = cur;
      same_length = length-set os a (set_rgb (v, v, v) o);
    }

next_step-Ran :
    (now : ℕ) (p : Sequence) (os : List Output)
    → IsRunnable (length os) p
    → Ran p os (next_step now p (many os))
unfolding next_step
next_step-Ran now p os h =
    let ((a, d, v), e, on) = All-get_elem? (length os) p.steps p.current h.steps_on h.current_in in
    let (o, w) = set_at_in a (0, 0, 0) os on in
    let os' = set os a (set_rgb (0, 0, 0) o) in
    let i = (p.current + 1) % length p.steps in
    let same = length-set os a (set_rgb (0, 0, 0) o) in
    let room = h.current_in in
    let next =
      begin_step-Ran now i (record p { current = i }) os' (rw same h.steps_on)
        (mod-lt (p.current + 1) (omega arith)) (mod-lt (p.current + 1) (omega arith)) in
    record {
      changed = next.changed;
      after = next.after;
      lit = next.lit;
      ran = rw (e, next_step, w) next.ran;
      same_steps = next.same_steps;
      current_in = next.current_in;
      same_length = next.same_length ∙ same;
    }

sequence_tick_first :
    (now : ℕ) (p : Sequence) (t : Target)
    → p.next_change ≡ none
    → sequence_tick now p t ≡ begin_step now 0 p t
unfolding sequence_tick
sequence_tick_first now p t e = ground (arith, e)

sequence_tick_early :
    (now next : ℕ) (p : Sequence) (t : Target)
    → p.next_change ≡ some next
    → now < next
    → sequence_tick now p t ≡ (ok false, p, t)
unfolding sequence_tick
sequence_tick_early now next p t e h = ground (arith, e)

sequence_tick_due :
    (now next : ℕ) (p : Sequence) (t : Target)
    → p.next_change ≡ some next
    → next ≤ now
    → sequence_tick now p t ≡ next_step now p t
unfolding sequence_tick
sequence_tick_due now next p t e h = ground (arith, e)

unchanged-Ran :
    (p : Sequence) (os : List Output) → IsRunnable (length os) p → Ran p os (ok false, p, many os)
unchanged-Ran p os h = record {
  changed = false;
  after = p;
  lit = os;
  ran = refl;
  same_steps = refl;
  current_in = h.current_in;
  same_length = refl;
}

pub sequence_tick-Ran :
    (now : ℕ) (p : Sequence) (os : List Output)
    → IsRunnable (length os) p
    → Ran p os (sequence_tick now p (many os))
sequence_tick-Ran now p os h = elim (Option-cases p.next_change) [
  | inl fresh ↦
      let room = h.current_in in
      rw (sequence_tick_first now p (many os) fresh)
        (begin_step-Ran now 0 p os h.steps_on (omega arith) h.current_in)
  | inr (next, due) ↦ elim (dec_lt now next) [
    | yes early ↦ rw (sequence_tick_early now next p (many os) due early) (unchanged-Ran p os h)
    | no late ↦
        rw (sequence_tick_due now next p (many os) due (omega arith)) (next_step-Ran now p os h)
  ]
]

-- What follows a tick that raised nothing.
pub on_ran : (Sequence → Target → Ticked Sequence) → Ticked Sequence → Ticked Sequence
on_ran next (err e, p, t) = (err e, p, t)
on_ran next (ok changed, p, t) = next p t

-- The ticks of one sequence at the times of the list, up to the first exception.
abbrev pub run_sequence : List ℕ → Sequence → Target → Ticked Sequence
run_sequence [] p t = (ok false, p, t)
run_sequence (now ∷ times) p t = on_ran (run_sequence times) (sequence_tick now p t)

pub Ran-IsRunnable :
    (p q : Sequence) (os lit : List Output)
    → IsRunnable (length os) p
    → q.steps ≡ p.steps
    → q.current < length p.steps
    → length lit ≡ length os
    → IsRunnable (length lit) q
Ran-IsRunnable p q os lit h steps cur len = record {
  steps_on = rw (steps, len) h.steps_on;
  current_in = rw steps cur;
}

on_ran-Ran :
    (next : Sequence → Target → Ticked Sequence)
    → (p : Sequence) (os : List Output) (r : Ticked Sequence) → (one : Ran p os r)
    → Ran one.after one.lit (next one.after (many one.lit))
    → Ran p os (on_ran next r)
unfolding on_ran
on_ran-Ran next p os r one rest = record {
  changed = rest.changed;
  after = rest.after;
  lit = rest.lit;
  ran = rw one.ran rest.ran;
  same_steps = rest.same_steps ∙ one.same_steps;
  current_in = rw⁻¹ one.same_steps rest.current_in;
  same_length = rest.same_length ∙ one.same_length;
}

-- A sequence whose steps all name outputs that there are, and whose current step exists, ticked
-- with the list of outputs, never raises, whatever the clock's readings are: it keeps its steps, a
-- current step that exists, and the number of outputs.
pub run_sequence-Ran :
    (times : List ℕ) (p : Sequence) (os : List Output)
    → IsRunnable (length os) p
    → Ran p os (run_sequence times p (many os))
run_sequence-Ran [] p os h = unchanged-Ran p os h
run_sequence-Ran (now ∷ times) p os h =
    let one = sequence_tick-Ran now p os h in
    on_ran-Ran (run_sequence times) p os (sequence_tick now p (many os)) one (
      run_sequence-Ran times one.after one.lit
        (Ran-IsRunnable p one.after os one.lit h one.same_steps one.current_in one.same_length))
