-- ===== src/Emulator/Tickable/Ticking.antt =====
-- One tick of `_run_programs` of python/hmtl/emulator/emulator.py, for a slot that fits.
use hmtl.Prelude.{
  ℕ, ◌≡◌, ◌≢◌, refl, sym, ◌∙◌, List, length-set, Option, none, some, get_elem?, set, Bool,
  Bool-cases, ◌==◌, inl, inr, true, false, not, ltb, if◌then◌else◌, Result, ok, err,
}
use hmtl.Emulator.Outputs.{Output}
use hmtl.Emulator.Programs.{
  Program, blink, timed_change, fade, sequence, Blink, TimedChange, Fade, Sequence, one, many,
  Ticked, set_target, blink_tick, timed_change_tick, fade_tick, fade_before, set_before, started,
  written, rewrap, tick,
}
use hmtl.Emulator.Device.{Emulator}
use hmtl.Emulator.Ticks.{store_output, tick_found, tick_slot}
use hmtl.Emulator.Tickable.{
  IsSingle, SlotFits, SequenceFits, Keeps, get_elem?-set_all, get_elem?-set_other,
}

-- A tick on a single output that raised nothing.
abbrev RanOne : {P : Type 0} → Ticked P → Type 0
RanOne (err e, p, t) = ⊥
RanOne (ok changed, p, one o) = Unit
RanOne (ok changed, p, many os) = ⊥

abbrev TickedOne : Ticked Program → Type 0
TickedOne (err e, p, t) = ⊥
TickedOne (ok changed, p, one o) = IsSingle p
TickedOne (ok changed, p, many os) = ⊥

RanOne-if :
    {P : Type 0} (b : Bool) (r r' : Ticked P) → RanOne r → RanOne r' → RanOne (if b then r else r')
RanOne-if true r r' h k = h
RanOne-if false r r' h k = k

TickedOne-rewrap :
    {P : Type 0} (f : P → Program) (r : Ticked P)
    → ((p : P) → IsSingle (f p))
    → RanOne r
    → TickedOne (rewrap f r)
TickedOne-rewrap f (err e, p, t) single h = h
TickedOne-rewrap f (ok changed, p, one o) single h = single p
TickedOne-rewrap f (ok changed, p, many os) single h = h

blink_tick-RanOne : (now : ℕ) (p : Blink) (o : Output) → RanOne (blink_tick now p (one o))
unfolding blink_tick set_target
blink_tick-RanOne now p o =
    RanOne-if (not p.initialized) _ _ tt
      (RanOne-if (ltb now p.next_change) _ _ tt (RanOne-if p.on _ _ tt tt))

timed_change_tick-RanOne :
    (now : ℕ) (p : TimedChange) (o : Output) → RanOne (timed_change_tick now p (one o))
unfolding timed_change_tick set_target
timed_change_tick-RanOne now p o =
    RanOne-if (not p.initialized) _ _ tt (RanOne-if (ltb now p.change_time) _ _ tt tt)

fade_before-RanOne :
    (now start : ℕ) (p : Fade) (o : Output)
    → RanOne (written p p (one o) (fade_before now start p (one o)))
unfolding fade_before set_before set_target
fade_before-RanOne now start p o = elim (Bool-cases (p.period == 0)) [
  | inl z ↦ rw z tt
  | inr n ↦ rw n tt
]

fade_tick-RanOne : (now : ℕ) (p : Fade) (o : Output) → RanOne (fade_tick now p (one o))
unfolding fade_tick set_target
fade_tick-RanOne now p o =
    let begun = started p.start_time now in
    RanOne-if (ltb now begun) _ _ (fade_before-RanOne now begun p o) tt

tick-TickedOne : (now : ℕ) (p : Program) (o : Output) → IsSingle p → TickedOne (tick now p (one o))
unfolding tick
tick-TickedOne now (blink p) o h =
    TickedOne-rewrap blink (blink_tick now p (one o)) (λ q. tt) (blink_tick-RanOne now p o)
tick-TickedOne now (timed_change p) o h =
    TickedOne-rewrap timed_change (timed_change_tick now p (one o)) (λ q. tt)
      (timed_change_tick-RanOne now p o)
tick-TickedOne now (fade p) o h =
    TickedOne-rewrap fade (fade_tick now p (one o)) (λ q. tt) (fade_tick-RanOne now p o)
tick-TickedOne now (sequence q) o h = absurd h

-- The rest of the device fits as before.
abbrev pub Ticks : Emulator → Result (Unit {0}) × Emulator → Type 0
Ticks em (err e, em') = ⊥
Ticks em (ok done, em') = Keeps em em'

single_sequence : (p : Program) (q : Sequence) → IsSingle p → p ≡ sequence q → ⊥
single_sequence (blink p) q h e = cc
single_sequence (timed_change p) q h e = cc
single_sequence (fade p) q h e = cc
single_sequence (sequence p) q h e = h

pub not_same :
    (heap : List Program) (r i : ℕ) (p : Program) (q : Sequence)
    → get_elem? heap r ≡ some p
    → IsSingle p
    → get_elem? heap i ≡ some (sequence q)
    → r ≢ i
not_same heap r i p q e h f same =
    let both : some p ≡ some (sequence q) = sym e ∙ rw same f in single_sequence p q h cc

SlotFits-set :
    (heap : List Program) (r : ℕ) (p : Program) (slot : Option ℕ)
    → IsSingle p
    → SlotFits heap slot
    → SlotFits (set heap r p) slot
SlotFits-set heap r p none h f = tt
SlotFits-set heap r p (some i) h (x, e, k) = get_elem?-set_all IsSingle heap r i x p e k h

SequenceFits-set :
    (n : ℕ) (heap : List Program) (r : ℕ) (old p : Program) (slot : Option ℕ)
    → get_elem? heap r ≡ some old
    → IsSingle old
    → SequenceFits n heap slot
    → SequenceFits n (set heap r p) slot
SequenceFits-set n heap r old p none e h f = tt
SequenceFits-set n heap r old p (some i) e h (q, f, k) =
    (q, get_elem?-set_other heap r i p (not_same heap r i old q e h f) ∙ f, k)

store_output-Ticks :
    (r i : ℕ) (em : Emulator) (old : Program) (out : Ticked Program)
    → get_elem? em.heap r ≡ some old
    → IsSingle old
    → TickedOne out
    → Ticks em (store_output r i em out)
unfolding store_output
store_output-Ticks r i em old (err e, p, t) at single h = absurd h
store_output-Ticks r i em old (ok changed, p, many os) at single h = absurd h
store_output-Ticks r i em old (ok changed, p, one o) at single h = record {
  keeps_slot = λ slot f. SlotFits-set em.heap r p slot h f;
  keeps_sequence = λ n slot f. SequenceFits-set n em.heap r old p slot at single f;
  same_programs = refl;
  same_sequence = refl;
  same_length = length-set em.outputs i o;
}

-- A slot of an output that there is, where its program takes one output.
pub tick_slot-Ticks :
    (now i r : ℕ) (em : Emulator) (o : Output)
    → SlotFits em.heap (some r)
    → get_elem? em.outputs i ≡ some o
    → Ticks em (tick_slot now i r em)
unfolding tick_slot tick_found
tick_slot-Ticks now i r em o (p, e, h) f =
    rw (e, f) (store_output-Ticks r i em p (tick now p (one o)) e h (tick-TickedOne now p o h))
