-- ===== src/Emulator/Tickable/Running.antt =====
-- `_run_programs`, `advance` and `_tick_loop` of python/hmtl/emulator/emulator.py, for a device
-- whose programs stand where they can run.
use hmtl.Prelude.{
  ℕ, suc, ◌+◌, ◌≤◌, ◌≡◌, refl, sym, ◌∙◌, List, [], ◌∷◌, length, All, Option, none, some, get_elem?,
  get_elem?-lt, set, Result, ok, err, arith,
}
use native.Mathlib.Decide.{ℕ_discrete}
use hmtl.Emulator.Outputs.{Output}
use hmtl.Emulator.Programs.{Program, sequence, Sequence, many, Ticked, sequence_tick, rewrap, tick}
use hmtl.Emulator.Device.{Emulator}
use hmtl.Emulator.Ticks.{
  store_output, tick_slot, tick_all_found, tick_no_output, and_then, run_slots, run_programs,
  tick_loop,
}
use hmtl.Emulator.Sequences.{IsRunnable, Ran, sequence_tick-Ran}
use hmtl.Emulator.Tickable.{
  SlotFits, SequenceFits, IsTickable, Keeps, Keeps-refl, Keeps-trans, Keeps-IsTickable, All-imp,
  get_elem?-set_other, get_elem?-set_self,
}
use hmtl.Emulator.Tickable.Ticking.{Ticks, tick_slot-Ticks, not_same}

-- The sequence has been ticked: the other slots refer to other objects.
SlotFits-sequence :
    (heap : List Program) (r : ℕ) (q : Sequence) (p : Program) (slot : Option ℕ)
    → get_elem? heap r ≡ some (sequence q)
    → SlotFits heap slot
    → SlotFits (set heap r p) slot
SlotFits-sequence heap r q p none e h = tt
SlotFits-sequence heap r q p (some i) e (x, f, k) =
    (x, get_elem?-set_other heap r i p (λ same. not_same heap i r x q f k e (sym same)) ∙ f, k)

same_sequence-IsRunnable :
    (n : ℕ) (p q : Sequence) (os lit : List Output) (r : Ticked Sequence) (ran : Ran q os r)
    → some (sequence p) ≡ some (sequence q)
    → IsRunnable n p
    → IsRunnable n ran.after
same_sequence-IsRunnable n p q os lit r ran e h =
    let same : p ≡ q = cc in
    record {
      steps_on = rw (ran.same_steps, ← same) h.steps_on;
      current_in = rw ran.same_steps ran.current_in;
    }

SequenceFits-sequence :
    (n : ℕ) (heap : List Program) (r : ℕ) (q : Sequence) (os : List Output) (t : Ticked Sequence)
    → (ran : Ran q os t) (slot : Option ℕ) → get_elem? heap r ≡ some (sequence q)
    → SequenceFits n heap slot
    → SequenceFits n (set heap r (sequence ran.after)) slot
SequenceFits-sequence n heap r q os t ran none e h = tt
SequenceFits-sequence n heap r q os t ran (some i) e (p, f, k) = elim (ℕ_discrete r i) [
  | yes same ↦
      let there : get_elem? heap r ≡ some (sequence p) = rw same f in
      (
        ran.after,
        rw (← same) (get_elem?-set_self heap r (sequence q) (sequence ran.after) e),
        same_sequence-IsRunnable n p q os os t ran (sym there ∙ e) k,
      )
  | no other ↦ (p, get_elem?-set_other heap r i (sequence ran.after) other ∙ f, k)
]

store_output-sequence :
    (r : ℕ) (em : Emulator) (q : Sequence) (t : Ticked Sequence)
    → get_elem? em.heap r ≡ some (sequence q)
    → Ran q em.outputs t
    → Ticks em (store_output r 0 em (rewrap sequence t))
unfolding store_output
store_output-sequence r em q t e ran = rw ran.ran (record {
  keeps_slot = λ slot f. SlotFits-sequence em.heap r q (sequence ran.after) slot e f;
  keeps_sequence = λ n slot f. SequenceFits-sequence n em.heap r q em.outputs t ran slot e f;
  same_programs = refl;
  same_sequence = refl;
  same_length = ran.same_length;
})

tick_no_output-Ticks :
    (now : ℕ) (slot : Option ℕ) (em : Emulator)
    → SequenceFits (length em.outputs) em.heap slot
    → Ticks em (tick_no_output now slot em)
unfolding tick_no_output tick_all_found tick
tick_no_output-Ticks now none em h = Keeps-refl em
tick_no_output-Ticks now (some r) em (q, e, k) = rw e (
    store_output-sequence r em q (sequence_tick now q (many em.outputs)) e
      (sequence_tick-Ran now q em.outputs k))

Ticks-trans :
    (em fm : Emulator) (out : Result (Unit {0}) × Emulator)
    → Keeps em fm
    → Ticks fm out
    → Ticks em out
Ticks-trans em fm (err e, gm) h t = absurd t
Ticks-trans em fm (ok done, gm) h t = Keeps-trans em fm gm h t

and_then-Ticks :
    (em : Emulator) (r : Result (Unit {0}) × Emulator)
    → (k : Emulator → Result (Unit {0}) × Emulator) → Ticks em r
    → ((em' : Emulator) → Keeps em em' → Ticks em' (k em'))
    → Ticks em (and_then r k)
and_then-Ticks em (err e, em') k h next = absurd h
and_then-Ticks em (ok done, em') k h next = Ticks-trans em em' (k em') h (next em' h)

run_slots-Ticks :
    (now i : ℕ) (slots : List (Option ℕ)) (em : Emulator)
    → All (SlotFits em.heap) slots
    → i + length slots ≤ length em.outputs
    → Ticks em (run_slots now i slots em)
unfolding run_slots
run_slots-Ticks now i [] em h room = Keeps-refl em
run_slots-Ticks now i (none ∷ slots) em h room =
    run_slots-Ticks now (suc i) slots em h.1 (omega arith)
run_slots-Ticks now i (some r ∷ slots) em h room =
    let (o, e) = get_elem?-lt em.outputs i (omega arith) in
    and_then-Ticks em (tick_slot now i r em) (run_slots now (suc i) slots)
      (tick_slot-Ticks now i r em o h.0 e)
      (λ em' k.
        run_slots-Ticks now (suc i) slots em'
          (All-imp (SlotFits em.heap) (SlotFits em'.heap) slots k.keeps_slot h.1)
          (omega (arith, k.same_length)))

pub run_programs-Ticks : (now : ℕ) (em : Emulator) → IsTickable em → Ticks em (run_programs now em)
unfolding run_programs
run_programs-Ticks now em h =
    and_then-Ticks em (run_slots now 0 em.programs em)
      (λ (em' : Emulator). tick_no_output now em'.no_output_program em')
      (run_slots-Ticks now 0 em.programs em h.slots_fit (omega (arith, h.one_each)))
      (λ em' k.
        tick_no_output-Ticks now em'.no_output_program em'
          (Keeps-IsTickable em em' k h).sequence_fits)

-- The call raised nothing, and leaves a device whose programs can run.
abbrev pub Runs : Result (Unit {0}) × Emulator → Type 0
Runs out = (out.0 ≡ ok tt) × IsTickable out.1

pub Ticks-Runs :
    (em : Emulator) (out : Result (Unit {0}) × Emulator) → IsTickable em → Ticks em out → Runs out
Ticks-Runs em (err e, em') h t = absurd t
Ticks-Runs em (ok done, em') h t = (refl, Keeps-IsTickable em em' t h)

and_then-Runs :
    (out : Result (Unit {0}) × Emulator) (k : Emulator → Result (Unit {0}) × Emulator)
    → Runs out
    → ((em : Emulator) → IsTickable em → Runs (k em))
    → Runs (and_then out k)
and_then-Runs (err e, em) k (r, h) next = cc
and_then-Runs (ok done, em) k (r, h) next = next em h

-- The tick loop of a device whose programs stand where they can run goes on for ever: whatever the
-- clock's readings are, no tick raises, and the device stays one whose programs can run.
pub tick_loop-Runs : (times : List ℕ) (em : Emulator) → IsTickable em → Runs (tick_loop times em)
unfolding tick_loop
tick_loop-Runs [] em h = (refl, h)
tick_loop-Runs (now ∷ times) em h =
    and_then-Runs (run_programs now em) (tick_loop times)
      (Ticks-Runs em _ h (run_programs-Ticks now em h)) (tick_loop-Runs times)
