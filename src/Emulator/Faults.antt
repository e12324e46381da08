-- ===== src/Emulator/Faults.antt =====
-- Programs that are ticked with a target of the wrong kind.
use hmtl.Prelude.{
  ℕ, ◌+◌, set_same, ◌≡◌, refl, List, [], ◌∷◌, ◌++◌, Bytes, length, replicate, none, some, true,
  false, get_elem?, get_elem?-append_last, set-append_last, err, attribute_error, type_error,
}
use hmtl.Emulator.Outputs.{Output}
use hmtl.Protocol.Programs.{SeqStep}
use hmtl.Emulator.Programs.{
  Blink, Sequence, blink, sequence, many, one, blink_tick, sequence_tick, begin_step, set_at,
  set_target, tick,
}
use hmtl.Emulator.Device.{Emulator, install_program, assign, parse_program, no_output}
use hmtl.Emulator.Idle.{run_slots_empty}
use hmtl.Emulator.Ticks.{
  tick_found, tick_slot, store_output, run_programs, tick_all_found, tick_no_output, tick_loop,
}

blink_tick_all :
    (now : ℕ) (p : Blink) (os : List Output)
    → p.initialized ≡ false
    → blink_tick now p (many os) ≡ (
      err attribute_error,
      record p { initialized = true; on = true; next_change = now + p.on_period },
      many os,
    )
unfolding blink_tick set_target
blink_tick_all now p os fresh = rw fresh refl

-- What is left behind the exception: the blink has marked itself as begun.
abbrev pub blink_stuck : ℕ → Blink → Emulator → Emulator
blink_stuck now p em = record em {
  no_output_program = some (length em.heap);
  heap =
      em.heap
      ++ (blink (record p { initialized = true; on = true; next_change = now + p.on_period }) ∷ []);
}

-- A blink program that is sent to the index 255 ends the tick loop at its first tick, with an
-- AttributeError, if no other program is installed: `tick` gets the list of outputs there, which
-- has no `set_rgb`. No output changes, and no later reading of the clock counts.
pub tick_loop-install_program :
    (now : ℕ) (times : List ℕ) (bs : Bytes) (p : Blink) (k : ℕ) (em : Emulator)
    → parse_program 1 bs ≡ some (blink p)
    → p.initialized ≡ false
    → em.programs ≡ replicate k none
    → tick_loop (now ∷ times) (install_program no_output 1 bs em)
      ≡ (err attribute_error, blink_stuck now p em)
unfolding install_program assign tick_loop run_programs tick_no_output tick_all_found store_output
    tick
tick_loop-install_program now times bs p k em parsed fresh empty =
    rw
      (
        parsed,
        empty,
        run_slots_empty k now 0 (record em {
          programs = replicate k none;
          no_output_program = some (length em.heap);
          heap = em.heap ++ (blink p ∷ []);
        }),
        get_elem?-append_last em.heap (blink p),
        blink_tick_all now p em.outputs fresh,
        set-append_last em.heap (blink p)
            (blink (record p { initialized = true; on = true; next_change = now + p.on_period })),
      )
      refl

sequence_tick_one :
    (now : ℕ) (p : Sequence) (s : SeqStep) (ss : List SeqStep) (o : Output)
    → p.steps ≡ s ∷ ss
    → p.next_change ≡ none
    → sequence_tick now p (one o) ≡ (err type_error, p, one o)
unfolding sequence_tick begin_step set_at
sequence_tick_one now p (a, d, v) ss o steps fresh = rw (fresh, steps) refl

-- A new sequence with a step, in the slot of one output, raises a TypeError at its first tick and
-- stays as it was: `tick` gets an output there, which cannot be indexed.
pub tick_slot-sequence :
    (now i r : ℕ) (p : Sequence) (s : SeqStep) (ss : List SeqStep) (o : Output) (em : Emulator)
    → get_elem? em.heap r ≡ some (sequence p)
    → get_elem? em.outputs i ≡ some o
    → p.steps ≡ s ∷ ss
    → p.next_change ≡ none
    → tick_slot now i r em ≡ (err type_error, em)
unfolding tick_slot tick_found store_output tick
tick_slot-sequence now i r p s ss o em h e steps fresh =
    rw
      (
        h,
        e,
        sequence_tick_one now p s ss o steps fresh,
        set_same em.heap r (sequence p) h,
        set_same em.outputs i o e,
      )
      refl
