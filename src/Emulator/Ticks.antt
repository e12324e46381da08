-- ===== src/Emulator/Ticks.antt =====
-- Time in the emulator: `_run_programs`, `advance`, and `get_state` and `reset`, of
-- python/hmtl/emulator/emulator.py.
use hmtl.Prelude.{
  ℕ, suc, ◌+◌, List, [], ◌∷◌, map, Option, none, some, set, get_elem?, length, replicate, Result,
  ok, err, exception, index_error,
}
use hmtl.Emulator.Outputs
use hmtl.Emulator.Outputs.{Output, OutputState}
use hmtl.Emulator.Programs.{Program, one, many, Ticked, tick}
use hmtl.Emulator.Device.{Emulator}

-- One program has run on `target`: its object and the outputs are as it left them.
unfoldable pub store_output : ℕ → ℕ → Emulator → Ticked Program → Result (Unit {0}) × Emulator
store_output r i em (result, p, target) =
    let em' : Emulator = record em {
      heap = set em.heap r p;
      outputs = elim target [ one o ↦ set em.outputs i o | many os ↦ os ];
    } in
    (elim result [ ok changed ↦ ok tt | err e ↦ err e ], em')

-- `prog.tick(now_ms, self.outputs[i])`, on the object and the output that were looked up.
unfoldable pub tick_found :
    ℕ → ℕ → ℕ → Emulator → Option Program → Option Output → Result (Unit {0}) × Emulator
unfolding store_output tick
tick_found now i r em none mo = (err exception, em)
tick_found now i r em (some p) none = (err index_error, em)
tick_found now i r em (some p) (some o) = store_output r i em (tick now p (one o))

-- The slot `i`, which refers to the object `r` of the heap.
unfoldable pub tick_slot : ℕ → ℕ → ℕ → Emulator → Result (Unit {0}) × Emulator
unfolding tick_found
tick_slot now i r em = tick_found now i r em (get_elem? em.heap r) (get_elem? em.outputs i)

-- `self._no_output_program.tick(now_ms, self.outputs)`, on the object that was looked up.
unfoldable pub tick_all_found : ℕ → ℕ → Emulator → Option Program → Result (Unit {0}) × Emulator
unfolding store_output tick
tick_all_found now r em none = (err exception, em)
tick_all_found now r em (some p) = store_output r 0 em (tick now p (many em.outputs))

unfoldable pub tick_no_output : ℕ → Option ℕ → Emulator → Result (Unit {0}) × Emulator
unfolding tick_all_found
tick_no_output now none em = (ok tt, em)
tick_no_output now (some r) em = tick_all_found now r em (get_elem? em.heap r)

-- An exception ends the loop; the state stays as it was left.
abbrev pub and_then :
    Result (Unit {0}) × Emulator
    → (Emulator → Result (Unit {0}) × Emulator)
    → Result (Unit {0}) × Emulator
and_then (ok u, em) k = k em
and_then (err e, em) k = (err e, em)

-- The loop of `_run_programs` over the slots from `i` on.
unfoldable pub run_slots : ℕ → ℕ → List (Option ℕ) → Emulator → Result (Unit {0}) × Emulator
run_slots now i [] em = (ok tt, em)
run_slots now i (none ∷ slots) em = run_slots now (suc i) slots em
run_slots now i (some r ∷ slots) em = and_then (tick_slot now i r em) (run_slots now (suc i) slots)

-- `_run_programs`
unfoldable pub run_programs : ℕ → Emulator → Result (Unit {0}) × Emulator
unfolding run_slots tick_slot tick_no_output
run_programs now em =
    and_then (run_slots now 0 em.programs em) (λ em'. tick_no_output now em'.no_output_program em')

-- `advance`
unfoldable pub advance : ℕ → Emulator → Result (Unit {0}) × Emulator
unfolding run_programs
advance ms em = let now = em.virtual_ms + ms in run_programs now (record em { virtual_ms = now })

-- `get_state`
unfoldable pub get_state : Emulator → ℕ × List OutputState
unfolding Outputs.state
get_state em = (em.address, map Outputs.state em.outputs)

-- `reset`
unfoldable pub reset : Emulator → Emulator
unfolding Outputs.reset
reset em = record em {
  virtual_ms = 0;
  programs = replicate (length em.outputs) none;
  no_output_program = none;
  outputs = map Outputs.reset em.outputs;
}

-- `_tick_loop`, with the clock's readings: nothing there catches an exception.
unfoldable pub tick_loop : List ℕ → Emulator → Result (Unit {0}) × Emulator
unfolding run_programs
tick_loop [] em = (ok tt, em)
tick_loop (now ∷ times) em = and_then (run_programs now em) (tick_loop times)
