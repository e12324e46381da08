-- ===== src/Emulator/Idle.antt =====
-- A device without programs.
use hmtl.Prelude.{ℕ, zero, suc, ◌+◌, ◌≡◌, refl, length, replicate, none, ok, arith}
use hmtl.Emulator.Device.{Emulator}
use hmtl.Emulator.Ticks.{run_slots, run_programs, tick_no_output, advance, reset}

pub run_slots_empty :
    (k now i : ℕ) (em : Emulator) → run_slots now i (replicate k none) em ≡ (ok tt, em)
unfolding run_slots
run_slots_empty zero now i em = refl
run_slots_empty (suc k) now i em = run_slots_empty k now (suc i) em

abbrev at_time : ℕ → Emulator → Emulator
at_time ms em = record em { virtual_ms = ms }

-- Behind `reset`, time changes nothing but the clock, which starts from 0: no program that was
-- installed before drives an output any more, and no tick raises.
pub advance-reset :
    (ms : ℕ) (em : Emulator) → advance ms (reset em) ≡ (ok tt, at_time ms (reset em))
unfolding advance run_programs tick_no_output reset
advance-reset ms em =
    let zero_left : 0 + ms ≡ ms = omega arith in
    rw (zero_left, run_slots_empty (length em.outputs) ms 0 (at_time ms (reset em))) refl
