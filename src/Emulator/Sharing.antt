-- ===== src/Emulator/Sharing.antt =====
-- A blink program in every slot: `_install_program` for all outputs, and the tick behind it.
use hmtl.Prelude.{
  ℕ, zero, suc, ◌+◌, ◌<◌, ◌≤◌, ◌≡◌, refl, List, [], ◌∷◌, ◌++◌, Bytes, length, replicate, none, some,
  true, false, get_elem?, set, set_same, get_elem?-append_last, set-append_last, get_elem?-lt, ok,
  arith,
}
use hmtl.Emulator.Outputs.{Output, set_rgb}
use hmtl.Emulator.Programs.{Blink, blink, one, tick}
use hmtl.Emulator.Blinks.{blink_first, blink_wait}
use hmtl.Emulator.Device.{Emulator, install_program, assign, parse_program, all_output}
use hmtl.Emulator.Ticks.{
  tick_found, tick_slot, store_output, run_slots, run_programs, advance, tick_no_output,
}

-- A slot whose blink has nothing to do changes nothing.
tick_slot_wait :
    (now i r : ℕ) (p : Blink) (em : Emulator)
    → get_elem? em.heap r ≡ some (blink p)
    → p.initialized ≡ true
    → now < p.next_change
    → i < length em.outputs
    → tick_slot now i r em ≡ (ok tt, em)
unfolding tick_slot tick_found store_output tick
tick_slot_wait now i r p em h begun early room =
    let (o, e) = get_elem?-lt em.outputs i room in
    rw
      (
        h,
        e,
        blink_wait now p (one o) begun early,
        set_same em.heap r (blink p) h,
        set_same em.outputs i o e,
      )
      refl

run_slots_wait :
    (k now i r : ℕ) (p : Blink) (em : Emulator)
    → get_elem? em.heap r ≡ some (blink p)
    → p.initialized ≡ true
    → now < p.next_change
    → i + k ≤ length em.outputs
    → run_slots now i (replicate k (some r)) em ≡ (ok tt, em)
unfolding run_slots
run_slots_wait zero now i r p em h begun early room = refl
run_slots_wait (suc k) now i r p em h begun early room =
    rw (tick_slot_wait now i r p em h begun early (omega arith))
      (run_slots_wait k now (suc i) r p em h begun early (omega arith))

-- One object is in each of the slots, and a first tick of it at `now` has just lit an output.
slot_first :
    (now i r : ℕ) (p : Blink) (o : Output) (em : Emulator)
    → get_elem? em.heap r ≡ some (blink p)
    → get_elem? em.outputs i ≡ some o
    → p.initialized ≡ false
    → tick_slot now i r em ≡ (
      ok tt,
      record em {
        heap =
            set em.heap r
              (blink (record p { initialized = true; on = true; next_change = now + p.on_period }));
        outputs = set em.outputs i (set_rgb p.on_value o);
      },
    )
unfolding tick_slot tick_found store_output tick
slot_first now i r p o em h e fresh = rw (h, e, blink_first now p o fresh) refl

-- What `advance` leaves, if the blink `p` was sent to all of the outputs `o ∷ os`.
abbrev pub first_lit : ℕ → Blink → Output → List Output → Emulator → Emulator
first_lit ms p o os em =
    let now = em.virtual_ms + ms in
    record em {
      virtual_ms = now;
      programs = replicate (suc (length os)) (some (length em.heap));
      heap =
          em.heap
          ++ (blink (record p { initialized = true; on = true; next_change = now + p.on_period })
              ∷ []);
      outputs = set_rgb p.on_value o ∷ os;
    }

-- A blink program that is sent to all outputs lights only the first one at the next `advance`, with
-- no program for the index 255, and an on-period above 0: the others stay as they were. One object
-- stands in every slot, and when the loop comes to the second slot its change is already done.
pub advance-install_program :
    (ms : ℕ) (bs : Bytes) (p : Blink) (o : Output) (os : List Output) (em : Emulator)
    → parse_program 1 bs ≡ some (blink p)
    → p.initialized ≡ false
    → 0 < p.on_period
    → em.outputs ≡ o ∷ os
    → em.no_output_program ≡ none
    → advance ms (install_program all_output 1 bs em) ≡ (ok tt, first_lit ms p o os em)
unfolding install_program assign advance run_programs run_slots tick_no_output
advance-install_program ms bs p o os em parsed fresh long outs none_installed =
    let now = em.virtual_ms + ms in
    let r = length em.heap in
    let p' : Blink = record p { initialized = true; on = true; next_change = now + p.on_period } in
    let sent : Emulator = record em {
      virtual_ms = now;
      programs = replicate (suc (length os)) (some r);
      heap = em.heap ++ (blink p ∷ []);
      outputs = o ∷ os;
    } in
    rw
      (
        parsed,
        outs,
        slot_first now 0 r p o sent (get_elem?-append_last em.heap (blink p)) refl fresh,
        set-append_last em.heap (blink p) (blink p'),
        run_slots_wait (length os) now 1 r p' (first_lit ms p o os em)
            (get_elem?-append_last em.heap (blink p')) refl (omega arith) (omega arith),
        none_installed,
      )
      refl
