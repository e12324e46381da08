-- ===== src/Emulator/Blinks.antt =====
-- `BlinkProgram.tick` over time.
use hmtl.Prelude.{ℕ, ◌+◌, ◌*◌, ◌<◌, ◌≡◌, refl, List, [], ◌∷◌, true, false, ok, arith, if◌then◌else◌}
use hmtl.Emulator.Outputs.{Output, Rgb, set_rgb}
use hmtl.Emulator.Programs.{Blink, Target, Ticked, one, many, blink_tick}

-- The colour of the phase that a blink is in.
abbrev pub shown : Blink → Rgb
shown p = if p.on then p.on_value else p.off_value

pub after_tick : (Blink → Output → Blink × Output) → Output → Ticked Blink → Blink × Output
after_tick next o (r, p, one o') = next p o'
after_tick next o (r, p, many os) = (p, o)

-- Ticks of one blink on one output, at the times of the list.
abbrev pub run_blink : List ℕ → Blink → Output → Blink × Output
run_blink [] p o = (p, o)
run_blink (now ∷ times) p o = after_tick (run_blink times) o (blink_tick now p (one o))

-- A blink that began at `t0` changes at times of a fixed grid: the `k`-th on-phase ends at
-- `t0 + k * (on + off) + on`, and the off-phase behind it `off` later.
pub record IsScheduled (t0 : ℕ) (p : Blink) : Type 0 where
  pub begun : p.initialized ≡ true
  pub k : ℕ
  pub due :
      p.next_change
      ≡ t0
        + k * (p.on_period + p.off_period)
        + (if p.on then p.on_period else p.on_period + p.off_period)

pub blink_first :
    (now : ℕ) (p : Blink) (o : Output)
    → p.initialized ≡ false
    → blink_tick now p (one o) ≡ (
      ok true,
      record p { initialized = true; on = true; next_change = now + p.on_period },
      one (set_rgb p.on_value o),
    )
unfolding blink_tick
blink_first now p o e = rw e refl

pub blink_wait :
    (now : ℕ) (p : Blink) (t : Target)
    → p.initialized ≡ true
    → now < p.next_change
    → blink_tick now p t ≡ (ok false, p, t)
unfolding blink_tick
blink_wait now p t e h = ground arith

-- On the grid, and showing the colour of its phase.
abbrev pub IsBlinking : ℕ → Output → Blink × Output → Type 0
IsBlinking t0 o0 (p, o) = IsScheduled t0 p × (o ≡ set_rgb (shown p) o0)
