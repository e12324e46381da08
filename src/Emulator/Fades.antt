-- ===== src/Emulator/Fades.antt =====
-- `FadeProgram.tick`: the colours that it writes.
use hmtl.Prelude.{
  ℕ, ◌+◌, ◌-◌, ◌*◌, ◌/◌, ◌%◌, ◌<◌, ◌≤◌, ◌≡◌, refl, ap, some, true, false, Bool-cases, inl, inr, ltb,
  ◌==◌, ok, arith,
}
use native.Mathlib.Nat.{le-div_iff_mul-le}
use hmtl.Emulator.Outputs.{Output, Rgb, set_rgb}
use hmtl.Emulator.Programs.{Fade, one, mix, ratio, fade_phase, fade_tick, fade_before, started}

abbrev pub Between : ℕ → ℕ → Rgb → Type 0
Between lo hi (r, g, b) = ((lo ≤ r) × (r ≤ hi)) × ((lo ≤ g) × (g ≤ hi)) × ((lo ≤ b) × (b ≤ hi))

weigh_low : (f g a b lo : ℕ) → f + g ≡ 255 → lo ≤ a → lo ≤ b → lo * 255 ≤ b * f + a * g
weigh_low f g a b lo split ha hb =
    let low : lo * f ≤ b * f = grind arith in
    let low' : lo * g ≤ a * g = grind arith in omega (arith, ap (λ (t : ℕ). lo * t) split)

weigh_high : (f g a b hi : ℕ) → f + g ≡ 255 → a ≤ hi → b ≤ hi → b * f + a * g ≤ hi * 255
weigh_high f g a b hi split ha hb =
    let high : b * f ≤ hi * f = grind arith in
    let high' : a * g ≤ hi * g = grind arith in omega (arith, ap (λ (t : ℕ). hi * t) split)

mix_bounds :
    (f a b lo hi : ℕ)
    → f ≤ 255
    → (lo ≤ a) × (a ≤ hi)
    → (lo ≤ b) × (b ≤ hi)
    → (lo ≤ mix f a b) × (mix f a b ≤ hi)
unfolding mix
mix_bounds f a b lo hi h ha hb =
    let low = weigh_low f (255 - f) a b lo (omega arith) ha.0 hb.0 in
    let high = weigh_high f (255 - f) a b hi (omega arith) ha.1 hb.1 in (omega arith, omega arith)

mix_start : (a b : ℕ) → mix 0 a b ≡ a
unfolding mix
mix_start a b = omega arith

mix_stop : (a b : ℕ) → mix 255 a b ≡ b
unfolding mix
mix_stop a b = omega arith

fade_phase-le : (flags period now start : ℕ) → (fade_phase flags period now start).0 ≤ 255
unfolding fade_phase
fade_phase-le flags period now start = ground arith

ratio_over : (elapsed period : ℕ) → 0 < period → period ≤ elapsed → ratio elapsed period ≡ 255
unfolding ratio
ratio_over elapsed period pos h =
    let enough : 255 ≤ elapsed * 255 / period = (le-div_iff_mul-le pos).1 (omega arith) in
    omega arith

fade_phase_over :
    (flags period now start : ℕ)
    → flags % 2 ≡ 0
    → period ≤ now - start
    → (fade_phase flags period now start).0 ≡ 255
unfolding fade_phase
fade_phase_over flags period now start e h = ground (arith, ratio_over (now - start) period)

-- At any time from its start on, a fade between two colours writes a colour between them.
pub fade_tick-Between :
    (now lo hi : ℕ) (p : Fade) (o : Output)
    → Between lo hi p.start_value
    → Between lo hi p.stop_value
    → started p.start_time now ≤ now
    → (c : Rgb) × Between lo hi c
      × ((fade_tick now p (one o)).0 ≡ ok true)
      × ((fade_tick now p (one o)).2 ≡ one (set_rgb c o))
unfolding fade_tick
fade_tick-Between now lo hi p o hs ht later =
    let start = started p.start_time now in
    let f : ℕ = (fade_phase p.flags p.period now start).0 in
    let f-le = fade_phase-le p.flags p.period now start in
    let on_time : ltb now start ≡ false = ground arith in
    let (r, g, b) = p.start_value in
    let (r', g', b') = p.stop_value in
    (
      (mix f r r', mix f g g', mix f b b'),
      (
        mix_bounds f r r' lo hi f-le hs.0 ht.0,
        mix_bounds f g g' lo hi f-le hs.1 ht.1,
        mix_bounds f b b' lo hi f-le hs.2 ht.2,
      ),
      rw on_time refl,
      rw on_time refl,
    )

-- From the end of its period on, a fade without the cycle flag writes the stop colour.
pub fade_tick_stop :
    (now start : ℕ) (p : Fade) (o : Output)
    → p.start_time ≡ some start
    → p.flags % 2 ≡ 0
    → p.period ≤ now - start
    → (fade_tick now p (one o)).2 ≡ one (set_rgb p.stop_value o)
unfolding fade_tick fade_before
fade_tick_stop now start p o e fl over =
    let (r, g, b) = p.start_value in
    let (r', g', b') = p.stop_value in
    elim (Bool-cases (ltb now start)) [
      | inl early ↦
          let none_long : (p.period == 0) ≡ true = ground arith in
          rw (e, early, none_long) (rw (mix_stop r r', mix_stop g g', mix_stop b b') refl)
      | inr on_time ↦
          rw (e, on_time, fade_phase_over p.flags p.period now start fl over)
            (rw (mix_stop r r', mix_stop g g', mix_stop b b') refl)
    ]
