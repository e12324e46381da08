-- ===== src/Emulator/Programs.antt =====
-- The programs of python/hmtl/emulator/programs.py. Times, periods and colours are not negative, and
-- `now_ms` may go back, so that `now_ms - start` can be. The quotients
-- of `int(elapsed * 255 / period)` are of ints below 2 ^ 53, where the truncated float is the
-- integer quotient.
use hmtl.Prelude.{
  ℕ, ◌+◌, ◌-◌, ◌*◌, ◌/◌, ◌%◌, min, List, Option, none, some, Bool, true, false, not, length,
  get_elem?, set, Result, ok, err, type_error, attribute_error, index_error, ltb, leb, ◌==◌,
  if◌then◌else◌,
}
use hmtl.Protocol.Programs.{SeqStep}
use hmtl.Emulator.Outputs.{Output, Rgb, set_rgb, set_ints}
use hmtl.Config.Words.{ℤ, pos, negsuc}

-- What `tick` is called with: one output object, or the list of all.
pub data Target : Type 0 where
  one : Output → Target
  many : List Output → Target

-- `output.set_rgb(…)`: a list has no such method.
unfoldable pub set_target : Rgb → Target → Result Target
set_target c (one o) = ok (one (set_rgb c o))
set_target c (many os) = err attribute_error

-- `outputs[i].set_rgb(…)`: an output cannot be indexed, and a list only in range.
unfoldable pub set_indexed : ℕ → Rgb → List Output → Result Target
set_indexed i c os = elim (get_elem? os i) [
  | none ↦ err index_error
  | some o ↦ ok (many (set os i (set_rgb c o)))
]

unfoldable pub set_at : ℕ → Rgb → Target → Result Target
unfolding set_indexed
set_at i c (one o) = err type_error
set_at i c (many os) = set_indexed i c os

pub record Blink : Type 0 where
  pub on_period : ℕ
  pub on_value : Rgb
  pub off_period : ℕ
  pub off_value : Rgb
  pub initialized : Bool
  pub on : Bool
  pub next_change : ℕ

pub record TimedChange : Type 0 where
  pub change_period : ℕ
  pub start_value : Rgb
  pub stop_value : Rgb
  pub initialized : Bool
  pub change_time : ℕ

pub record Fade : Type 0 where
  pub period : ℕ
  pub start_value : Rgb
  pub stop_value : Rgb
  pub flags : ℕ
  pub start_time : Option ℕ

pub record Sequence : Type 0 where
  pub steps : List SeqStep
  pub current : ℕ
  pub next_change : Option ℕ

pub data Program : Type 0 where
  blink : Blink → Program
  timed_change : TimedChange → Program
  fade : Fade → Program
  sequence : Sequence → Program

-- A call of `tick`: its result or exception, and the program and its target behind it.
abbrev pub Ticked : Type 0 → Type 0
Ticked P = Result Bool × P × Target

-- The end of most branches: a write, and what the program becomes if it raises and if not.
abbrev pub written : {P : Type 0} → P → P → Target → Result Target → Ticked P
written failed done t (err e) = (err e, failed, t)
written failed done t (ok t') = (ok true, done, t')

-- `BlinkProgram.tick`
unfoldable pub blink_tick : ℕ → Blink → Target → Ticked Blink
unfolding set_target
blink_tick now p t =
    if not p.initialized
    then (let p' : Blink = record p {
      initialized = true;
      on = true;
      next_change = now + p.on_period;
    } in
        written p' p' t (set_target p.on_value t))
    else (if ltb now p.next_change
        then (ok false, p, t)
        else (if p.on
            then written p (record p { on = false; next_change = p.next_change + p.off_period }) t
                (set_target p.off_value t)
            else written p (record p { on = true; next_change = p.next_change + p.on_period }) t
                (set_target p.on_value t)))

-- `TimedChangeProgram.tick`
unfoldable pub timed_change_tick : ℕ → TimedChange → Target → Ticked TimedChange
unfolding set_target
timed_change_tick now p t =
    if not p.initialized
    then (let p' : TimedChange = record p {
      initialized = true;
      change_time = now + p.change_period;
    } in
        written p' p' t (set_target p.start_value t))
    else (if ltb now p.change_time
        then (ok false, p, t)
        else written p (record p { change_time = now + p.change_period }) t
            (set_target p.stop_value t))

-- One channel: `(stop * fraction + start * (255 - fraction)) // 255`
unfoldable pub mix : ℕ → ℕ → ℕ → ℕ
mix fraction start stop = (stop * fraction + start * (255 - fraction)) / 255

unfoldable pub mix_rgb : ℕ → Rgb → Rgb → Rgb
unfolding mix
mix_rgb fraction (r, g, b) (r', g', b') = (mix fraction r r', mix fraction g g', mix fraction b b')

-- `min(255, int(elapsed * 255 / period))`
unfoldable pub ratio : ℕ → ℕ → ℕ
ratio elapsed period = min 255 (elapsed * 255 / period)

-- The fraction and the start time of one tick, from `elapsed`, which is not negative.
unfoldable pub fade_phase : ℕ → ℕ → ℕ → ℕ → ℕ × ℕ
unfolding ratio
fade_phase flags period now start =
    let elapsed = now - start in
    let fraction = if period == 0 then 255 else ratio elapsed period in
    if flags % 2 == 1
    then (if leb (period * 2) elapsed
        then (0, now)
        else (if leb period elapsed
            then (255 - ratio (elapsed - period) period, start)
            else (fraction, start)))
    else (fraction, start)

abbrev pub started : Option ℕ → ℕ → ℕ
started none now = now
started (some t) now = t

-- One channel for the fraction -(q): the quotient is rounded down.
unfoldable pub mix_before : ℕ → ℕ → ℕ → ℤ
mix_before q start stop =
    let up = start * (255 + q) in
    let down = stop * q in
    if leb down up then pos ((up - down) / 255) else negsuc ((down - up + 254) / 255 - 1)

unfoldable pub set_before : ℕ → Rgb → Rgb → Target → Result Target
unfolding mix_before
set_before q (r, g, b) (r', g', b') (one o) =
    ok (one (set_ints (mix_before q r r') (mix_before q g g') (mix_before q b b') o))
set_before q start stop (many os) = err attribute_error

-- A tick for a time before `start`: `elapsed` is negative, and `int(…)` rounds towards zero.
unfoldable pub fade_before : ℕ → ℕ → Fade → Target → Result Target
unfolding set_before mix_rgb set_target
fade_before now start p t =
    if p.period == 0
    then set_target (mix_rgb 255 p.start_value p.stop_value) t
    else set_before ((start - now) * 255 / p.period) p.start_value p.stop_value t

-- `FadeProgram.tick`
unfoldable pub fade_tick : ℕ → Fade → Target → Ticked Fade
unfolding fade_phase fade_before mix_rgb set_target
fade_tick now p t =
    let begun = started p.start_time now in
    let (fraction, start) = fade_phase p.flags p.period now begun in
    let p' : Fade = record p { start_time = some start } in
    if ltb now begun
    then written p p t (fade_before now begun p t)
    else written p' p' t (set_target (mix_rgb fraction p.start_value p.stop_value) t)

-- The step `self.steps[i]` is set going: its output is lit, and its end is noted.
unfoldable pub begin_step : ℕ → ℕ → Sequence → Target → Ticked Sequence
unfolding set_at
begin_step now i p t = elim (get_elem? p.steps i) [
  | none ↦ (err index_error, p, t)
  | some (out_idx, duration, value) ↦
      written p (record p { next_change = some (now + duration) }) t
        (set_at out_idx (value, value, value) t)
]

-- The step `self.steps[self._current]` is switched off, and the next one is set going.
unfoldable pub next_step : ℕ → Sequence → Target → Ticked Sequence
unfolding begin_step set_at
next_step now p t = elim (get_elem? p.steps p.current) [
  | none ↦ (err index_error, p, t)
  | some (prev_idx, _, _) ↦ elim (set_at prev_idx (0, 0, 0) t) [
    | err e ↦ (err e, p, t)
    | ok t' ↦
        (let i = (p.current + 1) % length p.steps in begin_step now i (record p { current = i }) t')
  ]
]

-- `SequenceProgram.tick`
unfoldable pub sequence_tick : ℕ → Sequence → Target → Ticked Sequence
unfolding begin_step next_step
sequence_tick now p t = elim p.next_change [
  | none ↦ begin_step now 0 p t
  | some next ↦ if ltb now next then (ok false, p, t) else next_step now p t
]

abbrev pub rewrap : {P : Type 0} → (P → Program) → Ticked P → Ticked Program
rewrap f (r, p, t) = (r, f p, t)

-- `prog.tick(now_ms, …)`
unfoldable pub tick : ℕ → Program → Target → Ticked Program
unfolding blink_tick timed_change_tick fade_tick sequence_tick
tick now (blink p) t = rewrap blink (blink_tick now p t)
tick now (timed_change p) t = rewrap timed_change (timed_change_tick now p t)
tick now (fade p) t = rewrap fade (fade_tick now p t)
tick now (sequence p) t = rewrap sequence (sequence_tick now p t)
