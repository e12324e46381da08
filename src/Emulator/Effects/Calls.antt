-- ===== src/Emulator/Effects/Calls.antt =====
-- What python/hmtl/emulator/emulator.py calls for a request, and that this is what it asks.
use hmtl.Prelude.{
  ℕ, zero, suc, ◌+◌, ◌%◌, ◌^◌, ◌<◌, ◌≤◌, ◌≡◌, ◌≢◌, refl, sym, ap, ◌∙◌, List, [], ◌∷◌, ◌++◌, map,
  replicate, set, length, Bool-cases, true, false, inl, inr, ltb, ◌==◌, Bytes, Option, Option-cases,
  none, some, Result, ok, err, arith,
}
use hmtl.Protocol.Frame.{
  Request, set_value, set_rgb, poll, dumpconfig, set_addr, run_program, blink, cancel, timed_change,
  generic, level, sound, fade, sparkle, circular, color, sequence,
}
use hmtl.Protocol.Programs.{generic_new}
use hmtl.Emulator.Outputs
use hmtl.Emulator.Outputs.{
  Rgb, Output, value_output, rgb_output, pixel_output, rs485_output, mpr121_output, int_output,
}
use hmtl.Emulator.Programs.{Program}
use hmtl.Emulator.Device.{
  Emulator, set_output_value, set_output_rgb, install_program, assign, no_output, on_outputs,
  update_at, parse_program,
}
use hmtl.Emulator.Payloads.{fade_of}
use hmtl.Emulator.Requests.{with_program}
use hmtl.Emulator.Effects.{
  colour, blink_of, timed_change_of, sequence_of, painted, dimmed, change_from, change_outputs,
  occupy, begin, run_block, act,
}

abbrev pub run_values : ℕ → ℕ → Result (List ℕ) → Emulator → Emulator
run_values o p (ok block) em = install_program o p block em
run_values o p (err e) em = em

-- The calls of the emulator for a request to it.
abbrev pub calls : Request → Emulator → Emulator
calls (set_value a o v) em = set_output_value o (v % 2 ^ 13) em
calls (set_rgb a o r g b) em = set_output_rgb o (r, g, b) em
calls (poll a) em = em
calls (dumpconfig a) em = em
calls (set_addr a d n) em = em
calls (run_program a o t d) em = install_program o t d em
calls (blink a o p v q w) em = with_program (blink_of p (colour v) q (colour w)) o em
calls (cancel a o) em = assign none o em
calls (timed_change a o p v w) em = with_program (timed_change_of p (colour v) (colour w)) o em
calls (generic a o p v) em = run_values o p (generic_new v) em
calls (level a o) em = em
calls (sound a o) em = em
calls (fade a o p) em =
    with_program (fade_of p.change_period (colour p.start_values) (colour p.stop_values) p.flags) o
      em
calls (sparkle a o p) em = em
calls (circular a o p) em = em
calls (color a o v s l) em = em
calls (sequence a s) em = with_program (sequence_of s) no_output em

set_rgb-painted : (c : Rgb) (o : Output) → Outputs.set_rgb c o ≡ painted c o
unfolding Outputs.set_rgb
set_rgb-painted c (value_output pin old) = refl
set_rgb-painted c (rgb_output pins old) = refl
set_rgb-painted c (pixel_output n old) = refl
set_rgb-painted c rs485_output = refl
set_rgb-painted c (mpr121_output touched) = refl
set_rgb-painted c (int_output o r g b) = set_rgb-painted c o

set_value-dimmed : (v : ℕ) (o : Output) → v < 2 ^ 13 → Outputs.set_value v o ≡ dimmed v o
unfolding Outputs.set_value
set_value-dimmed v (value_output pin old) h =
    let same : v % 2 ^ 13 ≡ v = omega arith in rw same refl
set_value-dimmed v (rgb_output pins old) h = refl
set_value-dimmed v (pixel_output n old) h = refl
set_value-dimmed v rs485_output h = refl
set_value-dimmed v (mpr121_output touched) h = refl
set_value-dimmed v (int_output o r g b) h = set_value-dimmed v o h

map-change_from {ℓ} :
    {A : Type ℓ} (f g : A → A) (position : ℕ) (xs : List A)
    → ((x : A) → f x ≡ g x)
    → map f xs ≡ change_from position g 254 xs
map-change_from f g position [] h = refl
map-change_from f g position (x ∷ xs) h = rw (h x, map-change_from f g (position + 1) xs h) refl

-- An index that was passed names nothing more.
change_from_passed {ℓ} :
    {A : Type ℓ} (g : A → A) (position i : ℕ) (xs : List A)
    → i ≢ 254
    → i < position
    → change_from position g i xs ≡ xs
change_from_passed g position i [] n h = refl
change_from_passed g position i (x ∷ xs) n h =
    let not_all : (i == 254) ≡ false = ground arith in
    let not_here : (i == position) ≡ false = ground arith in
    rw (not_all, not_here, change_from_passed g (position + 1) i xs n (omega arith)) refl

update_at-change_from {ℓ} :
    {A : Type ℓ} (f g : A → A) (position i : ℕ) (xs : List A)
    → ((x : A) → f x ≡ g x)
    → position + i ≢ 254
    → update_at f i xs ≡ change_from position g (position + i) xs
update_at-change_from f g position i [] h n = refl
update_at-change_from f g position zero (x ∷ xs) h n =
    let not_all : (position + 0 == 254) ≡ false = ground arith in
    let this : (position + 0 == position) ≡ true = ground arith in
    rw (not_all, this, h x, change_from_passed g (position + 1) (position + 0) xs n (omega arith))
      refl
update_at-change_from f g position (suc i) (x ∷ xs) h n =
    let not_all : (position + suc i == 254) ≡ false = ground arith in
    let later : (position + suc i == position) ≡ false = ground arith in
    let shift : position + suc i ≡ position + 1 + i = omega arith in
    let rest : update_at f i xs ≡ change_from (position + 1) g (position + suc i) xs =
      rw shift (update_at-change_from f g (position + 1) i xs h (omega arith)) in
    rw (not_all, later, rest) refl

on_outputs-change_from :
    (f g : Output → Output) (i : ℕ) (os : List Output)
    → ((o : Output) → f o ≡ g o)
    → on_outputs f i os ≡ change_from 0 g i os
unfolding on_outputs
on_outputs-change_from f g i os h = elim (Bool-cases (i == 254)) [
  | inl all ↦ let e : i ≡ 254 = ground arith in rw e (map-change_from f g 0 os h)
  | inr one ↦
      let n : i ≢ 254 = ground arith in
      let z : 0 + i ≡ i = omega arith in
      rw one (rw z at (update_at-change_from f g 0 i os h (omega arith)))
]

replicate-change_from {ℓ} :
    {A : Type ℓ} (a : A) (position : ℕ) (xs : List A)
    → replicate (length xs) a ≡ change_from position (λ (x : A). a) 254 xs
replicate-change_from a position [] = refl
replicate-change_from a position (x ∷ xs) = rw (replicate-change_from a (position + 1) xs) refl

update_at-set {ℓ} :
    {A : Type ℓ} (a : A) (i : ℕ) (xs : List A) → set xs i a ≡ update_at (λ (x : A). a) i xs
update_at-set a i [] = refl
update_at-set a zero (x ∷ xs) = refl
update_at-set a (suc i) (x ∷ xs) = rw (update_at-set a i xs) refl

update_at_out {ℓ} :
    {A : Type ℓ} (f : A → A) (i : ℕ) (xs : List A) → length xs ≤ i → update_at f i xs ≡ xs
update_at_out f i [] h = refl
update_at_out f zero (x ∷ xs) h = absurd (omega arith)
update_at_out f (suc i) (x ∷ xs) h = rw (update_at_out f i xs (omega arith)) refl

-- A slot for each output.
abbrev pub IsSlotted : Emulator → Type 0
IsSlotted em = length em.programs ≡ length em.outputs

assign-occupy :
    (slot : Option ℕ) (i : ℕ) (em : Emulator) → IsSlotted em → assign slot i em ≡ occupy slot i em
unfolding assign
assign-occupy slot i em h = elim (Bool-cases (i == 255)) [
  | inl own ↦ rw own refl
  | inr n ↦ elim (Bool-cases (i == 254)) [
    | inl all ↦
        let e : i ≡ 254 = ground arith in
        rw (e, ← h)
          (ap (λ (l : List (Option ℕ)). record em { programs = l })
            (replicate-change_from slot 0 em.programs))
    | inr one ↦
        let slots = em.programs in
        let z : 0 + i ≡ i = omega arith in
        let changed : update_at (λ (old : Option ℕ). slot) i slots
            ≡ change_from 0 (λ (old : Option ℕ). slot) i slots =
          rw z at (
            update_at-change_from (λ (old : Option ℕ). slot) (λ (old : Option ℕ). slot) 0 i slots
              (λ old. refl) (ground arith)) in
        elim (Bool-cases (ltb i (length em.outputs))) [
          | inl room ↦
              rw (n, one, room)
                (ap (λ (l : List (Option ℕ)). record em { programs = l })
                  (update_at-set slot i slots ∙ changed))
          | inr out ↦
              rw (n, one, out)
                (ap (λ (l : List (Option ℕ)). record em { programs = l })
                  (sym (update_at_out (λ (old : Option ℕ). slot) i slots (ground arith)) ∙ changed))
        ]
  ]
]

begins : (p : Program) (i : ℕ) (em : Emulator) → IsSlotted em → with_program p i em ≡ begin p i em
begins p i em h =
    assign-occupy (some (length em.heap)) i (record em { heap = em.heap ++ (p ∷ []) }) h

install_program-run_block :
    (i t : ℕ) (block : Bytes) (em : Emulator)
    → IsSlotted em
    → install_program i t block em ≡ run_block i t (ok block) em
unfolding install_program
install_program-run_block i t block em h = elim (Bool-cases (t == 0)) [
  | inl none_type ↦ rw none_type (assign-occupy none i em h)
  | inr n ↦ elim (Option-cases (parse_program t block)) [
    | inl unknown ↦ rw (n, unknown) refl
    | inr (p, e) ↦ rw (n, e) (begins p i em h)
  ]
]

run_values-run_block :
    (o p : ℕ) (r : Result (List ℕ)) (em : Emulator)
    → IsSlotted em
    → run_values o p r em ≡ run_block o p r em
run_values-run_block o p (ok block) em h = install_program-run_block o p block em h
run_values-run_block o p (err e) em h = refl

pub set_output_value-change :
    (v i : ℕ) (em : Emulator)
    → v < 2 ^ 13
    → set_output_value i v em ≡ change_outputs (dimmed v) i em
unfolding set_output_value
set_output_value-change v i em h =
    ap (λ (l : List Output). record em { outputs = l })
      (on_outputs-change_from (Outputs.set_value v) (dimmed v) i em.outputs
        (λ o. set_value-dimmed v o h))

pub set_output_rgb-change :
    (c : Rgb) (i : ℕ) (em : Emulator) → set_output_rgb i c em ≡ change_outputs (painted c) i em
unfolding set_output_rgb
set_output_rgb-change c i em =
    ap (λ (l : List Output). record em { outputs = l })
      (on_outputs-change_from (Outputs.set_rgb c) (painted c) i em.outputs (set_rgb-painted c))

-- The calls do what is asked.
pub calls-act : (q : Request) (em : Emulator) → IsSlotted em → calls q em ≡ act q em
calls-act (set_value a o v) em h = set_output_value-change (v % 2 ^ 13) o em (omega arith)
calls-act (set_rgb a o r g b) em h = set_output_rgb-change (r, g, b) o em
calls-act (poll a) em h = refl
calls-act (dumpconfig a) em h = refl
calls-act (set_addr a d n) em h = refl
calls-act (run_program a o t d) em h = install_program-run_block o t d em h
calls-act (blink a o p v q w) em h = begins (blink_of p (colour v) q (colour w)) o em h
calls-act (cancel a o) em h = assign-occupy none o em h
calls-act (timed_change a o p v w) em h = begins (timed_change_of p (colour v) (colour w)) o em h
calls-act (generic a o p v) em h = run_values-run_block o p (generic_new v) em h
calls-act (level a o) em h = refl
calls-act (sound a o) em h = refl
calls-act (fade a o p) em h = begins _ o em h
calls-act (sparkle a o p) em h = refl
calls-act (circular a o p) em h = refl
calls-act (color a o v s l) em h = refl
calls-act (sequence a s) em h = begins (sequence_of s) 255 em h
