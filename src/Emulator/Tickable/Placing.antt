-- ===== src/Emulator/Tickable/Placing.antt =====
-- What `_install_program` and the other calls of `class HMTLEmulator` of
-- python/hmtl/emulator/emulator.py do to a device whose programs stand where they can run.
use hmtl.Prelude.{
  ℕ, zero, suc, ◌≡◌, ◌≢◌, refl, ap, ◌∙◌, List, [], ◌∷◌, ◌++◌, length, length-map, length-set,
  length-replicate, All, replicate, set, Option, none, some, Option-cases, get_elem?,
  get_elem?-append_last, Bool-cases, inl, inr, ◌==◌, ltb, Bytes, Result, ok, err, ◌>>=◌, arith,
}
use hmtl.Emulator.Outputs
use hmtl.Emulator.Outputs.{Output, Rgb, set_value, set_rgb, OutputConfig}
use hmtl.Emulator.Programs.{Program, blink, timed_change, fade, sequence}
use hmtl.Emulator.Device.{
  Emulator, make_outputs, new_emulator, update_at, on_outputs, set_output_value, set_output_rgb,
  assign, parse_program, install_program, no_output, all_output,
}
use hmtl.Emulator.Ticks.{reset}
use hmtl.Emulator.Sequences.{IsRunnable}
use hmtl.Emulator.Tickable.{IsSingle, SlotFits, SequenceFits, IsTickable, All-imp}

abbrev IsSequence : ℕ → Program → Type 0
IsSequence n (blink p) = ⊥
IsSequence n (timed_change p) = ⊥
IsSequence n (fade p) = ⊥
IsSequence n (sequence q) = IsRunnable n q

-- A program for the index `i` of a device with `n` outputs: a sequence that can run on them for
-- 255, and any other program for any other index.
abbrev pub IsPlaced : ℕ → ℕ → Program → Type 0
IsPlaced n i p = (i ≡ no_output → IsSequence n p) × (i ≢ no_output → IsSingle p)

SequenceFits-intro :
    (n : ℕ) (heap : List Program) (r : ℕ) (p : Program)
    → get_elem? heap r ≡ some p
    → IsSequence n p
    → SequenceFits n heap (some r)
SequenceFits-intro n heap r (blink p) e h = absurd h
SequenceFits-intro n heap r (timed_change p) e h = absurd h
SequenceFits-intro n heap r (fade p) e h = absurd h
SequenceFits-intro n heap r (sequence q) e h = (q, e, h)

All-replicate {ℓ κ} : {A : Type ℓ} (P : A → Type κ) (n : ℕ) (a : A) → P a → All P (replicate n a)
All-replicate P zero a h = tt
All-replicate P (suc n) a h = (h, All-replicate P n a h)

All-set {ℓ κ} :
    {A : Type ℓ} (P : A → Type κ) (xs : List A) (i : ℕ) (a : A)
    → All P xs
    → P a
    → All P (set xs i a)
All-set P [] i a h k = tt
All-set P (x ∷ xs) zero a h k = (k, h.1)
All-set P (x ∷ xs) (suc i) a h k = (h.0, All-set P xs i a h.1 k)

assign-IsTickable :
    (slot : Option ℕ) (i : ℕ) (em : Emulator)
    → IsTickable em
    → (i ≡ no_output → SequenceFits (length em.outputs) em.heap slot)
    → (i ≢ no_output → SlotFits em.heap slot)
    → IsTickable (assign slot i em)
unfolding assign
assign-IsTickable slot i em h seq one = elim (Bool-cases (i == no_output)) [
  | inl e ↦ rw e (record {
    slots_fit = h.slots_fit;
    sequence_fits = seq (ground arith);
    one_each = h.one_each;
  })
  | inr e ↦
      let fits : SlotFits em.heap slot = one (ground arith) in
      elim (Bool-cases (i == all_output)) [
        | inl f ↦
            rw (e, f)
              (record {
                slots_fit = All-replicate (SlotFits em.heap) (length em.outputs) slot fits;
                sequence_fits = h.sequence_fits;
                one_each = length-replicate (length em.outputs) slot;
              })
        | inr f ↦ elim (Bool-cases (ltb i (length em.outputs))) [
          | inl g ↦
              rw (e, f, g)
                (record {
                  slots_fit = All-set (SlotFits em.heap) em.programs i slot h.slots_fit fits;
                  sequence_fits = h.sequence_fits;
                  one_each = length-set em.programs i slot ∙ h.one_each;
                })
          | inr g ↦ rw (e, f, g) h
        ]
      ]
]

get_elem?-append {ℓ} :
    {A : Type ℓ} (xs ys : List A) (i : ℕ) (x : A)
    → get_elem? xs i ≡ some x
    → get_elem? (xs ++ ys) i ≡ some x
get_elem?-append [] ys i x e = cc
get_elem?-append (a ∷ xs) ys zero x e = e
get_elem?-append (a ∷ xs) ys (suc i) x e = get_elem?-append xs ys i x e

SlotFits-append :
    (heap more : List Program) (slot : Option ℕ) → SlotFits heap slot → SlotFits (heap ++ more) slot
SlotFits-append heap more none h = tt
SlotFits-append heap more (some r) (p, e, h) = (p, get_elem?-append heap more r p e, h)

SequenceFits-append :
    (n : ℕ) (heap more : List Program) (slot : Option ℕ)
    → SequenceFits n heap slot
    → SequenceFits n (heap ++ more) slot
SequenceFits-append n heap more none h = tt
SequenceFits-append n heap more (some r) (q, e, h) =
    (q, get_elem?-append heap more r (sequence q) e, h)

abbrev grown : Program → Emulator → Emulator
grown p em = record em { heap = em.heap ++ (p ∷ []) }

grown-IsTickable : (p : Program) (em : Emulator) → IsTickable em → IsTickable (grown p em)
grown-IsTickable p em h = record {
  slots_fit =
      All-imp (SlotFits em.heap) (SlotFits (em.heap ++ (p ∷ []))) em.programs
        (SlotFits-append em.heap (p ∷ [])) h.slots_fit;
  sequence_fits =
      SequenceFits-append (length em.outputs) em.heap (p ∷ []) em.no_output_program h.sequence_fits;
  one_each = h.one_each;
}

assign_new-IsTickable :
    (i : ℕ) (p : Program) (em : Emulator)
    → IsTickable em
    → IsPlaced (length em.outputs) i p
    → IsTickable (assign (some (length em.heap)) i (grown p em))
assign_new-IsTickable i p em h (seq, one) =
    let there = get_elem?-append_last em.heap p in
    assign-IsTickable (some (length em.heap)) i (grown p em) (grown-IsTickable p em h)
      (λ e.
        SequenceFits-intro (length em.outputs) (em.heap ++ (p ∷ [])) (length em.heap) p there
          (seq e))
      (λ n. (p, there, one n))

-- A program that is sent to an index where it can run, one that cancels, and one that does not
-- parse leave the device one whose programs can run.
pub install_program-IsTickable :
    (i t : ℕ) (bs : Bytes) (em : Emulator)
    → IsTickable em
    → ((p : Program) → parse_program t bs ≡ some p → IsPlaced (length em.outputs) i p)
    → IsTickable (install_program i t bs em)
unfolding install_program
install_program-IsTickable i t bs em h placed = elim (Bool-cases (t == 0x00)) [
  | inl e ↦ rw e (assign-IsTickable none i em h (λ e. tt) (λ n. tt))
  | inr e ↦ elim (Option-cases (parse_program t bs)) [
    | inl f ↦ rw (e, f) h
    | inr (p, f) ↦ rw (e, f) (assign_new-IsTickable i p em h (placed p f))
  ]
]

length-update_at {ℓ} :
    {A : Type ℓ} (f : A → A) (i : ℕ) (xs : List A) → length (update_at f i xs) ≡ length xs
length-update_at f i [] = refl
length-update_at f zero (x ∷ xs) = refl
length-update_at f (suc i) (x ∷ xs) = ap suc (length-update_at f i xs)

length-on_outputs :
    (f : Output → Output) (i : ℕ) (os : List Output) → length (on_outputs f i os) ≡ length os
unfolding on_outputs
length-on_outputs f i os = elim (Bool-cases (i == all_output)) [
  | inl e ↦ rw e (length-map f os)
  | inr e ↦ rw e (length-update_at f i os)
]

with_outputs-IsTickable :
    (os : List Output) (em : Emulator)
    → IsTickable em
    → length os ≡ length em.outputs
    → IsTickable (record em { outputs = os })
with_outputs-IsTickable os em h e = record {
  slots_fit = h.slots_fit;
  sequence_fits = rw e h.sequence_fits;
  one_each = rw e h.one_each;
}

pub set_output_value-IsTickable :
    (i v : ℕ) (em : Emulator) → IsTickable em → IsTickable (set_output_value i v em)
unfolding set_output_value
set_output_value-IsTickable i v em h =
    with_outputs-IsTickable (on_outputs (set_value v) i em.outputs) em h
      (length-on_outputs (set_value v) i em.outputs)

pub set_output_rgb-IsTickable :
    (i : ℕ) (c : Rgb) (em : Emulator) → IsTickable em → IsTickable (set_output_rgb i c em)
unfolding set_output_rgb
set_output_rgb-IsTickable i c em h =
    with_outputs-IsTickable (on_outputs (set_rgb c) i em.outputs) em h
      (length-on_outputs (set_rgb c) i em.outputs)

-- No program at all.
empty-IsTickable :
    (em : Emulator)
    → em.programs ≡ replicate (length em.outputs) none
    → em.no_output_program ≡ none
    → IsTickable em
empty-IsTickable em e f = record {
  slots_fit = rw e (All-replicate (SlotFits em.heap) (length em.outputs) none tt);
  sequence_fits = rw f tt;
  one_each = rw e (length-replicate (length em.outputs) none);
}

pub reset-IsTickable : (em : Emulator) → IsTickable (reset em)
unfolding reset
reset-IsTickable em =
    empty-IsTickable (reset em) (rw (length-map Outputs.reset em.outputs) refl) refl

abbrev Makes : Result Emulator → Type 0
Makes (err e) = Unit
Makes (ok em) = IsTickable em

Makes-bind :
    (made : Result (List Output)) (next : List Output → Result Emulator)
    → ((os : List Output) → Makes (next os))
    → Makes (made >>= next)
Makes-bind (err e) next h = tt
Makes-bind (ok os) next h = h os

Makes-ok : (made : Result Emulator) (em : Emulator) → Makes made → made ≡ ok em → IsTickable em
Makes-ok made em h e = rw e at h

pub new_emulator-IsTickable :
    (header_address : ℕ) (configs : List OutputConfig) (address : Option ℕ) (em : Emulator)
    → new_emulator header_address configs address ≡ ok em
    → IsTickable em
unfolding new_emulator
new_emulator-IsTickable header_address configs address em e =
    Makes-ok (new_emulator header_address configs address) em
      (Makes-bind (make_outputs configs) _ (λ os. empty-IsTickable _ refl refl)) e
