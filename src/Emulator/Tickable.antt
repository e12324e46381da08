-- ===== src/Emulator/Tickable.antt =====
-- Devices of python/hmtl/emulator/emulator.py whose programs stand where their `tick` can run: what
-- `_run_programs` relies on, and `_install_program` does not look at.
pub mod Ticking
pub mod Running
pub mod Placing
pub mod Reaching
use hmtl.Prelude.{
  ℕ, zero, suc, ◌<◌, ◌≤◌, ◌≡◌, ◌≢◌, refl, List, [], ◌∷◌, length, All, Option, none, some, get_elem?,
  set, Result, ok, err, ◌∙◌, ap,
}
use hmtl.Emulator.Programs.{Program, blink, timed_change, fade, sequence, Sequence}
use hmtl.Emulator.Device.{Emulator}
use hmtl.Emulator.Sequences.{IsRunnable}

-- A program whose `tick` takes a single output.
abbrev pub IsSingle : Program → Type 0
IsSingle (blink p) = Unit
IsSingle (timed_change p) = Unit
IsSingle (fade p) = Unit
IsSingle (sequence q) = ⊥

-- A slot of an output is empty or refers to such a program.
abbrev pub SlotFits : List Program → Option ℕ → Type 0
SlotFits heap none = Unit
SlotFits heap (some r) = (p : Program) × (get_elem? heap r ≡ some p) × IsSingle p

-- The slot of the index 255 is empty or refers to a sequence that can run on `n` outputs.
abbrev pub SequenceFits : ℕ → List Program → Option ℕ → Type 0
SequenceFits n heap none = Unit
SequenceFits n heap (some r) =
    (q : Sequence) × (get_elem? heap r ≡ some (sequence q)) × IsRunnable n q

pub record IsTickable (em : Emulator) : Type 0 where
  pub slots_fit : All (SlotFits em.heap) em.programs
  pub sequence_fits : SequenceFits (length em.outputs) em.heap em.no_output_program
  pub one_each : length em.programs ≡ length em.outputs

-- In `em'` every slot still fits that did in `em`, and the slots are the same.
pub record Keeps (em em' : Emulator) : Type 0 where
  pub keeps_slot : (slot : Option ℕ) → SlotFits em.heap slot → SlotFits em'.heap slot
  pub keeps_sequence :
      (n : ℕ) (slot : Option ℕ) → SequenceFits n em.heap slot → SequenceFits n em'.heap slot
  pub same_programs : em'.programs ≡ em.programs
  pub same_sequence : em'.no_output_program ≡ em.no_output_program
  pub same_length : length em'.outputs ≡ length em.outputs

pub Keeps-refl : (em : Emulator) → Keeps em em
Keeps-refl em = record {
  keeps_slot = λ slot h. h;
  keeps_sequence = λ n slot h. h;
  same_programs = refl;
  same_sequence = refl;
  same_length = refl;
}

pub Keeps-trans : (em fm gm : Emulator) → Keeps em fm → Keeps fm gm → Keeps em gm
Keeps-trans em fm gm h k = record {
  keeps_slot = λ slot f. k.keeps_slot slot (h.keeps_slot slot f);
  keeps_sequence = λ n slot f. k.keeps_sequence n slot (h.keeps_sequence n slot f);
  same_programs = k.same_programs ∙ h.same_programs;
  same_sequence = k.same_sequence ∙ h.same_sequence;
  same_length = k.same_length ∙ h.same_length;
}

pub All-imp {ℓ κ} :
    {A : Type ℓ} (P Q : A → Type κ) (xs : List A) → ((a : A) → P a → Q a) → All P xs → All Q xs
All-imp P Q [] f h = h
All-imp P Q (x ∷ xs) f h = (f x h.0, All-imp P Q xs f h.1)

pub Keeps-IsTickable : (em em' : Emulator) → Keeps em em' → IsTickable em → IsTickable em'
Keeps-IsTickable em em' k h = record {
  slots_fit =
      rw k.same_programs
        (All-imp (SlotFits em.heap) (SlotFits em'.heap) em.programs k.keeps_slot h.slots_fit);
  sequence_fits =
      rw (k.same_length, k.same_sequence)
        (k.keeps_sequence (length em.outputs) em.no_output_program h.sequence_fits);
  one_each = rw (k.same_programs, k.same_length) h.one_each;
}

-- A write to one object of the heap: what holds of the old and of the new one holds of each.
pub get_elem?-set_all {ℓ κ} :
    {A : Type ℓ} (P : A → Type κ) (xs : List A) (r i : ℕ) (x y : A)
    → get_elem? xs i ≡ some x
    → P x
    → P y
    → (z : A) × (get_elem? (set xs r y) i ≡ some z) × P z
get_elem?-set_all P [] r i x y e h k = cc
get_elem?-set_all P (a ∷ xs) zero zero x y e h k = (y, refl, k)
get_elem?-set_all P (a ∷ xs) zero (suc i) x y e h k = (x, e, h)
get_elem?-set_all P (a ∷ xs) (suc r) zero x y e h k = (x, e, h)
get_elem?-set_all P (a ∷ xs) (suc r) (suc i) x y e h k = get_elem?-set_all P xs r i x y e h k

-- A write leaves the other objects as they are.
pub get_elem?-set_other {ℓ} :
    {A : Type ℓ} (xs : List A) (r i : ℕ) (y : A) → r ≢ i → get_elem? (set xs r y) i ≡ get_elem? xs i
get_elem?-set_other [] r i y n = refl
get_elem?-set_other (a ∷ xs) zero zero y n = absurd (n refl)
get_elem?-set_other (a ∷ xs) zero (suc i) y n = refl
get_elem?-set_other (a ∷ xs) (suc r) zero y n = refl
get_elem?-set_other (a ∷ xs) (suc r) (suc i) y n = get_elem?-set_other xs r i y (λ e. n (ap suc e))

pub get_elem?-set_self {ℓ} :
    {A : Type ℓ} (xs : List A) (i : ℕ) (x y : A)
    → get_elem? xs i ≡ some x
    → get_elem? (set xs i y) i ≡ some y
get_elem?-set_self [] i x y e = cc
get_elem?-set_self (a ∷ xs) zero x y e = refl
get_elem?-set_self (a ∷ xs) (suc i) x y e = get_elem?-set_self xs i x y e
