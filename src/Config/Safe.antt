-- ===== src/Config/Safe.antt =====
-- Calls that raise for a value out of range at most.
use hmtl.Prelude.{
  ℕ, ◌*◌, ◌≡◌, refl, List, [], ◌∷◌, Bytes, length, Option, none, some, Bool, true, false, ◌&&◌,
  Result, ok, err, Error, struct_error, exception, ◌>>=◌, arith, ltb, Bool-cases, inl, inr,
  if◌then◌else◌,
}
use Prim.Native.Nat.{bit_or}
use hmtl.Struct.{Code, byte, short, long, pad, pack}
use hmtl.Protocol.Messages.{three}
use hmtl.Config.Words.{ℤ, pos, negsuc, short_word}
use hmtl.Config.Json.{check_required, check_length, lookup, combine}

-- An exception that says that a value is out of range or a type cannot be sent.
abbrev pub IsMild : Error → Type 0
IsMild struct_error = Unit {0}
IsMild exception = Unit {0}
IsMild _ = ⊥

-- A value, or a mild exception.
abbrev pub IsSafe {ℓ} : {A : Type ℓ} → Result A → Type 0
IsSafe (ok a) = Unit {0}
IsSafe (err e) = IsMild e

pub bind-IsSafe {ℓ κ} :
    {A : Type ℓ} {B : Type κ} (m : Result A) (f : A → Result B)
    → IsSafe m
    → ((a : A) → IsSafe (f a))
    → IsSafe (m >>= f)
bind-IsSafe (ok a) f h k = k a
bind-IsSafe (err e) f h k = h

pub if-IsSafe : (b : Bool) (x : Bytes) → IsSafe (if b then ok x else err struct_error)
if-IsSafe true x = tt
if-IsSafe false x = tt

pub pack-IsSafe : (cs : List Code) (vs : List ℕ) → IsSafe (pack cs vs)
unfolding pack
pack-IsSafe [] [] = tt
pack-IsSafe [] (v ∷ vs) = tt
pack-IsSafe (pad ∷ cs) vs = bind-IsSafe (pack cs vs) _ (pack-IsSafe cs vs) (λ r. tt)
pack-IsSafe (byte ∷ cs) [] = tt
pack-IsSafe (byte ∷ cs) (v ∷ vs) =
    bind-IsSafe (pack cs vs) _ (pack-IsSafe cs vs) (λ r. if-IsSafe _ _)
pack-IsSafe (short ∷ cs) [] = tt
pack-IsSafe (short ∷ cs) (v ∷ vs) =
    bind-IsSafe (pack cs vs) _ (pack-IsSafe cs vs) (λ r. if-IsSafe _ _)
pack-IsSafe (long ∷ cs) [] = tt
pack-IsSafe (long ∷ cs) (v ∷ vs) =
    bind-IsSafe (pack cs vs) _ (pack-IsSafe cs vs) (λ r. if-IsSafe _ _)

pub lookup-IsSafe {ℓ} : {A : Type ℓ} (o : Option A) → check_required o ≡ true → IsSafe (lookup o)
lookup-IsSafe none h = cc
lookup-IsSafe (some a) h = tt

pub three-IsSafe : (o : Option (List ℕ)) → check_length o 3 ≡ true → IsSafe (lookup o >>= three)
unfolding three
three-IsSafe none h = cc
three-IsSafe (some []) h = absurd (ground arith)
three-IsSafe (some (a ∷ [])) h = absurd (ground arith)
three-IsSafe (some (a ∷ b ∷ [])) h = absurd (ground arith)
three-IsSafe (some (a ∷ b ∷ c ∷ rest)) h = tt

pub short_word-IsSafe : (v : ℤ) → IsSafe (short_word v)
unfolding short_word
short_word-IsSafe (pos n) = elim (Bool-cases (ltb n 0x8000)) [ inl h ↦ rw h tt | inr h ↦ rw h tt ]
short_word-IsSafe (negsuc n) = elim (Bool-cases (ltb n 0x8000)) [
  | inl h ↦ rw h tt
  | inr h ↦ rw h tt
]

pub and_true : (a b : Bool) → a && b ≡ true → (a ≡ true) × (b ≡ true)
and_true true b h = (refl, h)
and_true false b h = cc

pub combine_total :
    (ts rs : List ℕ) → length ts ≡ length rs → (xs : List ℕ) × (combine ts rs ≡ ok xs)
unfolding combine
combine_total [] rs h = ([], refl)
combine_total (t ∷ ts) [] h = absurd (omega arith)
combine_total (t ∷ ts) (r ∷ rs) h =
    let (xs, e) = combine_total ts rs (omega arith) in (bit_or (r * 16) t ∷ xs, rw e refl)

pub check_some :
    (o : Option (List ℕ)) (n : ℕ)
    → check_length o n ≡ true
    → (xs : List ℕ) × (o ≡ some xs) × (length xs ≡ n)
check_some none n h = cc
check_some (some xs) n h = (xs, refl, ground arith)
