-- ===== src/Prelude/Last.antt =====
-- The last elements of a list, and equality of byte strings.
use Prim.Native.Nat.{ℕ, zero, suc, ◌-◌, ◌≤◌}
use mathlib.Core.Path.{◌≡◌, refl, sym, ap, ◌∙◌}
use mathlib.Core.Bool.{Bool, true, false, ◌&&◌}
use mathlib.Core.List.{List, [], ◌∷◌, ◌++◌, append_assoc}
use native.Mathlib.Omega.{arith}
use native.Mathlib.Decide.{dec_le}
use hmtl.Prelude.Tests.{◌==◌}
use hmtl.Prelude.Lists.{Bytes, length, drop, length-append, length-drop}

-- `a == b` of two byte strings.
abbrev pub bytes_eq : Bytes → Bytes → Bool
bytes_eq [] [] = true
bytes_eq [] (b ∷ bs) = false
bytes_eq (a ∷ as') [] = false
bytes_eq (a ∷ as') (b ∷ bs) = (a == b) && bytes_eq as' bs

pub bytes_eq_self : (bs : Bytes) → bytes_eq bs bs ≡ true
bytes_eq_self [] = refl
bytes_eq_self (b ∷ bs) = ground (arith, bytes_eq_self bs)

module _ {ℓ} {A : Type ℓ} where
  -- The last `n` elements.
  abbrev pub last_n : ℕ → List A → List A
  last_n n xs = drop (length xs - n) xs

  drop-append_ge :
      (m : ℕ) (us vs : List A) → length us ≤ m → drop m (us ++ vs) ≡ drop (m - length us) vs
  drop-append_ge m [] vs h = let e : m - 0 ≡ m = omega arith in rw e refl
  drop-append_ge zero (u ∷ us) vs h = absurd (omega arith)
  drop-append_ge (suc m) (u ∷ us) vs h =
      let e : suc m - suc (length us) ≡ m - length us = omega arith in
      drop-append_ge m us vs (omega arith) ∙ rw e

  -- What stands before the last `n` elements does not count.
  pub last_n-append : (n : ℕ) (us vs : List A) → n ≤ length vs → last_n n (us ++ vs) ≡ last_n n vs
  last_n-append n us vs h =
      let e : length (us ++ vs) - n - length us ≡ length vs - n =
        omega (arith, length-append us vs) in
      drop-append_ge (length (us ++ vs) - n) us vs (omega (arith, length-append us vs)) ∙ rw e

  front : ℕ → List A → List A
  front zero xs = []
  front (suc k) [] = []
  front (suc k) (x ∷ xs) = x ∷ front k xs

  front-drop : (k : ℕ) (xs : List A) → front k xs ++ drop k xs ≡ xs
  unfolding front
  front-drop zero xs = refl
  front-drop (suc k) [] = refl
  front-drop (suc k) (x ∷ xs) = ap (λ (zs : List A). x ∷ zs) (front-drop k xs)

  -- What is not among the last `n` elements need not be kept to find the last `n` later on.
  pub last_n-last_n : (n : ℕ) (xs ys : List A) → last_n n (last_n n xs ++ ys) ≡ last_n n (xs ++ ys)
  last_n-last_n n xs ys = elim (dec_le n (length xs)) [
    | yes h ↦
        let k : ℕ = length xs - n in
        let whole : front k xs ++ (drop k xs ++ ys) ≡ xs ++ ys =
          sym (append_assoc (front k xs) (drop k xs) ys)
          ∙ ap (λ (l : List A). l ++ ys) (front-drop k xs) in
        sym (
          last_n-append n (front k xs) (drop k xs ++ ys)
            (omega (arith, length-append (drop k xs) ys, length-drop k xs)))
        ∙ ap (λ (l : List A). last_n n l) whole
    | no h ↦ let e : length xs - n ≡ 0 = omega arith in rw e refl
  ]
