-- ===== src/CircularBuffer/History.antt =====
-- A circular buffer against the list of all that was put into it.
use hmtl.Prelude.{
  ℕ, zero, suc, ◌-◌, ◌≤◌, ◌<◌, ◌≡◌, ◌∙◌, refl, sym, List, [], ◌∷◌, ◌++◌, length, drop,
  length-append, length-drop, last_n, append_assoc, append-nil, ap, arith, some,
}
use hmtl.CircularBuffer.{CircularBuffer, new, put_items, put, get}
use native.Mathlib.Decide.{dec_le}

module _ {A : Type 0} where
  -- Put one element after the other.
  abbrev pub put_all : List A → CircularBuffer A → CircularBuffer A
  put_all [] b = b
  put_all (x ∷ xs) b = put_all xs (put x b)

  -- The class's promise: a limit that is kept.
  abbrev pub IsBounded : CircularBuffer A → Type 0
  IsBounded b = (0 < b.limit) × (length b.items ≤ b.limit)

  put_items_room :
      (limit : ℕ) (elem : A) (xs : List A)
      → length xs < limit
      → put_items limit elem xs ≡ xs ++ (elem ∷ [])
  unfolding put_items
  put_items_room limit elem [] h = refl
  put_items_room limit elem (x ∷ xs) h = ground arith

  put_items_full :
      (limit : ℕ) (elem : A) (xs : List A)
      → 0 < limit
      → length xs ≡ limit
      → put_items limit elem xs ≡ drop 1 xs ++ (elem ∷ [])
  unfolding put_items
  put_items_full limit elem [] h e = absurd (omega arith)
  put_items_full limit elem (x ∷ xs) h e =
      ground (arith, put_items_room limit elem xs (omega arith))

  drop-append : (n : ℕ) (xs ys : List A) → n ≤ length xs → drop n (xs ++ ys) ≡ drop n xs ++ ys
  drop-append zero xs ys h = refl
  drop-append (suc n) [] ys h = absurd (omega arith)
  drop-append (suc n) (x ∷ xs) ys h = drop-append n xs ys (omega arith)

  drop-drop_one : (n : ℕ) (xs : List A) → drop 1 (drop n xs) ≡ drop (suc n) xs
  drop-drop_one zero [] = refl
  drop-drop_one zero (x ∷ xs) = refl
  drop-drop_one (suc n) [] = refl
  drop-drop_one (suc n) (x ∷ xs) = drop-drop_one n xs

  last_n_all : (n : ℕ) (xs : List A) → length xs ≤ n → last_n n xs ≡ xs
  last_n_all n xs h = let e : length xs - n ≡ 0 = omega arith in rw e

  last_n-append_room :
      (limit : ℕ) (elem : A) (hist : List A)
      → length hist < limit
      → put_items limit elem (last_n limit hist) ≡ last_n limit (hist ++ (elem ∷ []))
  last_n-append_room limit elem hist h = rw (last_n_all limit hist (omega arith)) (
      put_items_room limit elem hist h
      ∙ sym
          (last_n_all limit (hist ++ (elem ∷ [])) (omega (arith, length-append hist (elem ∷ [])))))

  last_n-append_full :
      (limit : ℕ) (elem : A) (hist : List A)
      → 0 < limit
      → limit ≤ length hist
      → put_items limit elem (last_n limit hist) ≡ last_n limit (hist ++ (elem ∷ []))
  last_n-append_full limit elem hist pos h =
      let n : ℕ = length hist - limit in
      let e : length (hist ++ (elem ∷ [])) - limit ≡ suc n =
        omega (arith, length-append hist (elem ∷ [])) in
      put_items_full limit elem (drop n hist) pos (omega (arith, length-drop n hist))
      ∙ rw (drop-drop_one n hist) (sym (rw e (drop-append (suc n) hist (elem ∷ []) (omega arith))))

  -- One `put`: the buffer goes on holding the last elements of what was put.
  put_items-last_n :
      (limit : ℕ) (elem : A) (hist : List A)
      → 0 < limit
      → put_items limit elem (last_n limit hist) ≡ last_n limit (hist ++ (elem ∷ []))
  put_items-last_n limit elem hist pos = elim (dec_le limit (length hist)) [
    | yes h ↦ last_n-append_full limit elem hist pos h
    | no h ↦ last_n-append_room limit elem hist (omega arith)
  ]

  put_all-last_n :
      (limit : ℕ) (xs hist : List A)
      → 0 < limit
      → put_all xs (record { limit = limit; items = last_n limit hist })
        ≡ record { limit = limit; items = last_n limit (hist ++ xs) }
  unfolding put
  put_all-last_n limit [] hist pos = rw append-nil
  put_all-last_n limit (x ∷ xs) hist pos =
      rw (put_items-last_n limit x hist pos)
        (put_all-last_n limit xs (hist ++ (x ∷ [])) pos ∙ rw append_assoc)

  pub put_all-new_buffer :
      (limit : ℕ) (xs : List A)
      → 0 < limit
      → put_all xs (new limit) ≡ record { limit = limit; items = last_n limit xs }
  put_all-new_buffer limit xs pos =
      let e : last_n limit [] ≡ [] = last_n_all limit [] (omega arith) in
      rw e at (put_all-last_n limit xs [] pos)

  -- Whatever is put into a new buffer with a positive limit, the buffer holds the last `limit`
  -- elements of it, in the order in which they were put.
  pub put_all-new :
      (limit : ℕ) (xs : List A) → 0 < limit → (put_all xs (new limit)).items ≡ last_n limit xs
  put_all-new limit xs pos =
      ap (λ (b : CircularBuffer A). b.items) (put_all-new_buffer limit xs pos)

  put_items-le :
      (limit : ℕ) (elem : A) (xs : List A)
      → 0 < limit
      → length xs ≤ limit
      → length (put_items limit elem xs) ≤ limit
  put_items-le limit elem xs pos h = elim (dec_le limit (length xs)) [
    | yes full ↦
        rw (put_items_full limit elem xs pos (omega arith))
          (omega (arith, length-append (drop 1 xs) (elem ∷ []), length-drop 1 xs))
    | no room ↦
        rw (put_items_room limit elem xs (omega arith))
          (omega (arith, length-append xs (elem ∷ [])))
  ]

  -- `put` keeps a positive limit, and as many elements as the limit at most.
  pub put-IsBounded : (x : A) (b : CircularBuffer A) → IsBounded b → IsBounded (put x b)
  unfolding put
  put-IsBounded x b (pos, h) = (pos, unfold put_items in put_items-le b.limit x b.items pos h)

  -- With room, and an element in the buffer, `put` and then `get` takes the oldest element and
  -- leaves the new one behind the others.
  pub get-put :
      (x y : A) (b : CircularBuffer A) (rest : List A)
      → b.items ≡ x ∷ rest
      → length b.items < b.limit
      → get (put y b) ≡ (some x, record { limit = b.limit; items = rest ++ (y ∷ []) })
  unfolding get put
  get-put x y b rest e h = rw (put_items_room b.limit y b.items h, e)
