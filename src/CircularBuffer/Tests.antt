-- ===== src/CircularBuffer/Tests.antt =====
-- Circular buffers of two elements.
use hmtl.Prelude.{last_n, ℕ, ◌≡◌, refl, [], ◌∷◌, arith}
use hmtl.CircularBuffer.{CircularBuffer, new}
use hmtl.CircularBuffer.Threads.{
  trying, dropping, raised, Shared, Reach, here, next, full, take, IsOrderly, Reach-IsOrderly,
  put_raises,
}
use hmtl.CircularBuffer.History.{put_all, put_all-new}

abbrev two : CircularBuffer ℕ
two = record { limit = 2; items = 7 ∷ 8 ∷ [] }

abbrev single : CircularBuffer ℕ
single = record { limit = 2; items = 7 ∷ [] }

put_all-new_example : (put_all {A = ℕ} (1 ∷ 2 ∷ 3 ∷ []) (new 2)).items ≡ last_n 2 (1 ∷ 2 ∷ 3 ∷ [])
put_all-new_example = put_all-new 2 (1 ∷ 2 ∷ 3 ∷ []) (omega arith)

abbrev both_full : Shared ℕ
both_full = record {
  limit = 2;
  items = 7 ∷ 8 ∷ [];
  putter = trying 9;
  gone = [];
  accepted = 7 ∷ 8 ∷ [];
  called = 7 ∷ 8 ∷ 9 ∷ [];
}

abbrev full_seen : Shared ℕ
full_seen = record both_full { putter = dropping 9 }

abbrev taken : Shared ℕ
taken = record full_seen { items = 8 ∷ []; gone = 7 ∷ [] }

Reach-IsOrderly_example : IsOrderly taken
Reach-IsOrderly_example =
    Reach-IsOrderly {s = both_full} {t = taken} (omega arith, omega arith, refl, refl)
      (next (next here (full 9 both_full refl refl)) (take 7 (8 ∷ []) full_seen refl))

put_raises_example : (t : Shared ℕ) × Reach both_full t × (t.putter ≡ raised 9)
put_raises_example = put_raises 9 both_full refl refl
