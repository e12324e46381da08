-- ===== src/CircularBuffer.antt =====
-- `class CircularBuffer` of python/hmtl/CircularBuffer.py, over Python's `queue.Queue`.
-- Here one thread at a time: a call is not interrupted. CircularBuffer/Threads has `put` step by
-- step, with a second thread.
pub mod History
pub mod Threads
mod Tests
use hmtl.Prelude.{
  ℕ, List, [], ◌∷◌, ◌++◌, length, Option, none, some, Bool, ltb, leb, ◌&&◌, if◌then◌else◌,
}

-- `Queue(limit)`, oldest element first.
pub record CircularBuffer (A : Type 0) : Type 0 where
  pub limit : ℕ
  pub items : List A

module _ {A : Type 0} where
  abbrev pub new : ℕ → CircularBuffer A
  new limit = record { limit = limit; items = [] }

  -- `Queue.put` raises `Full` here; a limit of 0 means none.
  abbrev pub is_full : ℕ → List A → Bool
  is_full limit xs = ltb 0 limit && leb limit (length xs)

  -- The loop of `put`: each `Full` drops the oldest element and tries again.
  unfoldable pub put_items : ℕ → A → List A → List A
  put_items limit elem [] = elem ∷ []
  put_items limit elem (x ∷ xs) =
      if is_full limit (x ∷ xs) then put_items limit elem xs else (x ∷ xs) ++ (elem ∷ [])

  unfoldable pub put : A → CircularBuffer A → CircularBuffer A
  unfolding put_items
  put elem b = record { limit = b.limit; items = put_items b.limit elem b.items }

  -- `get` and `__next__`: the oldest element, or `None` (`StopIteration`) where none arrives.
  unfoldable pub get_items : List A → Option A × List A
  get_items [] = (none, [])
  get_items (x ∷ xs) = (some x, xs)

  unfoldable pub get : CircularBuffer A → Option A × CircularBuffer A
  unfolding get_items
  get b = let (x, xs) = get_items b.items in (x, record { limit = b.limit; items = xs })

  -- The loop of `clear`: `get` until the queue is empty.
  clear_items : List A → List A
  clear_items [] = []
  clear_items (x ∷ xs) = clear_items xs

  unfoldable pub clear : CircularBuffer A → CircularBuffer A
  unfolding clear_items
  clear b = record { limit = b.limit; items = clear_items b.items }

  -- `__len__`
  unfoldable pub size : CircularBuffer A → ℕ
  size b = length b.items
