-- ===== src/CircularBuffer/Threads.antt =====
-- `CircularBuffer.put` of python/hmtl/CircularBuffer.py step by step, while another thread takes
-- elements: the reader thread puts, and its client gets. A step is one call of the queue, which
-- holds the queue's lock.
use hmtl.Prelude.{
  ℕ, ◌≤◌, ◌<◌, ◌≡◌, inl, inr, refl, sym, ap, ◌∙◌, List, [], ◌∷◌, ◌++◌, length, append_assoc,
  append-nil, length-append, true, false, Bool-cases, arith,
}
use hmtl.CircularBuffer.{is_full, put_items}

-- Where the thread that puts stands: outside `put`, before `self.queue.put(elem, False)`, in the
-- handler of `Full` before `self.queue.get(False)`, or out of `put` by the `Empty` that this raised.
pub data Putter (A : Type 0) : Type 0 where
  idle : Putter A
  trying dropping raised : A → Putter A

-- The queue; and, for the record, what was taken out of it, what was ever put in, and what `put` was
-- ever called with, oldest first.
pub record Shared (A : Type 0) : Type 0 where
  pub limit : ℕ
  pub items : List A
  pub putter : Putter A
  pub gone : List A
  pub accepted : List A
  pub called : List A

module _ {A : Type 0} where
  pub data Step : Shared A → Shared A → Type 0 where
    call :
        (elem : A) (s : Shared A)
        → s.putter ≡ idle
        → Step s (record s { putter = trying elem; called = s.called ++ (elem ∷ []) })
    store :
        (elem : A) (s : Shared A)
        → s.putter ≡ trying elem
        → is_full s.limit s.items ≡ false
        → Step s (record s {
          items = s.items ++ (elem ∷ []);
          putter = idle;
          accepted = s.accepted ++ (elem ∷ []);
        })
    full :
        (elem : A) (s : Shared A)
        → s.putter ≡ trying elem
        → is_full s.limit s.items ≡ true
        → Step s (record s { putter = dropping elem })
    discard :
        (elem x : A) (xs : List A) (s : Shared A)
        → s.putter ≡ dropping elem
        → s.items ≡ x ∷ xs
        → Step s (record s { items = xs; putter = trying elem; gone = s.gone ++ (x ∷ []) })
    empty :
        (elem : A) (s : Shared A)
        → s.putter ≡ dropping elem
        → s.items ≡ []
        → Step s (record s { putter = raised elem })
    take :
        (x : A) (xs : List A) (s : Shared A)
        → s.items ≡ x ∷ xs
        → Step s (record s { items = xs; gone = s.gone ++ (x ∷ []) })

  pub data Reach (s : Shared A) : Shared A → Type 0 where
    here : Reach s s
    next : {t u : Shared A} → Reach s t → Step t u → Reach s u

  -- The element of a call of `put` that has not stored it.
  abbrev in_hand : Putter A → List A
  in_hand idle = []
  in_hand (trying elem) = elem ∷ []
  in_hand (dropping elem) = elem ∷ []
  in_hand (raised elem) = elem ∷ []

  -- The limit is kept; what `put` was called with is what was put in and then what it has in hand; and
  -- what was put in is what was taken out and then what is there.
  abbrev pub IsOrderly : Shared A → Type 0
  IsOrderly s =
      (length s.items ≤ s.limit)
      × (0 < s.limit)
      × (s.accepted ≡ s.gone ++ s.items)
      × (s.called ≡ s.accepted ++ in_hand s.putter)

  moved :
      (gone : List A) (x : A) (xs items accepted : List A)
      → items ≡ x ∷ xs
      → accepted ≡ gone ++ items
      → accepted ≡ (gone ++ (x ∷ [])) ++ xs
  moved gone x xs items accepted e h = h ∙ rw e (sym (append_assoc gone (x ∷ []) xs))

  Step-IsOrderly : {s t : Shared A} → Step s t → IsOrderly s → IsOrderly t
  Step-IsOrderly (call elem s p) (l, z, log, c) =
      (l, z, log, ap (λ (xs : List A). xs ++ (elem ∷ [])) (rw p at c ∙ append-nil s.accepted))
  Step-IsOrderly (store elem s p room) (l, z, log, c) = (
    ground (arith, length-append s.items (elem ∷ [])),
    z,
    rw log (append_assoc s.gone s.items (elem ∷ [])),
    (rw p at c) ∙ sym (append-nil (s.accepted ++ (elem ∷ []))),
  )
  Step-IsOrderly (full elem s p f) (l, z, log, c) = (l, z, log, rw p at c)
  Step-IsOrderly (discard elem x xs s p e) (l, z, log, c) =
      (omega (arith, ap length e), z, moved s.gone x xs s.items s.accepted e log, rw p at c)
  Step-IsOrderly (empty elem s p e) (l, z, log, c) = (l, z, log, rw p at c)
  Step-IsOrderly (take x xs s e) (l, z, log, c) =
      (omega (arith, ap length e), z, moved s.gone x xs s.items s.accepted e log, c)

  -- From a buffer within a limit above zero, and however the two threads interleave: the limit is
  -- kept; what `put` was called with is stored, in the order of the calls, but for the element of a
  -- call that is under way or was ended by an exception; and what was stored is what was taken out
  -- and then what is there, in this order.
  pub Reach-IsOrderly : {s t : Shared A} → IsOrderly s → Reach s t → IsOrderly t
  Reach-IsOrderly h here = h
  Reach-IsOrderly h (next r st) = Step-IsOrderly st (Reach-IsOrderly h r)

  Reach-trans : {s t u : Shared A} → Reach s t → Reach t u → Reach s u
  Reach-trans r here = r
  Reach-trans r (next q st) = next (Reach-trans r q) st

  -- A run to the end of `put` with the result of the whole call.
  abbrev pub Stores : A → Shared A → List A → Type 0
  Stores elem s items =
      (t : Shared A) × Reach s t × (t.items ≡ put_items s.limit elem items) × (t.putter ≡ idle)

  put_alone :
      (elem : A) (items : List A) (s : Shared A)
      → s.items ≡ items
      → s.putter ≡ trying elem
      → Stores elem s items
  unfolding put_items
  put_alone elem [] s e p =
      let room : is_full s.limit s.items ≡ false = rw e (ground arith) in
      (_, next here (store elem s p room), rw e refl, refl)
  put_alone elem (x ∷ xs) s e p = elim (Bool-cases (is_full s.limit (x ∷ xs))) [
    | inl f ↦
        let dropped : Shared A = record s { putter = dropping elem } in
        let later : Shared A = record s {
          items = xs;
          putter = trying elem;
          gone = s.gone ++ (x ∷ []);
        } in
        let (t, r, i, q) = put_alone elem xs later refl refl in
        (
          t,
          Reach-trans (next (next here (full elem s p (rw e f))) (discard elem x xs dropped refl e))
              r,
          rw f i,
          q,
        )
    | inr f ↦ (_, next here (store elem s p (rw e f)), rw f (rw e refl), refl)
  ]

  -- From the call of `put` on there is a run of steps to its end that leaves just the elements that
  -- the call leaves where it is not interrupted.
  pub put_items-Reach : (elem : A) (s : Shared A) → s.putter ≡ trying elem → Stores elem s s.items
  put_items-Reach elem s p = put_alone elem s.items s refl p

  drain :
      (elem : A) (items : List A) (s : Shared A)
      → s.items ≡ items
      → s.putter ≡ dropping elem
      → (t : Shared A) × Reach s t × (t.putter ≡ raised elem)
  drain elem [] s e p = (_, next here (empty elem s p e), refl)
  drain elem (x ∷ xs) s e p =
      let later : Shared A = record s { items = xs; gone = s.gone ++ (x ∷ []) } in
      let (t, r, q) = drain elem xs later refl p in
      (t, Reach-trans (next here (take x xs s e)) r, q)

  -- From every full buffer, while an element is being put, there is a run in which `put` raises
  -- `Empty` and the element is lost: the other thread takes all elements between the `Full` and the
  -- `get`.
  pub put_raises :
      (elem : A) (s : Shared A)
      → s.putter ≡ trying elem
      → is_full s.limit s.items ≡ true
      → (t : Shared A) × Reach s t × (t.putter ≡ raised elem)
  put_raises elem s p f =
      let full_seen : Shared A = record s { putter = dropping elem } in
      let (t, r, q) = drain elem s.items full_seen refl refl in
      (t, Reach-trans (next here (full elem s p f)) r, q)
