-- ===== src/Server/Threads/Progress.antt =====
-- The two threads of python/hmtl/server.py do not block each other for good.
use hmtl.Prelude.{
  ℕ, zero, suc, ◌+◌, ◌<◌, ◌≡◌, ◌⊎◌, inl, inr, refl, ap, List, [], ◌∷◌, Bytes, length, Option-cases,
  none, Bool, Result, Result-cases, arith,
}
use hmtl.Serial.{Value, Poll, HmtlSerial, get_message}
use hmtl.Server.{HmtlServer}
use hmtl.Server.Threads.{
  Thread, listener, scanner, Job, send_call, data_call, Loop, confirming, Place, outside, queued,
  writing, reading, Shared, fresh, place, move, enter, leave, check, Step, acquire, written,
  refused, again, leaves, Reach, here, next,
}
use hmtl.Server.Threads.Atomic.{IsOut, IsSerial, Works, Reach-IsSerial}

-- How many steps a thread is away from the end of its call, but for the rounds of its loop.
abbrev rank : Place → ℕ
rank outside = 0
rank (queued j) = 3
rank (writing v start) = 2
rank (reading l) = 1

abbrev weight : Shared → ℕ
weight s = rank s.at_listener + rank s.at_scanner + length s.ser.incoming

lighter :
    (t : Thread) (p : Place) (s : Shared)
    → rank p < rank (place t s)
    → rank (move t p s).at_listener + rank (move t p s).at_scanner
      < rank s.at_listener + rank s.at_scanner
unfolding move
lighter listener p s h = omega arith
lighter scanner p s h = omega arith

rank-enter : (j : Job) (start : ℕ) → rank (enter j start) < 3
rank-enter (send_call v) start = omega arith
rank-enter (data_call timeout) start = omega arith

-- No call is under way; or nothing more comes from the port.
abbrev pub IsDone : Shared → Type 0
IsDone s =
    (s.ser.incoming ≡ []) ⊎ ((s.lock ≡ none) × (s.at_listener ≡ outside) × (s.at_scanner ≡ outside))

module _ (write transmit : Value → Result (Unit {0})) (utf8 : Bytes → Bool)
    (base : HmtlServer) where
  -- A step that takes a call nearer to its end.
  abbrev CanStep : Shared → Type 0
  CanStep s = (u : Shared) × Step write utf8 s u × (weight u < weight s)

  can_acquire :
      (t : Thread) (j : Job) (s : Shared) → place t s ≡ queued j → s.lock ≡ none → CanStep s
  unfolding move
  can_acquire t j s p free =
      (_, acquire t j 0 s p free, omega (arith, lighter t (enter j 0) s (rw p (rank-enter j 0))))

  can_write :
      (t : Thread) (v : Value) (start : ℕ) (s : Shared) → place t s ≡ writing v start → CanStep s
  unfolding move leave
  can_write t v start s p = elim (Result-cases (write v)) [
    | inl (done, e) ↦ (
      _,
      written t v start s p e,
      omega (arith, lighter t (reading (confirming v start)) s (rw p (omega arith))),
    )
    | inr (x, e) ↦
        (_, refused t v start x s p e, omega (arith, lighter t outside s (rw p (omega arith))))
  ]

  can_read :
      (t : Thread) (l : Loop) (q : Poll) (qs : List Poll) (s : Shared)
      → place t s ≡ reading l
      → s.ser.incoming ≡ q ∷ qs
      → CanStep s
  unfolding move leave get_message
  can_read t l q qs s p i = elim (Option-cases (check utf8 l q)) [
    | inl n ↦ (_, again t l q qs s p i n, omega (arith, ap length i))
    | inr (out, e) ↦ (
      _,
      leaves t l out q qs s p i e,
      omega (arith, ap length i, lighter t outside s (rw p (omega arith))),
    )
  ]

  in_block :
      (origin : HmtlSerial) (t : Thread) (p : Place) (q : Poll) (qs : List Poll) (s : Shared)
      → place t s ≡ p
      → s.ser.incoming ≡ q ∷ qs
      → Works write transmit utf8 base origin p s.ser s.log
      → CanStep s
  in_block origin t outside q qs s e i w = absurd w
  in_block origin t (queued j) q qs s e i w = absurd w
  in_block origin t (writing v start) q qs s e i w = can_write t v start s e
  in_block origin t (reading l) q qs s e i w = can_read t l q qs s e i

  at_rest :
      (l m : Place) (s : Shared)
      → s.at_listener ≡ l
      → s.at_scanner ≡ m
      → IsOut l
      → IsOut m
      → s.lock ≡ none
      → IsDone s ⊎ CanStep s
  at_rest outside outside s e f o n free = inl (inr (free, e, f))
  at_rest (queued j) m s e f o n free = inr (can_acquire listener j s e free)
  at_rest outside (queued j) s e f o n free = inr (can_acquire scanner j s f free)
  at_rest (writing v start) m s e f o n free = absurd o
  at_rest (reading l) m s e f o n free = absurd o
  at_rest outside (writing v start) s e f o n free = absurd n
  at_rest outside (reading l) s e f o n free = absurd n

  advances :
      (origin : HmtlSerial) (polls : List Poll) (s : Shared)
      → s.ser.incoming ≡ polls
      → IsSerial write transmit utf8 base origin s
      → IsDone s ⊎ CanStep s
  advances origin [] s i h = inl (inl i)
  advances origin (q ∷ qs) s i (inl (free, out, r)) =
      at_rest s.at_listener s.at_scanner s refl refl (out listener) (out scanner) free
  advances origin (q ∷ qs) s i (inr (t, l, o, w)) =
      inr (in_block origin t (place t s) q qs s refl i w)

  Reach-trans :
      {s t u : Shared} → Reach write utf8 s t → Reach write utf8 t u → Reach write utf8 s u
  Reach-trans r here = r
  Reach-trans r (next q st) = next (Reach-trans r q) st

  settles :
      (n : ℕ) (ser : HmtlSerial) (s : Shared)
      → Reach write utf8 (fresh ser) s
      → weight s < n
      → (u : Shared) × Reach write utf8 s u × IsDone u
  settles zero ser s r h = absurd (omega arith)
  settles (suc n) ser s r h =
      elim (advances ser s.ser.incoming s refl (Reach-IsSerial write transmit utf8 base ser s r)) [
        | inl done ↦ (s, here, done)
        | inr (u, st, less) ↦
            let (v, q, done) = settles n ser u (next r st) (omega arith) in
            (v, Reach-trans (next here st) q, done)
      ]

  -- From every state that the threads can reach on a port that they start to share, a run of steps
  -- leads to one where the lock is free and both threads are outside of the calls, or where nothing
  -- more comes from the port.
  pub Reach-IsDone :
      (ser : HmtlSerial) (s : Shared)
      → Reach write utf8 (fresh ser) s
      → (u : Shared) × Reach write utf8 s u × IsDone u
  Reach-IsDone ser s r = settles (suc (weight s)) ser s r (omega arith)
