-- ===== src/Server/Threads/Atomic.antt =====
-- `serial_cv` of python/hmtl/server.py keeps the calls of the two threads whole.
use hmtl.Prelude.{
  ℕ, ◌≡◌, ◌⊎◌, inl, inr, refl, ◌∙◌, List, [], ◌∷◌, Bytes, Option, none, some, Bool, Result,
}
use hmtl.Serial.{Value, HmtlSerial, get_message}
use hmtl.Server.{HmtlServer, failed, get_data_msg}
use hmtl.Server.Threads.{
  Thread, listener, scanner, Job, send_call, data_call, Outcome, sent, confirming, Place, outside,
  queued, writing, reading, Call, Shared, fresh, place, move, enter, job_of, start_of, leave, Step,
  call, acquire, written, refused, again, leaves, Reach, here, next,
}
use hmtl.Server.Threads.Whole.{
  perform, finish, perform-written, perform-refused, finish-again, finish-leaves,
}

abbrev pub other : Thread → Thread
other listener = scanner
other scanner = listener

-- Not in a block.
abbrev pub IsOut : Place → Type 0
IsOut outside = Unit
IsOut (queued j) = Unit
IsOut (writing v start) = ⊥
IsOut (reading l) = ⊥

module _ (write transmit : Value → Result (Unit {0})) (utf8 : Bytes → Bool)
    (base : HmtlServer) where
  -- The calls of a log, the newest first, done one after the other on the port `origin`: each had the
  -- outcome that it has alone, and the port is `ser` behind the last.
  abbrev pub Runs : HmtlSerial → List Call → HmtlSerial → Type 0
  Runs origin [] ser = origin ≡ ser
  Runs origin (c ∷ cs) ser =
      (before : HmtlSerial) × Runs origin cs before
      × (perform write transmit utf8 base c.job c.start before ≡ (c.outcome, ser))

  -- A thread in the block: behind the calls of the log its call has begun, and what is left of it,
  -- with nothing between, comes to what the whole call does.
  abbrev pub Works : HmtlSerial → Place → HmtlSerial → List Call → Type 0
  Works origin outside ser log = ⊥
  Works origin (queued j) ser log = ⊥
  Works origin (writing v start) ser log = Runs origin log ser
  Works origin (reading l) ser log =
      (before : HmtlSerial) × Runs origin log before
      × (perform write transmit utf8 base (job_of l) (start_of l) before
          ≡ finish write transmit utf8 base l ser)

  -- The lock is free, no thread is in a block, and the port is as the calls that ended leave it one
  -- after the other; or one thread has the lock and is in a block, and the other is not.
  abbrev pub IsSerial : HmtlSerial → Shared → Type 0
  IsSerial origin s =
      ((s.lock ≡ none) × ((t : Thread) → IsOut (place t s)) × Runs origin s.log s.ser)
      ⊎ ((t : Thread) × (s.lock ≡ some t)
          × IsOut (place (other t) s)
          × Works origin (place t s) s.ser s.log)

  -- A thread in a block has the lock, and the other is not in one.
  abbrev Holds : HmtlSerial → Shared → Thread → Place → Type 0
  Holds origin s t p = (s.lock ≡ some t) × IsOut (place (other t) s) × Works origin p s.ser s.log

  same_or_other : (t u : Thread) → (u ≡ t) ⊎ (u ≡ other t)
  same_or_other listener listener = inl refl
  same_or_other listener scanner = inr refl
  same_or_other scanner listener = inr refl
  same_or_other scanner scanner = inl refl

  holder :
      (origin : HmtlSerial) (s : Shared) (t : Thread) (p : Place)
      → IsSerial origin s
      → place t s ≡ p
      → (IsOut p → ⊥)
      → Holds origin s t p
  holder origin s t p (inl (free, out, r)) e n = absurd (n (rw (← e) (out t)))
  holder origin s t p (inr (u, l, o, w)) e n = elim (same_or_other u t) [
    | inl same ↦ (rw same l, rw same o, rw (← e) (rw same w))
    | inr same ↦ absurd (n (rw (← e) (rw same o)))
  ]

  both-IsOut :
      (s : Shared) → IsOut s.at_listener → IsOut s.at_scanner → (t : Thread) → IsOut (place t s)
  both-IsOut s l m listener = l
  both-IsOut s l m scanner = m

  ended :
      (origin : HmtlSerial) (s : Shared) (t : Thread) (j : Job) (start : ℕ) (out : Outcome)
      (ser before : HmtlSerial)
      → IsOut (place (other t) s)
      → Runs origin s.log before
      → perform write transmit utf8 base j start before ≡ (out, ser)
      → IsSerial origin (leave t j start out ser s)
  unfolding leave
  ended origin s listener j start out ser before o r e =
      inl (refl, both-IsOut (leave listener j start out ser s) tt o, (before, r, e))
  ended origin s scanner j start out ser before o r e =
      inl (refl, both-IsOut (leave scanner j start out ser s) o tt, (before, r, e))

  -- A thread goes on in its block.
  works :
      (origin : HmtlSerial) (s : Shared) (t : Thread) (p : Place) (l : Option Thread)
      (ser : HmtlSerial)
      → l ≡ some t
      → IsOut (place (other t) s)
      → Works origin p ser s.log
      → IsSerial origin (record (move t p s) { lock = l; ser = ser })
  unfolding move
  works origin s listener p l ser e o w = inr (listener, e, o, w)
  works origin s scanner p l ser e o w = inr (scanner, e, o, w)

  entered :
      (origin : HmtlSerial) (j : Job) (start : ℕ) (ser : HmtlSerial) (log : List Call)
      → Runs origin log ser
      → Works origin (enter j start) ser log
  unfolding get_data_msg
  entered origin (send_call v) start ser log r = r
  entered origin (data_call timeout) start ser log r = (ser, r, refl)

  idle :
      (origin : HmtlSerial) (p : Place) (ser : HmtlSerial) (log : List Call)
      → IsOut p
      → Works origin p ser log
      → ⊥
  idle origin outside ser log o w = w
  idle origin (queued j) ser log o w = w
  idle origin (writing v start) ser log o w = o
  idle origin (reading l) ser log o w = o

  queue :
      (origin : HmtlSerial) (s : Shared) (t : Thread) (j : Job)
      → IsOut (place t s)
      → IsSerial origin s
      → IsSerial origin (move t (queued j) s)
  unfolding move
  queue origin s listener j i (inl (free, out, r)) =
      inl (free, both-IsOut (move listener (queued j) s) tt (out scanner), r)
  queue origin s scanner j i (inl (free, out, r)) =
      inl (free, both-IsOut (move scanner (queued j) s) (out listener) tt, r)
  queue origin s listener j i (inr (listener, l, o, w)) =
      absurd (idle origin s.at_listener s.ser s.log i w)
  queue origin s listener j i (inr (scanner, l, o, w)) = inr (scanner, l, tt, w)
  queue origin s scanner j i (inr (listener, l, o, w)) = inr (listener, l, tt, w)
  queue origin s scanner j i (inr (scanner, l, o, w)) =
      absurd (idle origin s.at_scanner s.ser s.log i w)

  Step-IsSerial :
      (origin : HmtlSerial) {s u : Shared}
      → Step write utf8 s u
      → IsSerial origin s
      → IsSerial origin u
  unfolding move
  Step-IsSerial origin (call t j s p) h = queue origin s t j (rw p tt) h
  Step-IsSerial origin (acquire t j start s p free) (inl (f, out, r)) =
      works origin s t (enter j start) (some t) s.ser refl (out (other t))
        (entered origin j start s.ser s.log r)
  Step-IsSerial origin (acquire t j start s p free) (inr (u, l, o, w)) = absurd (cc)
  Step-IsSerial origin (written t v start s p e) h =
      let (l, o, r) = holder origin s t (writing v start) h p (λ x. x) in
      works origin s t (reading (confirming v start)) s.lock _ l o
        (s.ser, r, perform-written write transmit utf8 base v start s.ser e)
  Step-IsSerial origin (refused t v start e s p f) h =
      let (l, o, r) = holder origin s t (writing v start) h p (λ x. x) in
      ended origin s t (send_call v) start (sent (failed e)) s.ser s.ser o r
        (perform-refused write transmit utf8 base v start e s.ser f)
  Step-IsSerial origin (again t l p ps s q i c) h =
      let (lock, o, (before, r, e)) = holder origin s t (reading l) h q (λ x. x) in
      inr (t, lock, o, rw q (before, r, e ∙ finish-again write transmit utf8 base l p ps s.ser i c))
  Step-IsSerial origin (leaves t l out p ps s q i c) h =
      let (_, o, (before, r, e)) = holder origin s t (reading l) h q (λ x. x) in
      ended origin s t (job_of l) (start_of l) out (get_message p ps s.ser) before o r
        (e ∙ finish-leaves write transmit utf8 base l out p ps s.ser i c)

  -- However the threads interleave on a port that they start to share, at every moment: the lock is free,
  -- no thread is in a block, and each call that ended had the outcome that it has alone, with the
  -- port as those before it left it, and the port is as the last left it; or one thread has the
  -- lock and is in a block, the other is not, and what is left of its call, with nothing between,
  -- comes to what the whole call does behind those that ended.
  pub Reach-IsSerial :
      (ser : HmtlSerial) (s : Shared) → Reach write utf8 (fresh ser) s → IsSerial ser s
  Reach-IsSerial ser s here = inl (refl, both-IsOut (fresh ser) tt tt, refl)
  Reach-IsSerial ser s (next r st) = Step-IsSerial ser st (Reach-IsSerial ser _ r)
