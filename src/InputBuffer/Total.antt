-- ===== src/InputBuffer/Total.antt =====
-- The outcome of `_read_item`, from the progress of its rounds.
use hmtl.Prelude.{
  ℕ, zero, suc, ◌-◌, ◌≤◌, ◌<◌, ◌≡◌, ◌∙◌, refl, ap, [], ◌∷◌, ◌++◌, Bytes, length, Option, none, some,
  Bool, true, false, arith, Bool-cases, inl, inr, ◌==◌, Result, ok, err,
}
use hmtl.Protocol.MsgHdr.{MsgHdr, from_data}
use hmtl.CircularBuffer
use hmtl.CircularBuffer.{CircularBuffer}
use hmtl.InputBuffer.{
  read_unit, check_header, on_message_byte, on_start_code, on_byte, on_empty, on_read,
  valid_hmtl_header, Reader, Scan, Next, again, leave, give_up, raised, fresh, step, unread,
  measure, InputItem, Outcome, item, nothing, raises, stuck, emit, resume, loop, read_item,
}
use hmtl.InputBuffer.Step.{mass, IsWhole, IsGood, Advances, step-Advances}

-- An item is text, or a whole message under its own header.
abbrev pub IsSound : InputItem → Type 0
IsSound i = IsWhole i.bytes i.is_hmtl i.hdr × (0 < length i.bytes)

-- What a call that may read `n` units at most does with the queue `q`.
abbrev pub Finishes : ℕ → CircularBuffer InputItem → Outcome × Reader → Type 0
Finishes n q (item i, s') = IsSound i × (unread s' ≤ n - 1) × (s'.buff ≡ CircularBuffer.put i q)
Finishes n q (nothing, s') = (unread s' ≤ n - 1) × (s'.buff ≡ q)
Finishes n q (raises e, s') = ⊥
Finishes n q (stuck, s') = ⊥

read_unit-buff : (s : Reader) → (read_unit s).1.buff ≡ s.buff
unfolding read_unit
read_unit-buff s = ground arith

check_header-buff :
    (d : Scan) (r : Result MsgHdr) (s : Reader) → (check_header d r s).1.buff ≡ s.buff
unfolding check_header
check_header-buff d (err e) s = refl
check_header-buff d (ok h) s = elim (Bool-cases (valid_hmtl_header h)) [
  | inl v ↦ rw v refl
  | inr v ↦ rw v refl
]

on_message_byte-buff : (c : ℕ) (d : Scan) (s : Reader) → (on_message_byte c d s).1.buff ≡ s.buff
unfolding on_message_byte
on_message_byte-buff c d s = elim (Bool-cases (length (d.bytes ++ (c ∷ [])) == 8)) [
  | inl eight ↦
      let d' : Scan = record d { bytes = d.bytes ++ (c ∷ []) } in
      rw eight (check_header-buff d' (from_data d'.bytes) s)
  | inr short ↦ rw short refl
]

on_start_code-buff :
    (c : ℕ) (bs : Bytes) (is_hmtl : Bool) (hdr : Option MsgHdr) (e : ℕ) (s : Reader)
    → (on_start_code c
        (record { bytes = bs; is_hmtl = is_hmtl; hdr = hdr; empty_reads = e })
        s).1.buff
      ≡ s.buff
unfolding on_start_code
on_start_code-buff c [] is_hmtl hdr e s =
    on_message_byte-buff c (record { bytes = []; is_hmtl = true; hdr = hdr; empty_reads = e }) s
on_start_code-buff c (b ∷ bs) is_hmtl hdr e s = refl

on_byte-buff :
    (c : ℕ) (bs : Bytes) (is_hmtl : Bool) (hdr : Option MsgHdr) (e : ℕ) (s : Reader)
    → (on_byte c (record { bytes = bs; is_hmtl = is_hmtl; hdr = hdr; empty_reads = e }) s).1.buff
      ≡ s.buff
unfolding on_byte
on_byte-buff c bs true hdr e s =
    on_message_byte-buff c (record { bytes = bs; is_hmtl = true; hdr = hdr; empty_reads = e }) s
on_byte-buff c bs false hdr e s = elim (Bool-cases (c == 0xFC)) [
  | inl f ↦ rw f (on_start_code-buff c bs false hdr e s)
  | inr f ↦ rw f refl
]

on_read-buff : (c : Option ℕ) (d : Scan) (s : Reader) → (on_read c d s).1.buff ≡ s.buff
unfolding on_read on_empty
on_read-buff none d s = ground arith
on_read-buff (some c) d s = on_byte-buff c d.bytes d.is_hmtl d.hdr 0 s

-- A round leaves the queue alone.
step-buff : (d : Scan) (s : Reader) → (step d s).1.buff ≡ s.buff
unfolding step
step-buff d s = on_read-buff (read_unit s).0 d (read_unit s).1 ∙ read_unit-buff s

emit-Finishes :
    (now n : ℕ) (q : CircularBuffer InputItem) (bs : Bytes) (is_hmtl : Bool) (hdr : Option MsgHdr)
    (e : ℕ) (s : Reader)
    → IsWhole bs is_hmtl hdr
    → unread s ≤ n - 1
    → s.buff ≡ q
    → Finishes n q
        (emit now (record { bytes = bs; is_hmtl = is_hmtl; hdr = hdr; empty_reads = e }) s)
unfolding emit
emit-Finishes now n q [] is_hmtl hdr e s w h b = (h, b)
emit-Finishes now n q (c ∷ bs) true none e s w h b = absurd w
emit-Finishes now n q (c ∷ bs) true (some x) e s w h b =
    rw w.2 ((w, omega arith), h, ap (CircularBuffer.put _) b)
emit-Finishes now n q (c ∷ bs) false none e s w h b =
    ((w, omega arith), h, ap (CircularBuffer.put _) b)
emit-Finishes now n q (c ∷ bs) false (some x) e s w h b = absurd w

resume-Finishes :
    (next : Scan → Reader → Outcome × Reader) (now n : ℕ) (q : CircularBuffer InputItem) (d : Scan)
    (s : Reader)
    → ((d' : Scan) (s' : Reader)
        → IsGood d'
        → measure d' s' < measure d s
        → mass d' s' ≤ n
        → s'.buff ≡ q
        → Finishes n q (next d' s'))
    → mass d s ≤ n
    → (r : Next × Reader) → Advances d s r
    → r.1.buff ≡ q
    → Finishes n q (resume next now r)
unfolding resume
resume-Finishes next now n q d s rest h (again d', s') (good, m, h') b =
    rest d' s' good m (omega arith) b
resume-Finishes next now n q d s rest h (leave d', s') (w, h') b =
    emit-Finishes now n q d'.bytes d'.is_hmtl d'.hdr d'.empty_reads s' w (omega arith) b
resume-Finishes next now n q d s rest h (give_up, s') h' b = (omega arith, b)
resume-Finishes next now n q d s rest h (raised e, s') h' b = h'

loop-Finishes :
    (fuel now n : ℕ) (q : CircularBuffer InputItem) (d : Scan) (s : Reader)
    → IsGood d
    → measure d s < fuel
    → mass d s ≤ n
    → s.buff ≡ q
    → Finishes n q (loop fuel now d s)
unfolding loop
loop-Finishes zero now n q d s good m h b = absurd (omega arith)
loop-Finishes (suc fuel) now n q d s good m h b =
    resume-Finishes (loop fuel now) now n q d s
      (λ d' s' good' m' h' b'. loop-Finishes fuel now n q d' s' good' (omega arith) h' b') h
      (step d s) (step-Advances d s good) (step-buff d s ∙ b)

-- Whatever bytes and gaps arrive, a call of `_read_item` ends: it puts one sound item, which it
-- returns, into the queue, or it returns None and leaves the queue as it was; it raises nothing; and
-- unless nothing was left to read, less is left behind it.
pub read_item-Finishes : (now : ℕ) (s : Reader) → Finishes (unread s) s.buff (read_item now s)
unfolding read_item
read_item-Finishes now s =
    loop-Finishes (suc (measure fresh s)) now (unread s) s.buff fresh s (tt, omega arith)
      (omega arith) (omega arith) refl
