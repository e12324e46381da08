-- ===== src/InputBuffer/Resync.antt =====
-- Start codes that start no message: noise on the line, and messages that never end.
use hmtl.Prelude.{
  ℕ, ◌+◌, ◌<◌, ◌≡◌, ◌∙◌, refl, List, [], ◌∷◌, ◌++◌, Bytes, length, map, Option, none, some, true,
  false, arith, ok, length-append, append_assoc, append-nil,
}
use hmtl.Protocol.MsgHdr.{MsgHdr, from_data}
use hmtl.Protocol.MsgHdr.Parse.{hdr_of}
use hmtl.InputBuffer.{
  Reader, Scan, again, give_up, fresh, step, nothing, emit, read_item, valid_hmtl_header, read_unit,
  rewind,
}
use hmtl.InputBuffer.Step.{IsPartial, Starts, Starts-append}
use hmtl.InputBuffer.Rounds.{scan, scan-again, scan-give_up, scan-gap_zero, reading, gap}
use hmtl.InputBuffer.Lines.{Supplies, Supplies-unread, text, read_item-line}

-- The first bytes of what may be a message.
abbrev opening : Bytes → ℕ → Scan
opening bs e = record { bytes = bs; is_hmtl = true; hdr = none; empty_reads = e }

step-start :
    (s s' : Reader)
    → read_unit s ≡ (some 0xFC, s')
    → step fresh s ≡ (again (opening (0xFC ∷ []) 0), s')
unfolding step
step-start s s' r = rw r refl

step-collect :
    (c e : ℕ) (bs : Bytes) (s s' : Reader)
    → read_unit s ≡ (some c, s')
    → length bs < 7
    → step (opening bs e) s ≡ (again (opening (bs ++ (c ∷ [])) 0), s')
unfolding step
step-collect c e bs s s' r short = rw r (ground (arith, length-append bs (c ∷ [])))

step-false_start :
    (c e : ℕ) (b : ℕ) (bs : Bytes) (s s' : Reader) (h : MsgHdr)
    → read_unit s ≡ (some c, s')
    → length bs ≡ 6
    → from_data (b ∷ bs ++ (c ∷ [])) ≡ ok h
    → valid_hmtl_header h ≡ false
    → step (opening (b ∷ bs) e) s ≡ (again fresh, rewind (bs ++ (c ∷ [])) s')
unfolding step
step-false_start c e b bs s s' h r seven p invalid =
    rw r (ground (arith, length-append bs (c ∷ [])))

step-abandon :
    (e : ℕ) (b : ℕ) (bs : Bytes) (s s' : Reader)
    → read_unit s ≡ (none, s')
    → e ≡ 5
    → step (opening (b ∷ bs) e) s ≡ (give_up, rewind bs s')
unfolding step
step-abandon e b bs s s' r five = rw r (ground arith)

read_unit-none :
    (s : Reader) (src : List (Option ℕ)) (t : ℕ)
    → read_unit (reading s (none ∷ src) t) ≡ (none, reading s src t)
unfolding read_unit
read_unit-none s src t = refl

-- Fewer than eight bytes are collected as they come.
scan-collect :
    (more : Bytes) (now : ℕ) (bs : Bytes) (s s' : Reader)
    → Starts bs
    → length bs + length more < 8
    → Supplies s more s'
    → scan now (opening bs 0) s ≡ scan now (opening (bs ++ more) 0) s'
scan-collect [] now bs s s' st short r = rw (append-nil bs, r)
scan-collect (c ∷ more) now bs s s' st short (s1, r, rest) =
    scan-again now _ _ _ _ ((st, omega arith), omega arith)
      (step-collect c 0 bs s s1 r (omega arith))
    ∙ scan-collect more now (bs ++ (c ∷ [])) s1 s' (Starts-append bs (c ∷ []) st)
        (omega (arith, length-append bs (c ∷ []))) rest
    ∙ rw (append_assoc bs (c ∷ []) more)

Supplies-split :
    (xs ys : Bytes) (s s' : Reader)
    → Supplies s (xs ++ ys) s'
    → (m : Reader) × Supplies s xs m × Supplies m ys s'
Supplies-split [] ys s s' r = (s, refl, r)
Supplies-split (c ∷ xs) ys s s' (s1, r, rest) =
    let (m, left, right) = Supplies-split xs ys s1 s' rest in (m, (s1, r, left), right)

-- Eight bytes that begin with a start code and are no valid header: the start code alone is
-- dropped, and the reader goes on as if the seven bytes behind it had never been read.
pub read_item-false_start :
    (now c : ℕ) (six : Bytes) (s s' : Reader) (h : MsgHdr)
    → length six ≡ 6
    → Supplies s (0xFC ∷ six ++ (c ∷ [])) s'
    → from_data (0xFC ∷ six ++ (c ∷ [])) ≡ ok h
    → valid_hmtl_header h ≡ false
    → read_item now s ≡ read_item now (rewind (six ++ (c ∷ [])) s')
unfolding read_item scan
read_item-false_start now c six s s' h size (s1, r, rest) p invalid =
    let (m, left, (m', r', same)) = Supplies-split six (c ∷ []) s1 s' rest in
    scan-again now _ _ _ _ (tt, omega arith) (step-start s s1 r)
    ∙ scan-collect six now (0xFC ∷ []) s1 m refl (omega arith) left
    ∙ scan-again now _ _ _ _ ((refl, omega arith), omega arith)
        (step-false_start c 0 0xFC six m m' h r' size p invalid)
    ∙ rw same

-- A start code and fewer than seven bytes, and then six empty reads in a row: `_read_item` returns
-- None, and the bytes behind the start code are kept to be read again.
pub read_item-abandon :
    (now t : ℕ) (bs : Bytes) (s s0 : Reader) (more : List (Option ℕ))
    → length bs < 7
    → Supplies s (0xFC ∷ bs) (reading s0 (gap 6 more) t)
    → read_item now s ≡ (nothing, rewind bs (reading s0 more t))
unfolding read_item scan
read_item-abandon now t bs s s0 more short (s1, r, rest) =
    let partial : IsPartial (0xFC ∷ bs) true none = (refl, omega arith) in
    scan-again now _ _ _ _ (tt, omega arith) (step-start s s1 r)
    ∙ scan-collect bs now (0xFC ∷ []) s1 _ refl (omega arith) rest
    ∙ scan-gap_zero 5 now t (0xFC ∷ bs) none s0 (none ∷ more) partial (omega arith)
    ∙ scan-give_up now _ _ _ (
        step-abandon 5 0xFC bs (reading s0 (none ∷ more) t) (reading s0 more t)
          (read_unit-none s0 more t) refl)

-- The bytes of "ready", with the line end that an Arduino prints.
abbrev pub ready_line : Bytes
ready_line = b'r' ∷ b'e' ∷ b'a' ∷ b'd' ∷ b'y' ∷ b'\r' ∷ b'\n' ∷ []

abbrev pub ready_hdr : MsgHdr
ready_hdr = hdr_of 0xFC b'r' b'e' b'a' b'd' b'y' b'\r' b'\n'

-- A byte of noise that looks like a start code does not hide the `ready` line behind it.
pub read_item-ready :
    (now t : ℕ) (s : Reader) (more : List (Option ℕ))
    → read_item now (reading s (map some (0xFC ∷ ready_line) ++ more) t)
      ≡ emit now (text (b'r' ∷ b'e' ∷ b'a' ∷ b'd' ∷ b'y' ∷ []) 0) (reading s more (t + 8))
unfolding from_data valid_hmtl_header rewind
read_item-ready now t s more =
    let six : Bytes = b'r' ∷ b'e' ∷ b'a' ∷ b'd' ∷ b'y' ∷ b'\r' ∷ [] in
    let count : t + 8 + 0 ≡ t + 8 = omega arith in
    read_item-false_start now b'\n' six _ _ ready_hdr refl
      (Supplies-unread [] (0xFC ∷ ready_line) s more t) refl refl
    ∙ read_item-line now six _ _ (omega arith) (Supplies-unread ready_line [] s more (t + 8))
    ∙ rw count
