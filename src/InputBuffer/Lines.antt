-- ===== src/InputBuffer/Lines.antt =====
-- Text lines in the loop of `_read_item`.
use hmtl.Prelude.{
  ℕ, ◌+◌, ◌≤◌, ◌≡◌, ◌≢◌, ◌∙◌, refl, List, [], ◌∷◌, ◌++◌, Bytes, length, map, All, Option, none,
  some, false, arith, ◌==◌, if◌then◌else◌, All-append, append_assoc, append-nil, Bool-cases, inl,
  inr,
}
use hmtl.InputBuffer.{Reader, Scan, again, leave, step, emit, read_item, read_unit}
use hmtl.InputBuffer.Step.{IsText}
use hmtl.InputBuffer.Rounds.{scan, scan-again, scan-leave, reading}

-- The next reads of `s` give these bytes and lead to `s'`.
abbrev pub Supplies : Reader → Bytes → Reader → Type 0
Supplies s [] s' = s ≡ s'
Supplies s (c ∷ bs) s' = (s1 : Reader) × (read_unit s ≡ (some c, s1)) × Supplies s1 bs s'

-- A line without its carriage returns.
abbrev pub strip : Bytes → Bytes
strip [] = []
strip (c ∷ cs) = if c == b'\r' then strip cs else c ∷ strip cs

-- A byte that neither starts a message nor ends a line.
abbrev pub IsPlain : ℕ → Type 0
IsPlain c = (c ≢ 0xFC) × (c ≢ b'\n')

abbrev pub text : Bytes → ℕ → Scan
text bs e = record { bytes = bs; is_hmtl = false; hdr = none; empty_reads = e }

step-text :
    (c e : ℕ) (bs : Bytes) (s s' : Reader)
    → read_unit s ≡ (some c, s')
    → IsPlain c
    → step (text bs e) s ≡ (again (text (bs ++ strip (c ∷ [])) 0), s')
unfolding step
step-text c e bs s s' r plain = rw r (ground (arith, append-nil bs))

step-newline :
    (e : ℕ) (bs : Bytes) (s s' : Reader)
    → read_unit s ≡ (some b'\n', s')
    → step (text bs e) s ≡ (leave (text bs 0), s')
unfolding step
step-newline e bs s s' r = rw r refl

strip-IsText : (c : ℕ) (bs : Bytes) → IsText bs → IsPlain c → IsText (bs ++ strip (c ∷ []))
strip-IsText c bs t p = elim (Bool-cases (c == b'\r')) [
  | inl cr ↦ rw (cr, append-nil bs) t
  | inr other ↦ rw other (All-append _ bs (c ∷ []) t ((p.0, ground arith, p.1), tt))
]

strip-cons : (c : ℕ) (cs : Bytes) → strip (c ∷ []) ++ strip cs ≡ strip (c ∷ cs)
strip-cons c cs = elim (Bool-cases (c == b'\r')) [ inl cr ↦ rw cr refl | inr other ↦ rw other refl ]

scan-line :
    (line : Bytes) (now e : ℕ) (bs : Bytes) (s s' : Reader)
    → All IsPlain line
    → IsText bs
    → e ≤ 5
    → Supplies s (line ++ (b'\n' ∷ [])) s'
    → scan now (text bs e) s ≡ emit now (text (bs ++ strip line) 0) s'
scan-line [] now e bs s s' p t few (s1, r, same) =
    scan-leave now _ _ _ _ (step-newline e bs s s1 r) ∙ rw (append-nil bs, same)
scan-line (c ∷ cs) now e bs s s' p t few (s1, r, rest) =
    scan-again now _ _ _ _ (t, few) (step-text c e bs s s1 r p.0)
    ∙ scan-line cs now 0 (bs ++ strip (c ∷ [])) s1 s' p.1 (strip-IsText c bs t p.0) (omega arith)
        rest
    ∙ rw (append_assoc bs (strip (c ∷ [])) (strip cs), strip-cons c cs)

-- On a line without start codes and newlines inside, ended by a newline, `_read_item` queues its
-- text without the carriage returns; an empty line gives None.
pub read_item-line :
    (now : ℕ) (line : Bytes) (s s' : Reader)
    → All IsPlain line
    → Supplies s (line ++ (b'\n' ∷ [])) s'
    → read_item now s ≡ emit now (text (strip line) 0) s'
unfolding read_item scan
read_item-line now line s s' p r = scan-line line now 0 [] s s' p tt (omega arith) r

-- What was pushed back is read first, then the source.
pub Supplies-unread :
    (back line : Bytes) (s : Reader) (more : List (Option ℕ)) (t : ℕ)
    → Supplies
        (record s { pushback = back; source = map some line ++ more; total_received = t })
        (back ++ line)
        (reading s more (t + length line))
unfolding read_unit
Supplies-unread [] [] s more t = let same : t + 0 ≡ t = omega arith in rw same refl
Supplies-unread [] (c ∷ line) s more t =
    let count : t + length (c ∷ line) ≡ t + 1 + length line = omega arith in
    (
      reading s (map some line ++ more) (t + 1),
      refl,
      rw count (Supplies-unread [] line s more (t + 1)),
    )
Supplies-unread (b ∷ back) line s more t = (_, refl, Supplies-unread back line s more t)
