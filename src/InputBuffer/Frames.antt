-- ===== src/InputBuffer/Frames.antt =====
-- Messages in the loop of `_read_item`, in one piece or in many.
use hmtl.Prelude.{
  ℕ, suc, ◌+◌, ◌≤◌, ◌<◌, ◌≡◌, ◌∙◌, refl, sym, ap, List, [], ◌∷◌, ◌++◌, Bytes, length, Option, none,
  some, true, arith, ok, leb, if◌then◌else◌, length-append, append_assoc, Bool-cases, inl, inr,
}
use hmtl.Protocol.MsgHdr.{MsgHdr, from_data}
use hmtl.Protocol.MsgHdr.Parse.{from_data-append, hdr_of}
use hmtl.Protocol.Frame.{IsFrame, Request, build, build-IsFrame}
use hmtl.CircularBuffer
use hmtl.InputBuffer.{
  Reader, Scan, again, leave, fresh, step, item, emit, read_item, InputItem, valid_hmtl_header,
}
use hmtl.InputBuffer.Step.{IsPartial, Starts, Starts-append}
use hmtl.InputBuffer.Rounds.{scan, scan-again, scan-leave, scan-gap_zero, reading, spread}

-- `hdr` once `bs` of a message with header `h` have been read.
abbrev hdr_at : MsgHdr → Bytes → Option MsgHdr
hdr_at h bs = if leb 8 (length bs) then some h else none

abbrev part : MsgHdr → Bytes → ℕ → Scan
part h bs e = record { bytes = bs; is_hmtl = true; hdr = hdr_at h bs; empty_reads = e }

module _ (h : MsgHdr) (valid : valid_hmtl_header h ≡ true) (s : Reader) (c t e : ℕ)
    (src : List (Option ℕ)) (bs : Bytes)
    (header : length bs ≡ 7 → from_data (bs ++ (c ∷ [])) ≡ ok h) where
  -- One byte of the message, not the last.
  step-more :
      suc (length bs) < h.length
      → step (part h bs e) (reading s (some c ∷ src) t)
        ≡ (again (part h (bs ++ (c ∷ [])) 0), reading s src (t + 1))
  unfolding step
  step-more room = ground (arith, length-append bs (c ∷ []), header)

  -- The last byte of the message.
  step-last :
      suc (length bs) ≡ h.length
      → step (part h bs e) (reading s (some c ∷ src) t)
        ≡ (leave (part h (bs ++ (c ∷ [])) 0), reading s src (t + 1))
  unfolding step
  step-last full = ground (arith, length-append bs (c ∷ []), header)

-- The bytes of a spread message, and how many empty reads come before each.
abbrev pub bytes_of : List (ℕ × ℕ) → Bytes
bytes_of [] = []
bytes_of ((g, b) ∷ rest) = b ∷ bytes_of rest

abbrev pub FewGaps : List (ℕ × ℕ) → Type 0
FewGaps [] = Unit {0}
FewGaps ((g, b) ∷ rest) = (g ≤ 5) × FewGaps rest

length-bytes_of : (rest : List (ℕ × ℕ)) → length (bytes_of rest) ≡ length rest
length-bytes_of [] = refl
length-bytes_of ((g, b) ∷ rest) = ap suc (length-bytes_of rest)

part-IsPartial :
    (h : MsgHdr) (pre rest whole : Bytes)
    → valid_hmtl_header h ≡ true
    → from_data whole ≡ ok h
    → pre ++ rest ≡ whole
    → Starts pre
    → length pre < h.length
    → IsPartial pre true (hdr_at h pre)
part-IsPartial h pre rest whole valid parsed e st more = elim (Bool-cases (leb 8 (length pre))) [
  | inl past ↦
      let eight : 8 ≤ length pre = ground arith in
      let p : from_data pre ≡ ok h = sym (from_data-append pre rest eight) ∙ rw e parsed in
      rw past (st, eight, more, p, valid)
  | inr short ↦ rw short (st, ground arith)
]

header_there :
    (h : MsgHdr) (pre rest whole : Bytes) (c : ℕ)
    → from_data whole ≡ ok h
    → pre ++ (c ∷ rest) ≡ whole
    → length pre ≡ 7
    → from_data (pre ++ (c ∷ [])) ≡ ok h
header_there h pre rest whole c parsed e seven =
    let eight : 8 ≤ length (pre ++ (c ∷ [])) = omega (arith, length-append pre (c ∷ [])) in
    sym (from_data-append (pre ++ (c ∷ [])) rest eight)
    ∙ rw (append_assoc pre (c ∷ []) rest, e) parsed

-- From any point inside a message to its end.
deliver :
    (rest : List (ℕ × ℕ)) (pre whole : Bytes) (now t : ℕ) (h : MsgHdr) (s : Reader)
    (more : List (Option ℕ))
    → valid_hmtl_header h ≡ true
    → from_data whole ≡ ok h
    → length whole ≡ h.length
    → FewGaps rest
    → Starts pre
    → length pre < h.length
    → pre ++ bytes_of rest ≡ whole
    → scan now (part h pre 0) (reading s (spread rest more) t)
      ≡ emit now (part h whole 0) (reading s more (t + length rest))
deliver [] pre whole now t h s more valid parsed size few st room e =
    absurd (omega (arith, length-append pre [], ap length e))
deliver ((g, c) ∷ []) pre whole now t h s more valid parsed size few st room e =
    let partial = part-IsPartial h pre (c ∷ []) whole valid parsed e st room in
    let there = header_there h pre [] whole c parsed e in
    let full : suc (length pre) ≡ h.length =
      omega (arith, length-append pre (c ∷ []), ap length e) in
    scan-gap_zero g now t pre (hdr_at h pre) s (some c ∷ more) partial few.0
    ∙ scan-leave now _ _ _ _ (step-last h valid s c t g more pre there full)
    ∙ rw e
deliver ((g, c) ∷ x ∷ rest) pre whole now t h s more valid parsed size few st room e =
    let src = spread (x ∷ rest) more in
    let partial = part-IsPartial h pre (c ∷ bytes_of (x ∷ rest)) whole valid parsed e st room in
    let there = header_there h pre (bytes_of (x ∷ rest)) whole c parsed e in
    let e' : (pre ++ (c ∷ [])) ++ bytes_of (x ∷ rest) ≡ whole =
      append_assoc pre (c ∷ []) (bytes_of (x ∷ rest)) ∙ e in
    let room' : length (pre ++ (c ∷ [])) < h.length =
      omega (arith, length-append (pre ++ (c ∷ [])) (bytes_of (x ∷ rest)), ap length e') in
    let count : t + length ((g, c) ∷ x ∷ rest) ≡ t + 1 + length (x ∷ rest) = omega arith in
    scan-gap_zero g now t pre (hdr_at h pre) s (some c ∷ src) partial few.0
    ∙ scan-again now _ _ _ _ (partial, few.0)
        (step-more h valid s c t g src pre there (omega (arith, length-append pre (c ∷ []))))
    ∙ deliver (x ∷ rest) (pre ++ (c ∷ [])) whole now (t + 1) h s more valid parsed size few.1
        (Starts-append pre (c ∷ []) st) room' e'
    ∙ rw count

-- The header of a frame.
abbrev pub header_of : {bs : Bytes} → IsFrame bs → MsgHdr
header_of f = hdr_of 0xFC f.crc 2 (8 + length f.body) f.mtype f.flags f.lo f.hi

abbrev pub message_item : ℕ → Bytes → MsgHdr → InputItem
message_item now bs h = record { bytes = bs; timestamp = now; is_hmtl = true; hdr = some h }

-- The reader when the item `i` has been queued.
abbrev pub queued : ℕ → InputItem → Reader → Reader
queued now i s = record s { last_received = now; buff = CircularBuffer.put i s.buff }

pub from_data-frame : (bs : Bytes) (f : IsFrame bs) → from_data bs ≡ ok (header_of f)
unfolding from_data
from_data-frame bs f = rw f.layout

valid-frame : {bs : Bytes} (f : IsFrame bs) → valid_hmtl_header (header_of f) ≡ true
unfolding valid_hmtl_header
valid-frame f = let fits = f.fits in ground arith

length-frame : (bs : Bytes) (f : IsFrame bs) → length bs ≡ 8 + length f.body
length-frame bs f = ap length f.layout ∙ omega arith

emit-frame :
    (now : ℕ) (bs : Bytes) (h : MsgHdr) (e : ℕ) (hdr : Option MsgHdr) (s : Reader)
    → Starts bs
    → from_data bs ≡ ok h
    → emit now (record { bytes = bs; is_hmtl = true; hdr = hdr; empty_reads = e }) s
      ≡ (item (message_item now bs h), queued now (message_item now bs h) s)
unfolding emit
emit-frame now [] h e hdr s st p = absurd st
emit-frame now (b ∷ bs) h e hdr s st p = rw p

step-first :
    (s : Reader) (src : List (Option ℕ)) (t : ℕ)
    → step fresh (reading s (some 0xFC ∷ src) t) ≡ (
      again (record { bytes = 0xFC ∷ []; is_hmtl = true; hdr = none; empty_reads = 0 }),
      reading s src (t + 1),
    )
unfolding step
step-first s src t = refl

-- With nothing pushed back, a message whose bytes arrive in pieces, with at most five empty reads
-- in a row between two of them, is queued as one item under its own header; exactly its bytes are
-- taken from the source.
pub read_item-frame :
    (now t : ℕ) (s : Reader) (bs : Bytes) (f : IsFrame bs) (rest : List (ℕ × ℕ))
    (more : List (Option ℕ))
    → FewGaps rest
    → 0xFC ∷ bytes_of rest ≡ bs
    → read_item now (reading s (some 0xFC ∷ spread rest more) t) ≡ (
      item (message_item now bs (header_of f)),
      queued now (message_item now bs (header_of f)) (reading s more (t + length bs)),
    )
read_item-frame now t s bs f rest more few e =
    let parsed = from_data-frame bs f in
    let size : length bs ≡ (header_of f).length = length-frame bs f in
    let room : 1 < (header_of f).length = omega arith in
    let count : t + 1 + length rest ≡ t + length bs =
      omega (arith, length-bytes_of rest, ap length e) in
    let st : Starts bs = rw (← e) refl in
    unfold read_item scan in
    (scan-again now _ _ _ _ (tt, omega arith) (step-first s (spread rest more) t)
      ∙ deliver rest (0xFC ∷ []) bs now (t + 1) (header_of f) s more (valid-frame f) parsed size few
          refl room e
      ∙ rw count (emit-frame now bs (header_of f) 0 _ _ st parsed))

-- Any message that a builder returns, arriving with nothing pushed back and with at most five
-- empty reads in a row between two of its bytes, is read as one item: the whole message under the
-- header that is parsed from it. Exactly its bytes are taken from the source.
pub read_item-build :
    (q : Request) (now t : ℕ) (s : Reader) (bs : Bytes) (rest : List (ℕ × ℕ))
    (more : List (Option ℕ))
    → build q ≡ ok bs
    → FewGaps rest
    → 0xFC ∷ bytes_of rest ≡ bs
    → (h : MsgHdr) × (from_data bs ≡ ok h)
      × (read_item now (reading s (some 0xFC ∷ spread rest more) t) ≡ (
        item (message_item now bs h),
        queued now (message_item now bs h) (reading s more (t + length bs)),
      ))
read_item-build q now t s bs rest more b few e =
    let f = build-IsFrame q bs b in
    (header_of f, from_data-frame bs f, read_item-frame now t s bs f rest more few e)
