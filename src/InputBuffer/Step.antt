-- ===== src/InputBuffer/Step.antt =====
-- One round of the loop of `_read_item`: its invariant and its measure.
use hmtl.Prelude.{
  ℕ, ◌+◌, ◌-◌, ◌≤◌, ◌<◌, ◌≡◌, ◌≢◌, [], ◌∷◌, ◌++◌, Bytes, length, drop, All, All-append,
  length-append, length-drop, Option, none, some, Bool, true, false, ok, arith, Bool-cases, inl,
  inr, ◌==◌,
}
use hmtl.Protocol.MsgHdr.{MsgHdr, from_data}
use hmtl.Protocol.MsgHdr.Parse.{from_data_total, from_data-append}
use hmtl.InputBuffer.{
  Reader, Scan, Next, again, leave, give_up, raised, read_unit, rewind, valid_hmtl_header,
  check_header, on_message_byte, on_text_byte, on_start_code, on_byte, on_empty, on_read, step,
  unread, measure,
}

abbrev pub mass : Scan → Reader → ℕ
mass d s = unread s + length d.bytes

-- Text holds no start code and no line end.
abbrev pub IsText : Bytes → Type 0
IsText = All (λ b. (b ≢ 0xFC) × (b ≢ b'\r') × (b ≢ b'\n'))

abbrev pub Starts : Bytes → Type 0
Starts [] = ⊥
Starts (b ∷ bs) = b ≡ 0xFC

-- What `data`, `is_hmtl` and `hdr` hold at the head of the loop.
abbrev pub IsPartial : Bytes → Bool → Option MsgHdr → Type 0
IsPartial bs false none = IsText bs
IsPartial bs false (some h) = ⊥
IsPartial bs true none = Starts bs × (length bs < 8)
IsPartial bs true (some h) =
    Starts bs
    × (8 ≤ length bs)
    × (length bs < h.length)
    × (from_data bs ≡ ok h)
    × (valid_hmtl_header h ≡ true)

-- What they hold behind a `break`: text, or a message as long as its header says.
abbrev pub IsWhole : Bytes → Bool → Option MsgHdr → Type 0
IsWhole bs false none = IsText bs
IsWhole bs false (some h) = ⊥
IsWhole bs true none = ⊥
IsWhole bs true (some h) =
    Starts bs × (length bs ≡ h.length) × (from_data bs ≡ ok h) × (valid_hmtl_header h ≡ true)

abbrev pub IsGood : Scan → Type 0
IsGood d = IsPartial d.bytes d.is_hmtl d.hdr × (d.empty_reads ≤ 5)

abbrev pub Advances : Scan → Reader → Next × Reader → Type 0
Advances d s (again d', s') = IsGood d' × (measure d' s' < measure d s) × (mass d' s' ≤ mass d s)
Advances d s (leave d', s') = IsWhole d'.bytes d'.is_hmtl d'.hdr × (unread s' ≤ mass d s - 1)
Advances d s (give_up, s') = unread s' ≤ mass d s - 1
Advances d s (raised e, s') = ⊥

-- A read takes one unit, if there is one.
abbrev Reads : Reader → Option ℕ × Reader → Type 0
Reads s (none, s') = unread s' ≡ unread s - 1
Reads s (some c, s') = unread s ≡ unread s' + 1

read_unit-Reads : (s : Reader) → Reads s (read_unit s)
unfolding read_unit
read_unit-Reads s = ground arith

unread-rewind : (bs : Bytes) (s : Reader) → unread (rewind bs s) ≡ length bs + unread s
unfolding rewind
unread-rewind bs s = omega (arith, length-append bs s.pushback)

pub Starts-append : (bs more : Bytes) → Starts bs → Starts (bs ++ more)
Starts-append [] more h = absurd h
Starts-append (b ∷ bs) more h = h

Starts-length : (bs : Bytes) → Starts bs → 0 < length bs
Starts-length [] h = absurd h
Starts-length (b ∷ bs) h = omega arith

valid_length : (h : MsgHdr) → valid_hmtl_header h ≡ true → (8 ≤ h.length) × (h.length ≤ 255)
unfolding valid_hmtl_header
valid_length h e = ground arith

module _ (e : ℕ) (s s' : Reader) (reads : unread s ≡ unread s' + 1) (few : e ≤ 5) where
  -- The eighth byte of a message: a valid header, or a false start code.
  check_header-Advances :
      (c : ℕ) (bs : Bytes)
      → Starts bs
      → length bs ≡ 7
      → (h : MsgHdr) → from_data (bs ++ (c ∷ [])) ≡ ok h
      → Advances
          (record { bytes = bs; is_hmtl = true; hdr = none; empty_reads = e })
          s
          (check_header
            (record { bytes = bs ++ (c ∷ []); is_hmtl = true; hdr = none; empty_reads = 0 })
            (ok h)
            s')
  unfolding check_header
  check_header-Advances c bs st n h p = ground (
    arith,
    length-append bs (c ∷ []),
    Starts-append bs (c ∷ []) st,
    length-drop 1 (bs ++ (c ∷ [])),
    length-append (drop 1 (bs ++ (c ∷ []))) s'.pushback,
  )

  on_message_byte_header :
      (c : ℕ) (bs : Bytes)
      → Starts bs
      → length bs < 8
      → Advances
          (record { bytes = bs; is_hmtl = true; hdr = none; empty_reads = e })
          s
          (on_message_byte c
            (record { bytes = bs; is_hmtl = true; hdr = none; empty_reads = 0 })
            s')
  unfolding on_message_byte
  on_message_byte_header c bs st n = elim (Bool-cases (length (bs ++ (c ∷ [])) == 8)) [
    | inl eight ↦
        let (h, p) = from_data_total (bs ++ (c ∷ [])) (ground arith) in
        rw (eight, p)
          (check_header-Advances c bs st (ground (arith, length-append bs (c ∷ []))) h p)
    | inr short ↦ rw short (ground (arith, length-append bs (c ∷ []), Starts-append bs (c ∷ []) st))
  ]

  -- A byte behind the header.
  on_message_byte_body :
      (c : ℕ) (bs : Bytes) (h : MsgHdr)
      → IsPartial bs true (some h)
      → Advances
          (record { bytes = bs; is_hmtl = true; hdr = some h; empty_reads = e })
          s
          (on_message_byte c
            (record { bytes = bs; is_hmtl = true; hdr = some h; empty_reads = 0 })
            s')
  unfolding on_message_byte
  on_message_byte_body c bs h (st, n, m, p, v) =
      let longer : (length (bs ++ (c ∷ [])) == 8) ≡ false =
        ground (arith, length-append bs (c ∷ [])) in
      rw longer (
        ground (
          arith,
          length-append bs (c ∷ []),
          Starts-append bs (c ∷ []) st,
          from_data-append bs (c ∷ []) n,
        ))

  -- A byte outside a message.
  on_text-Advances :
      (c : ℕ) (bs : Bytes)
      → IsText bs
      → c ≢ 0xFC
      → Advances
          (record { bytes = bs; is_hmtl = false; hdr = none; empty_reads = e })
          s
          (on_text_byte c (record { bytes = bs; is_hmtl = false; hdr = none; empty_reads = 0 }), s')
  unfolding on_text_byte
  on_text-Advances c bs t ne =
      let longer : (c ≢ b'\r') → (c ≢ b'\n') → IsText (bs ++ (c ∷ [])) =
        λ r n. All-append _ bs (c ∷ []) t ((ne, r, n), tt) in
      ground (arith, length-append bs (c ∷ []), longer)

  -- A start code outside a message.
  on_start_code-Advances :
      (c : ℕ) (bs : Bytes)
      → c ≡ 0xFC
      → IsText bs
      → Advances
          (record { bytes = bs; is_hmtl = false; hdr = none; empty_reads = e })
          s
          (on_start_code c (record { bytes = bs; is_hmtl = false; hdr = none; empty_reads = 0 }) s')
  unfolding on_start_code
  on_start_code-Advances c [] start t = ground arith
  on_start_code-Advances c (b ∷ bs) start t = ground arith

  on_byte-Advances :
      (c : ℕ) (bs : Bytes) (is_hmtl : Bool) (hdr : Option MsgHdr)
      → IsPartial bs is_hmtl hdr
      → Advances
          (record { bytes = bs; is_hmtl = is_hmtl; hdr = hdr; empty_reads = e })
          s
          (on_byte c (record { bytes = bs; is_hmtl = is_hmtl; hdr = hdr; empty_reads = 0 }) s')
  unfolding on_byte
  on_byte-Advances c bs true none p = on_message_byte_header c bs p.0 p.1
  on_byte-Advances c bs true (some h) p = on_message_byte_body c bs h p
  on_byte-Advances c bs false (some h) p = absurd p
  on_byte-Advances c bs false none p = elim (Bool-cases (c == 0xFC)) [
    | inl start ↦ rw start (on_start_code-Advances c bs (ground arith) p)
    | inr other ↦ rw other (on_text-Advances c bs p (ground arith))
  ]

-- An empty read.
on_empty-Advances :
    (bs : Bytes) (is_hmtl : Bool) (hdr : Option MsgHdr) (e : ℕ) (s s' : Reader)
    → unread s' ≡ unread s - 1
    → IsPartial bs is_hmtl hdr
    → e ≤ 5
    → let d : Scan = record { bytes = bs; is_hmtl = is_hmtl; hdr = hdr; empty_reads = e } in
      Advances d s (on_empty d s')
unfolding on_empty
on_empty-Advances bs true none e s s' r p few =
    ground (arith, Starts-length bs p.0, length-drop 1 bs, length-append (drop 1 bs) s'.pushback)
on_empty-Advances bs true (some h) e s s' r p few =
    ground (arith, Starts-length bs p.0, length-drop 1 bs, length-append (drop 1 bs) s'.pushback)
on_empty-Advances bs false (some h) e s s' r p few = absurd p
on_empty-Advances bs false none e s s' r p few = ground arith

on_read-Advances :
    (c : Option ℕ) (d : Scan) (s s' : Reader)
    → Reads s (c, s')
    → IsGood d
    → Advances d s (on_read c d s')
unfolding on_read
on_read-Advances none d s s' r (p, few) =
    on_empty-Advances d.bytes d.is_hmtl d.hdr d.empty_reads s s' r p few
on_read-Advances (some c) d s s' r (p, few) =
    on_byte-Advances d.empty_reads s s' r few c d.bytes d.is_hmtl d.hdr p

-- A round keeps the loop's invariant and lowers its measure, or it ends the loop with a whole
-- item; it raises nothing, and no byte is read twice for nothing.
pub step-Advances : (d : Scan) (s : Reader) → IsGood d → Advances d s (step d s)
unfolding step
step-Advances d s good =
    let (c, s') = read_unit s in on_read-Advances c d s s' (read_unit-Reads s) good
