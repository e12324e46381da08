-- ===== src/Triangle/Length.antt =====
-- The length byte of the messages of python/hmtl/TrianglePrograms.py.
use hmtl.Prelude.{
  ℕ, ◌+◌, ◌%◌, ◌/◌, ◌≡◌, ◌∙◌, refl, sym, ap, ◌∷◌, ◌++◌, Bytes, length, length-append, ok, arith,
}
use hmtl.Struct.RoundTrip.{length-pack_args}
use hmtl.Protocol.Frame.{IsFrame}
use hmtl.Protocol.Layout.{wire, prepare-eq-ok}
use hmtl.Triangle.{
  TriangleProgram, static, snake, static_fmt, snake_fmt, static_pack, snake_pack, TriangleStatic,
  TriangleSnake, pack, get_code, msg,
}

length-static_pack : (p : TriangleStatic) (bs : Bytes) → static_pack p ≡ ok bs → length bs ≡ 12
unfolding static_pack
length-static_pack p bs e = length-pack_args static_fmt _ bs e

length-snake_pack : (p : TriangleSnake) (bs : Bytes) → snake_pack p ≡ ok bs → length bs ≡ 12
unfolding snake_pack
length-snake_pack p bs e = length-pack_args snake_fmt _ bs e

length-pack : (p : TriangleProgram) (bs : Bytes) → pack p ≡ ok bs → length bs ≡ 12
unfolding pack
length-pack (static p) bs e = length-static_pack p bs e
length-pack (snake p) bs e = length-snake_pack p bs e

-- The length byte of a message.
abbrev length_byte : Bytes → ℕ
length_byte (s ∷ c ∷ v ∷ l ∷ rest) = l
length_byte _ = 0

wire-IsShort :
    (address output code : ℕ) (body bs : Bytes)
    → length body ≡ 12
    → bs ≡ wire 43 1 0 address (3 ∷ output ∷ code ∷ body)
    → ¬ IsFrame bs
wire-IsShort address output code body bs n e f =
    let same : wire 43 1 0 address (3 ∷ output ∷ code ∷ body)
        ≡ 0xFC ∷ f.crc ∷ 2 ∷ (8 + length f.body) ∷ f.mtype ∷ f.flags ∷ f.lo ∷ f.hi ∷ f.body =
      sym e ∙ f.layout in
    let l : 43 ≡ 8 + length f.body = ap length_byte same in
    let whole : length (wire 43 1 0 address (3 ∷ output ∷ code ∷ body)) ≡ 8 + length f.body =
      ap length same ∙ omega arith in
    absurd (omega arith)

wire-IsFrame_more :
    (address output code : ℕ) (body bs more : Bytes)
    → length body ≡ 12
    → length more ≡ 20
    → bs ≡ wire 43 1 0 address (3 ∷ output ∷ code ∷ body)
    → IsFrame (bs ++ more)
wire-IsFrame_more address output code body bs more n k e =
    let size : 8 + length (3 ∷ output ∷ code ∷ (body ++ more)) ≡ 43 =
      omega (arith, length-append body more) in
    record {
      crc = 0;
      mtype = 1;
      flags = 0;
      lo = address % 256;
      hi = address / 256;
      body = 3 ∷ output ∷ code ∷ (body ++ more);
      layout = rw (e, size) refl;
      fits = omega arith;
    }

-- The message of a triangle program, where it is built, has 23 bytes and is no whole message. With
-- any 20 bytes behind it, it is one, so that a reader takes the first 20 bytes of what comes next
-- for its end.
pub msg_length :
    (address output : ℕ) (p : TriangleProgram) (bs : Bytes)
    → msg address output p ≡ ok bs
    → (length bs ≡ 23) × (¬ IsFrame bs) × ((more : Bytes) → length more ≡ 20 → IsFrame (bs ++ more))
unfolding msg
msg_length address output p bs e =
    let (body, packed, layout, _, _, _) = prepare-eq-ok (get_code p) address output (pack p) bs e in
    let n : length body ≡ 12 = length-pack p body packed in
    (
      omega (arith, ap length layout),
      wire-IsShort address output (get_code p) body bs n layout,
      λ more k. wire-IsFrame_more address output (get_code p) body bs more n k layout,
    )
