-- ===== src/Protocol/Layout.antt =====
-- What the builders of Protocol/Messages and Protocol/Programs put on the wire.
use hmtl.Prelude.{
  ℕ, ◌<◌, ◌%◌, ◌/◌, ◌≡◌, [], ◌∷◌, Bytes, length, Result, ok, err, struct_error, arith, ltb, ◌&&◌,
  if◌then◌else◌, Result-cases, inl, inr,
}
use hmtl.Protocol.Messages.{get_value_msg, get_rgb_msg, get_program_msg}
use hmtl.Protocol.Programs.{prepare}

-- A message as the C structures lay it out: `msg_hdr_t` and what follows it.
abbrev pub wire : ℕ → ℕ → ℕ → ℕ → Bytes → Bytes
wire len mtype flags address body =
    0xFC ∷ 0 ∷ 2 ∷ len ∷ mtype ∷ flags ∷ (address % 256) ∷ (address / 256) ∷ body

-- The value builder returns a message of type 1 with the output and the little-endian value if
-- the address and the value have 16 bits and the output 8, and raises struct.error otherwise.
pub get_value_msg_lem :
    (address output value : ℕ)
    → get_value_msg address output value ≡ (
        if ltb address 0x1_0000 && (ltb output 256 && ltb value 0x1_0000)
        then ok (wire 12 1 0 address (1 ∷ output ∷ (value % 256) ∷ (value / 256) ∷ []))
        else err struct_error)
unfolding get_value_msg
get_value_msg_lem address output value = ground arith

-- The RGB builder returns a message of type 2 with the output and the colour if the address has 16
-- bits and the others have 8, and raises struct.error otherwise.
pub get_rgb_msg_lem :
    (address output r g b : ℕ)
    → get_rgb_msg address output r g b ≡ (
        if ltb address 0x1_0000 && (ltb output 256 && (ltb r 256 && (ltb g 256 && ltb b 256)))
        then ok (wire 13 1 0 address (2 ∷ output ∷ r ∷ g ∷ b ∷ []))
        else err struct_error)
unfolding get_rgb_msg
get_rgb_msg_lem address output r g b = ground arith

pub prepare-eq-ok :
    (program address output : ℕ) (payload : Result Bytes) (bs : Bytes)
    → prepare program address output payload ≡ ok bs
    → (body : Bytes) × (payload ≡ ok body)
      × (bs ≡ wire 43 1 0 address (3 ∷ output ∷ program ∷ body))
      × (address < 0x1_0000)
      × (output < 256)
      × (program < 256)
unfolding prepare
prepare-eq-ok program address output payload bs e = elim (Result-cases payload) [
  | inl (body, p) ↦ (body, p, ground arith, ground arith, ground arith, ground arith)
  | inr (x, p) ↦ absurd (ground arith)
]

pub prepare_lem :
    (program address output : ℕ) (payload : Result Bytes) (body : Bytes)
    → address < 0x1_0000
    → output < 256
    → program < 256
    → payload ≡ ok body
    → prepare program address output payload
      ≡ ok (wire 43 1 0 address (3 ∷ output ∷ program ∷ body))
unfolding prepare
prepare_lem program address output payload body ha ho hp e = ground arith

pub get_program_msg-eq-ok :
    (address output program : ℕ) (body bs : Bytes)
    → get_program_msg address output program body ≡ ok bs
    → (bs ≡ wire 23 1 0 address (3 ∷ output ∷ program ∷ body))
      × (length body ≡ 12)
      × (address < 0x1_0000)
      × (output < 256)
      × (program < 256)
unfolding get_program_msg
get_program_msg-eq-ok address output program body bs e = ground arith
