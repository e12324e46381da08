-- ===== src/Protocol/MsgHdr/Parse.antt =====
-- `MsgHdr.from_data` by the number of bytes.
use hmtl.Prelude.{
  ℕ, ◌+◌, ◌*◌, ◌≤◌, ◌<◌, ◌≡◌, refl, ◌∷◌, ◌++◌, Bytes, length, ok, err, struct_error, arith,
}
use hmtl.Protocol.MsgHdr.{MsgHdr, from_data}

-- The header that eight bytes stand for.
abbrev pub hdr_of : ℕ → ℕ → ℕ → ℕ → ℕ → ℕ → ℕ → ℕ → MsgHdr
hdr_of s c v l t f lo hi = record {
  startcode = s;
  crc = c;
  version = v;
  length = l;
  mtype = t;
  flags = f;
  address = lo + 256 * hi;
}

pub from_data_total : (bs : Bytes) → 8 ≤ length bs → (h : MsgHdr) × (from_data bs ≡ ok h)
unfolding from_data
from_data_total (s ∷ c ∷ v ∷ l ∷ t ∷ f ∷ lo ∷ hi ∷ rest) h = (hdr_of s c v l t f lo hi, refl)
from_data_total _ h = absurd (omega arith)

pub from_data_short : (bs : Bytes) → length bs < 8 → from_data bs ≡ err struct_error
unfolding from_data
from_data_short (s ∷ c ∷ v ∷ l ∷ t ∷ f ∷ lo ∷ hi ∷ rest) h = absurd (omega arith)
from_data_short _ h = refl

pub from_data-append : (bs more : Bytes) → 8 ≤ length bs → from_data (bs ++ more) ≡ from_data bs
unfolding from_data
from_data-append (s ∷ c ∷ v ∷ l ∷ t ∷ f ∷ lo ∷ hi ∷ rest) more h = refl
from_data-append _ more h = absurd (omega arith)
