-- ===== src/Config/Words.antt =====
-- The signed 16-bit field of `struct`, "h": two's complement.
use hmtl.Prelude.{ℕ, ◌-◌, ◌≡◌, Result, ok, err, struct_error, ltb, if◌then◌else◌, arith}

-- Integers over the native numbers: `negsuc n` is -(n + 1).
pub data ℤ : Type 0 where
  pos negsuc : ℕ → ℤ

-- The word that packs an integer; one out of range raises struct.error.
unfoldable pub short_word : ℤ → Result ℕ
short_word (pos n) = if ltb n 0x8000 then ok n else err struct_error
short_word (negsuc n) = if ltb n 0x8000 then ok (0xFFFF - n) else err struct_error

unfoldable pub short_int : ℕ → ℤ
short_int w = if ltb w 0x8000 then pos w else negsuc (0xFFFF - w)

pub short_int-short_word : (v : ℤ) (w : ℕ) → short_word v ≡ ok w → short_int w ≡ v
unfolding short_word short_int
short_int-short_word (pos n) w e = ground arith
short_int-short_word (negsuc n) w e = ground arith
