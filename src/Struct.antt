-- ===== src/Struct.antt =====
-- Python's struct module in the formats that python/hmtl uses: little-endian, no alignment.
-- Every format there starts with "<", or has one field size only.
pub mod RoundTrip
use hmtl.Prelude.{
  ℕ, ◌+◌, ◌*◌, ◌/◌, ◌%◌, ◌^◌, List, [], ◌∷◌, Bytes, ltb, if◌then◌else◌, Result, ok, err, Error,
  struct_error, ◌>>=◌, drop,
}

-- "B", "H", "L" (or "I") and "x". A "h" is an "H" that holds the two's-complement word.
pub data Code : Type 0 where
  byte short long pad : Code

-- struct.pack: an argument out of its field's range, or a wrong number of arguments, raises
-- struct.error.
unfoldable pub pack : List Code → List ℕ → Result Bytes
pack [] [] = ok []
pack [] (v ∷ vs) = err struct_error
pack (pad ∷ cs) vs = do rest ← pack cs vs; ok (0 ∷ rest)
pack (byte ∷ cs) [] = err struct_error
pack (byte ∷ cs) (v ∷ vs) = do
  rest ← pack cs vs
  if ltb v 256 then ok (v ∷ rest) else err struct_error
pack (short ∷ cs) [] = err struct_error
pack (short ∷ cs) (v ∷ vs) = do
  rest ← pack cs vs
  if ltb v 0x1_0000 then ok ((v % 256) ∷ (v / 256) ∷ rest) else err struct_error
pack (long ∷ cs) [] = err struct_error
pack (long ∷ cs) (v ∷ vs) = do
  rest ← pack cs vs
  if ltb v 0x1_0000_0000
      then ok ((v % 256) ∷ (v / 256 % 256) ∷ (v / 0x1_0000 % 256) ∷ (v / 0x100_0000) ∷ rest)
      else err struct_error

-- struct.unpack_from at offset 0: bytes behind the format are left alone.
unfoldable pub unpack : List Code → Bytes → Result (List ℕ)
unpack [] bs = ok []
unpack (pad ∷ cs) [] = err struct_error
unpack (pad ∷ cs) (b ∷ bs) = unpack cs bs
unpack (byte ∷ cs) [] = err struct_error
unpack (byte ∷ cs) (b ∷ bs) = do vs ← unpack cs bs; ok (b ∷ vs)
unpack (short ∷ cs) [] = err struct_error
unpack (short ∷ cs) (b ∷ []) = err struct_error
unpack (short ∷ cs) (b ∷ c ∷ bs) = do vs ← unpack cs bs; ok ((b + 256 * c) ∷ vs)
unpack (long ∷ cs) [] = err struct_error
unpack (long ∷ cs) (b ∷ []) = err struct_error
unpack (long ∷ cs) (b ∷ c ∷ []) = err struct_error
unpack (long ∷ cs) (b ∷ c ∷ d ∷ []) = err struct_error
unpack (long ∷ cs) (b ∷ c ∷ d ∷ e ∷ bs) = do
  vs ← unpack cs bs
  ok ((b + 256 * c + 0x1_0000 * d + 0x100_0000 * e) ∷ vs)

unfoldable pub unpack_from : List Code → Bytes → ℕ → Result (List ℕ)
unfolding unpack
unpack_from fmt bs offset = unpack fmt (drop offset bs)

abbrev pub width : Code → ℕ
width byte = 1
width short = 2
width long = 4
width pad = 1

-- struct.calcsize
abbrev pub calcsize : List Code → ℕ
calcsize [] = 0
calcsize (c ∷ cs) = width c + calcsize cs

-- `struct.pack(fmt, *args)` where to evaluate the arguments may raise.
unfoldable pub pack_args : List Code → Result (List ℕ) → Result Bytes
unfolding pack
pack_args fmt args = do vs ← args; pack fmt vs
