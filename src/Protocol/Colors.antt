-- ===== src/Protocol/Colors.antt =====
-- The checks of `ProgramColor.__init__` and what `struct` asks for.
use hmtl.Prelude.{ℕ, ◌<◌, ◌≡◌, List, [], ◌∷◌, Bytes, length, replicate, ok, arith}
use hmtl.Struct.{pack_args, byte}
use hmtl.Struct.RoundTrip.{Fits, pack-Fits}
use hmtl.Protocol.Messages.{three}
use hmtl.Protocol.Programs.{ProgramColor, color_new, color_pack, color_fmt, color_msg}
use hmtl.Protocol.Layout.{wire, prepare_lem}

color_new-eq-ok :
    (r g b start len : ℕ) (p : ProgramColor)
    → color_new (r ∷ g ∷ b ∷ []) start len ≡ ok p
    → (p ≡ record { values = r ∷ g ∷ b ∷ []; start = start; length = len })
      × ((r < 256) × (g < 256) × (b < 256))
      × (start < 0x1_0000)
      × (len < 0x1_0000)
unfolding color_new
color_new-eq-ok r g b start len p e = ground (arith, e)

color_new_short :
    (values : List ℕ) (start len : ℕ) (p : ProgramColor)
    → color_new values start len ≡ ok p
    → length values ≡ 3
unfolding color_new
color_new_short values start len p e = ground (arith, e)

color_pack_fits :
    (r g b start len : ℕ)
    → (r < 256) × (g < 256) × (b < 256)
    → start < 0x1_0000
    → len < 0x1_0000
    → (body : Bytes) × (color_pack (record { values = r ∷ g ∷ b ∷ []; start = start; length = len })
        ≡ ok body)
unfolding color_pack three pack_args
color_pack_fits r g b start len (hr, hg, hb) hs hl =
    let zero_fits : Fits (replicate 25 byte) (replicate 25 0) = omega arith in
    pack-Fits color_fmt (r ∷ g ∷ b ∷ start ∷ len ∷ replicate 25 0)
      (hr, (hg, (hb, (hs, (hl, zero_fits)))))

-- A colour request that the constructor takes packs and is sent: for an address of 16 bits and an
-- output of 8 bits the builder raises nothing.
pub color_msg-color_new :
    (address output : ℕ) (values : List ℕ) (start len : ℕ) (p : ProgramColor)
    → address < 0x1_0000
    → output < 256
    → color_new values start len ≡ ok p
    → (body : Bytes) × (color_msg address output p
        ≡ ok (wire 43 1 0 address (3 ∷ output ∷ 0x31 ∷ body)))
unfolding color_msg
color_msg-color_new address output (r ∷ g ∷ b ∷ []) start len p ha ho e =
    let (same, rgb, hs, hl) = color_new-eq-ok r g b start len p e in
    let (body, packed) = color_pack_fits r g b start len rgb hs hl in
    (body, rw same (prepare_lem 0x31 address output _ body ha ho (omega arith) packed))
color_msg-color_new address output [] start len p ha ho e =
    absurd (omega (arith, color_new_short [] start len p e))
color_msg-color_new address output (r ∷ []) start len p ha ho e =
    absurd (omega (arith, color_new_short _ start len p e))
color_msg-color_new address output (r ∷ g ∷ []) start len p ha ho e =
    absurd (omega (arith, color_new_short _ start len p e))
color_msg-color_new address output (r ∷ g ∷ b ∷ c ∷ more) start len p ha ho e =
    absurd (omega (arith, color_new_short _ start len p e))
