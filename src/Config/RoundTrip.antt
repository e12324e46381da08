-- ===== src/Config/RoundTrip.antt =====
-- Configuration headers packed and read back.
use hmtl.Prelude.{
  ◌==◌, false, sym, ℕ, ◌≡◌, ◌∙◌, refl, ap, List, [], ◌∷◌, ◌++◌, Bytes, append-nil, some, Result, ok,
  >>=-eq-ok, arith,
}
use hmtl.Struct.{Code, pack, unpack_from}
use hmtl.Struct.RoundTrip.{unpack-pack}
use hmtl.Protocol.Constants.{header_magic}
use hmtl.Protocol.Programs.{output_hdr_pack}
use hmtl.Config
use hmtl.Config.{
  with_hdr, ParsedConfig, dump_from_data, output_config, ConfigHeader, value, rgb, pixels, rs485,
  xbee, mpr121, body_pack, config_pack, found, config_of_type, full_config, value_of, rgb_of,
  pixels_of, rs485_of, xbee_of, mpr121_of,
}
use hmtl.Config.Words.{short_word, short_int-short_word}

ok_inj : {x y : Bytes} → ok x ≡ ok y → x ≡ y
ok_inj e = ground (arith, e)

-- The output type of each class.
abbrev pub type_of : ConfigHeader → ℕ
type_of (value pin v) = 0x1
type_of (rgb ps vs) = 0x2
type_of (pixels c d n t) = 0x4
type_of (rs485 r x e) = 0x6
type_of (xbee r x) = 0x7
type_of (mpr121 i u ts) = 0x5

read_back :
    (fmt : List Code) (of_fields : List ℕ → Result ConfigHeader) (vs : List ℕ) (body : Bytes)
    → (c : ConfigHeader) → pack fmt vs ≡ ok body
    → of_fields vs ≡ ok c
    → found fmt of_fields body ≡ ok (some c)
unfolding found unpack_from
read_back fmt of_fields vs body c e made =
    rw (rw (append-nil body) at (unpack-pack fmt vs body [] e), made) refl

config_of_type-body_pack :
    (c : ConfigHeader) (body : Bytes)
    → body_pack c ≡ ok body
    → config_of_type (type_of c) body ≡ ok (some c)
unfolding config_of_type body_pack value_of rgb_of pixels_of rs485_of xbee_of mpr121_of
config_of_type-body_pack (value pin v) body e =
    let (w, word, packed) = >>=-eq-ok (short_word v) _ e in
    read_back Config.output_value_fmt value_of (pin ∷ w ∷ []) body (value pin v) packed
      (rw (short_int-short_word v w word) refl)
config_of_type-body_pack (rgb (p, q, r) (u, v, w)) body e =
    read_back _ rgb_of (p ∷ q ∷ r ∷ u ∷ v ∷ w ∷ []) body _ e refl
config_of_type-body_pack (pixels c d n t) body e =
    read_back _ pixels_of (c ∷ d ∷ n ∷ t ∷ []) body _ e refl
config_of_type-body_pack (rs485 r x f) body e = read_back _ rs485_of (r ∷ x ∷ f ∷ []) body _ e refl
config_of_type-body_pack (xbee r x) body e = read_back _ xbee_of (r ∷ x ∷ []) body _ e refl
config_of_type-body_pack (mpr121 i u ts) body e = read_back _ mpr121_of (i ∷ u ∷ ts) body _ e refl

output_hdr_pack-eq-ok : (t o : ℕ) (hdr : Bytes) → output_hdr_pack t o ≡ ok hdr → hdr ≡ t ∷ o ∷ []
unfolding output_hdr_pack
output_hdr_pack-eq-ok t o hdr e = ground arith

config_pack-eq-ok :
    (t o : ℕ) (c : ConfigHeader) (bs : Bytes)
    → config_pack (t, o) c ≡ ok bs
    → (body : Bytes) × (body_pack c ≡ ok body) × (bs ≡ t ∷ o ∷ body)
unfolding config_pack
config_pack-eq-ok t o c bs e =
    let (hdr, packed, rest) = >>=-eq-ok (output_hdr_pack t o) _ e in
    let (body, packed', same) = >>=-eq-ok (body_pack c) _ rest in
    (
      body,
      packed',
      ok_inj (sym same) ∙ ap (λ (h : Bytes). h ++ body) (output_hdr_pack-eq-ok t o hdr packed),
    )

full_config-config_pack :
    (c : ConfigHeader) (output : ℕ) (bs : Bytes)
    → config_pack (type_of c, output) c ≡ ok bs
    → full_config bs ≡ ok (some ((type_of c, output), c))
unfolding full_config with_hdr unpack_from
full_config-config_pack c output bs e =
    let (body, packed, whole) = config_pack-eq-ok (type_of c) output c bs e in
    rw (whole, config_of_type-body_pack c body packed) refl

-- The first byte of a packed header is its type, which is not the magic byte of `config_hdr_t`.
type_of-magic : (c : ConfigHeader) → (type_of c == header_magic) ≡ false
type_of-magic (value pin v) = refl
type_of-magic (rgb ps vs) = refl
type_of-magic (pixels c d n t) = refl
type_of-magic (rs485 r x e) = refl
type_of-magic (xbee r x) = refl
type_of-magic (mpr121 i u ts) = refl

dump_split :
    (t : ℕ) (bs rest : Bytes) (p : ParsedConfig)
    → bs ≡ t ∷ rest
    → (t == header_magic) ≡ false
    → full_config bs ≡ ok (some p)
    → dump_from_data bs ≡ ok (output_config p)
unfolding dump_from_data
dump_split t bs rest p e other read = rw (e, other, rw e at read) refl

-- A configuration header of any class, packed under an output header of its own type, is read
-- back by `DumpConfigHdr.from_data`: the same output header and the same fields, a signed value
-- included.
pub dump_from_data-config_pack :
    (c : ConfigHeader) (output : ℕ) (bs : Bytes)
    → config_pack (type_of c, output) c ≡ ok bs
    → dump_from_data bs ≡ ok (output_config ((type_of c, output), c))
dump_from_data-config_pack c output bs e =
    let (body, packed, starts) = config_pack-eq-ok (type_of c) output c bs e in
    dump_split (type_of c) bs (output ∷ body) _ starts (type_of-magic c)
      (full_config-config_pack c output bs e)
