-- ===== src/Config.antt =====
-- The configuration headers of python/hmtl/config.py, and how `DumpConfigHdr` of
-- python/hmtl/HMTLprotocol.py reads them.
pub mod Words
pub mod RoundTrip
pub mod Json
pub mod Structs
pub mod Safe
pub mod Validation
mod Tests
use hmtl.Prelude.{
  ℕ, List, [], ◌∷◌, ◌++◌, Bytes, drop, replicate, Option, none, some, Result, ok, err, type_error,
  index_error, key_error, ◌>>=◌, ◌==◌, if◌then◌else◌,
}
use hmtl.Struct.{Code, byte, short, pack, unpack_from}
use hmtl.Protocol.Constants.{header_fmt, header_magic, output_hdr_fmt}
use hmtl.Protocol.Programs.{output_hdr_pack}
use Words.{ℤ, short_word, short_int}

-- '<Bh': the word of the signed field is packed as an unsigned one.
abbrev pub output_value_fmt : List Code
output_value_fmt = byte ∷ short ∷ []

abbrev pub output_rgb_fmt : List Code
output_rgb_fmt = replicate 6 byte

abbrev pub output_pixels_fmt : List Code
output_pixels_fmt = byte ∷ byte ∷ short ∷ byte ∷ []

abbrev pub output_mpr121_fmt : List Code
output_mpr121_fmt = replicate 14 byte

abbrev pub output_rs485_fmt : List Code
output_rs485_fmt = replicate 3 byte

abbrev pub output_xbee_fmt : List Code
output_xbee_fmt = replicate 2 byte

-- `ConfigHeaderValue` to `ConfigHeaderMPR121`, without the output header.
pub data ConfigHeader : Type 0 where
  value : ℕ → ℤ → ConfigHeader
  rgb : (pins values : ℕ × ℕ × ℕ) → ConfigHeader
  pixels : (clockpin datapin numpixels rgbtype : ℕ) → ConfigHeader
  rs485 : (recvpin xmitpin enablepin : ℕ) → ConfigHeader
  xbee : (recvpin xmitvalue : ℕ) → ConfigHeader
  mpr121 : (irqpin useinterrupt : ℕ) → (thresholds : List ℕ) → ConfigHeader

-- `struct.pack(self.FORMAT, …)` of each class.
unfoldable pub body_pack : ConfigHeader → Result Bytes
unfolding pack short_word
body_pack (value pin v) = do w ← short_word v; pack output_value_fmt (pin ∷ w ∷ [])
body_pack (rgb (p, q, r) (u, v, w)) = pack output_rgb_fmt (p ∷ q ∷ r ∷ u ∷ v ∷ w ∷ [])
body_pack (pixels c d n t) = pack output_pixels_fmt (c ∷ d ∷ n ∷ t ∷ [])
body_pack (rs485 r x e) = pack output_rs485_fmt (r ∷ x ∷ e ∷ [])
body_pack (xbee r x) = pack output_xbee_fmt (r ∷ x ∷ [])
body_pack (mpr121 i u ts) = pack output_mpr121_fmt (i ∷ u ∷ ts)

-- `pack` of each class, under the output header (outputtype, output).
unfoldable pub config_pack : ℕ × ℕ → ConfigHeader → Result Bytes
config_pack (outputtype, output) c = do
  hdr ← output_hdr_pack outputtype output
  body ← body_pack c
  ok (hdr ++ body)

-- `cls(*header)`: another number of fields raises TypeError.
unfoldable pub value_of : List ℕ → Result ConfigHeader
unfolding short_int
value_of (pin ∷ w ∷ []) = ok (value pin (short_int w))
value_of _ = err type_error

unfoldable pub rgb_of : List ℕ → Result ConfigHeader
rgb_of (p ∷ q ∷ r ∷ u ∷ v ∷ w ∷ []) = ok (rgb (p, q, r) (u, v, w))
rgb_of _ = err type_error

unfoldable pub pixels_of : List ℕ → Result ConfigHeader
pixels_of (c ∷ d ∷ n ∷ t ∷ []) = ok (pixels c d n t)
pixels_of _ = err type_error

unfoldable pub rs485_of : List ℕ → Result ConfigHeader
rs485_of (r ∷ x ∷ e ∷ []) = ok (rs485 r x e)
rs485_of _ = err type_error

unfoldable pub xbee_of : List ℕ → Result ConfigHeader
xbee_of (r ∷ x ∷ []) = ok (xbee r x)
xbee_of _ = err type_error

unfoldable pub mpr121_of : List ℕ → Result ConfigHeader
mpr121_of (i ∷ u ∷ ts) = ok (mpr121 i u ts)
mpr121_of _ = err type_error

-- `from_data` of a class with this format, on a found header.
unfoldable pub found :
    List Code → (List ℕ → Result ConfigHeader) → Bytes → Result (Option ConfigHeader)
found fmt of_fields bs = do c ← of_fields (← unpack_from fmt bs 0); ok (some c)

-- The branches of `DumpConfigHdr.full_config` on the output type.
unfoldable pub config_of_type : ℕ → Bytes → Result (Option ConfigHeader)
config_of_type t bs =
    if t == 0x1
    then found output_value_fmt value_of bs
    else (if t == 0x2
        then found output_rgb_fmt rgb_of bs
        else (if t == 0x4
            then found output_pixels_fmt pixels_of bs
            else (if t == 0x6
                then found output_rs485_fmt rs485_of bs
                else (if t == 0x7
                    then found output_xbee_fmt xbee_of bs
                    else (if t == 0x5 then found output_mpr121_fmt mpr121_of bs else ok none)))))

-- A parsed output: its header (outputtype, output) and the configuration.
abbrev pub ParsedConfig : Type 0
ParsedConfig = (ℕ × ℕ) × ConfigHeader

unfoldable pub with_hdr : Bytes → List ℕ → Result (Option ParsedConfig)
unfolding config_of_type
with_hdr bs (t ∷ o ∷ []) = do
  c ← config_of_type t (drop 2 bs)
  ok (elim c [ none ↦ none | some h ↦ some ((t, o), h) ])
with_hdr bs _ = err type_error

-- `DumpConfigHdr.full_config`: an output type without a class gives None.
unfoldable pub full_config : Bytes → Result (Option ParsedConfig)
unfolding with_hdr
full_config bs = do with_hdr bs (← unpack_from output_hdr_fmt bs 0)

-- `ConfigHeaderMain`
pub record ConfigHeaderMain : Type 0 where
  pub magic : ℕ
  pub protocol_version : ℕ
  pub hardware_version : ℕ
  pub baud : ℕ
  pub num_outputs : ℕ
  pub flags : ℕ
  pub device_id : ℕ
  pub address : ℕ

unfoldable pub main_of : List ℕ → Result ConfigHeaderMain
main_of (m ∷ p ∷ h ∷ b ∷ n ∷ f ∷ d ∷ a ∷ []) = ok (record {
  magic = m;
  protocol_version = p;
  hardware_version = h;
  baud = b;
  num_outputs = n;
  flags = f;
  device_id = d;
  address = a;
})
main_of _ = err type_error

-- `ConfigHeaderMain.from_data`
unfoldable pub main_from_data : Bytes → Result ConfigHeaderMain
unfolding main_of
main_from_data bs = do main_of (← unpack_from header_fmt bs 0)

-- What `DumpConfigHdr.config` holds.
pub data DumpConfig : Type 0 where
  main_config : ConfigHeaderMain → DumpConfig
  output_config : ParsedConfig → DumpConfig
  no_config : DumpConfig

-- `DumpConfigHdr.from_data`, at offset 0: the first byte tells the two kinds apart.
unfoldable pub dump_from_data : Bytes → Result DumpConfig
unfolding main_from_data full_config
dump_from_data [] = err index_error
dump_from_data (b ∷ bs) =
    if b == header_magic
    then (main_from_data (b ∷ bs) >>= λ m. ok (main_config m))
    else (full_config (b ∷ bs) >>= λ c. ok (elim c [ none ↦ no_config | some p ↦ output_config p ]))
