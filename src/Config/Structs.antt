-- ===== src/Config/Structs.antt =====
-- The structs of python/hmtl/config.py that are built from a JSON configuration, or that update one
-- setting of a module.
use hmtl.Prelude.{
  ℕ, [], ◌∷◌, ◌++◌, Bytes, length, Option, none, some, Result, ok, err, key_error, exception, ◌>>=◌,
}
use hmtl.Struct.{byte, short, pack}
use hmtl.Protocol.Constants.{
  ConfigType, config_types, header, value, rgb, pixels, mpr121, rs485, xbee, address, device_id,
  baud, output_hdr_fmt, header_fmt, header_magic, baud_to_byte,
}
use hmtl.Protocol.Messages.{three}
use hmtl.Config.{
  output_value_fmt, output_rgb_fmt, output_pixels_fmt, output_mpr121_fmt, output_rs485_fmt,
  output_xbee_fmt,
}
use hmtl.Config.Words.{short_word}
use hmtl.Config.Json.{OutputDict, TypeName, known, unknown, ConfigDict, lookup}

abbrev pub config_start_byte : ℕ
config_start_byte = 0xFD

-- `get_config_start`
unfoldable pub get_config_start : TypeName → Result Bytes
get_config_start unknown = err key_error
get_config_start (known t) = pack (byte ∷ byte ∷ []) (config_start_byte ∷ config_types t ∷ [])

-- `packed_output`, by the output's type.
unfoldable pub output_struct : ConfigType → OutputDict → Result Bytes
output_struct value d = do
  pin ← lookup d.pin
  v ← lookup d.value
  w ← short_word v
  pack output_value_fmt (pin ∷ w ∷ [])
output_struct rgb d = do
  pins ← lookup d.pins >>= three
  values ← lookup d.values >>= three
  pack output_rgb_fmt (pins ++ values)
output_struct pixels d = do
  c ← lookup d.clockpin
  p ← lookup d.datapin
  n ← lookup d.numpixels
  t ← lookup d.rgbtype
  pack output_pixels_fmt (c ∷ p ∷ n ∷ t ∷ [])
output_struct rs485 d = do
  r ← lookup d.recvpin
  x ← lookup d.xmitpin
  e ← lookup d.enablepin
  pack output_rs485_fmt (r ∷ x ∷ e ∷ [])
output_struct xbee d = do
  r ← lookup d.recvpin
  x ← lookup d.xmitpin
  pack output_xbee_fmt (r ∷ x ∷ [])
output_struct mpr121 d = do
  i ← lookup d.irqpin
  u ← lookup d.useinterrupt
  ts ← lookup d.threshold
  pack output_mpr121_fmt (i ∷ u ∷ ts)
output_struct _ d = err exception

-- `get_output_struct`, on what stands under "type".
unfoldable pub struct_of_type : Option TypeName → OutputDict → Result Bytes
unfolding get_config_start output_struct
struct_of_type none d = err key_error
struct_of_type (some unknown) d = err key_error
struct_of_type (some (known t)) d = do
  packed_start ← get_config_start (known t)
  packed_hdr ← pack output_hdr_fmt (config_types t ∷ 0 ∷ [])
  packed_output ← output_struct t d
  ok (packed_start ++ packed_hdr ++ packed_output)

unfoldable pub get_output_struct : OutputDict → Result Bytes
unfolding struct_of_type
get_output_struct d = struct_of_type d.type d

-- `get_header_struct`
unfoldable pub get_header_struct : ConfigDict → Result Bytes
unfolding get_config_start
get_header_struct c = do
  h ← lookup c.header
  packed_start ← get_config_start (known header)
  protocol_version ← lookup h.protocol_version
  hardware_version ← lookup h.hardware_version
  rate ← lookup h.baud
  outputs ← lookup c.outputs
  flags ← lookup h.flags
  id ← lookup h.device_id
  addr ← lookup h.address
  packed ← pack header_fmt (
      header_magic
      ∷ protocol_version
      ∷ hardware_version
      ∷ baud_to_byte rate
      ∷ length outputs
      ∷ flags
      ∷ id
      ∷ addr
      ∷ [])
  ok (packed_start ++ packed)

-- `get_address_struct`, `get_device_id_struct` and `get_baud_struct`: updates of one setting.
unfoldable pub get_address_struct : ℕ → Result Bytes
unfolding get_config_start
get_address_struct addr = do
  packed_start ← get_config_start (known address)
  packed_address ← pack (short ∷ []) (addr ∷ [])
  ok (packed_start ++ packed_address)

unfoldable pub get_device_id_struct : ℕ → Result Bytes
unfolding get_config_start
get_device_id_struct id = do
  packed_start ← get_config_start (known device_id)
  packed_device_id ← pack (short ∷ []) (id ∷ [])
  ok (packed_start ++ packed_device_id)

unfoldable pub get_baud_struct : ℕ → Result Bytes
unfolding get_config_start
get_baud_struct rate = do
  packed_start ← get_config_start (known baud)
  packed_baud ← pack (byte ∷ []) (baud_to_byte rate ∷ [])
  ok (packed_start ++ packed_baud)
