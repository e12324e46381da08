-- ===== src/Protocol/Constants.antt =====
-- The constants of python/hmtl/constants.py and of the head of python/hmtl/HMTLprotocol.py.
use hmtl.Prelude.{ℕ, ◌+◌, ◌*◌, ◌/◌, List, [], ◌∷◌, replicate}
use hmtl.Struct.{Code, byte, short, long}

abbrev pub header_fmt : List Code
header_fmt = byte ∷ byte ∷ byte ∷ byte ∷ byte ∷ byte ∷ short ∷ short ∷ []

abbrev pub header_magic : ℕ
header_magic = 0x5C

abbrev pub output_hdr_fmt : List Code
output_hdr_fmt = byte ∷ byte ∷ []

unfoldable pub baud_to_byte : ℕ → ℕ
baud_to_byte baud = baud / 1200

unfoldable pub byte_to_baud : ℕ → ℕ
byte_to_baud b = b * 1200

abbrev pub msg_hdr_fmt : List Code
msg_hdr_fmt = byte ∷ byte ∷ byte ∷ byte ∷ byte ∷ byte ∷ short ∷ []

abbrev pub msg_type_output : ℕ
msg_type_output = 1

abbrev pub msg_type_poll : ℕ
msg_type_poll = 2

abbrev pub msg_type_set_addr : ℕ
msg_type_set_addr = 3

abbrev pub msg_type_dumpconfig : ℕ
msg_type_dumpconfig = 0xE0

abbrev pub msg_flag_response : ℕ
msg_flag_response = 2

abbrev pub msg_flag_more_data : ℕ
msg_flag_more_data = 4

abbrev pub msg_value_fmt : List Code
msg_value_fmt = short ∷ []

abbrev pub msg_rgb_fmt : List Code
msg_rgb_fmt = byte ∷ byte ∷ byte ∷ []

abbrev pub msg_program_fmt : List Code
msg_program_fmt = byte ∷ []

abbrev pub msg_base_len : ℕ
msg_base_len = 8

abbrev pub msg_output_len : ℕ
msg_output_len = msg_base_len + 2

abbrev pub msg_value_len : ℕ
msg_value_len = msg_output_len + 2

abbrev pub msg_rgb_len : ℕ
msg_rgb_len = msg_output_len + 3

abbrev pub msg_program_value_len : ℕ
msg_program_value_len = 12

abbrev pub msg_program_len : ℕ
msg_program_len = msg_output_len + 1 + msg_program_value_len

abbrev pub msg_poll_len : ℕ
msg_poll_len = msg_base_len

abbrev pub msg_dumpconfig_len : ℕ
msg_dumpconfig_len = msg_base_len

abbrev pub broadcast : ℕ
broadcast = 65535

abbrev pub msg_program_none_type : ℕ
msg_program_none_type = 0

abbrev pub msg_program_blink_type : ℕ
msg_program_blink_type = 1

abbrev pub msg_program_timed_change_type : ℕ
msg_program_timed_change_type = 2

abbrev pub msg_program_level_value_type : ℕ
msg_program_level_value_type = 3

abbrev pub msg_program_sound_value_type : ℕ
msg_program_sound_value_type = 4

abbrev pub msg_program_none_fmt : List Code
msg_program_none_fmt = replicate msg_program_value_len byte

abbrev pub msg_program_blink_fmt : List Code
msg_program_blink_fmt = short ∷ byte ∷ byte ∷ byte ∷ short ∷ byte ∷ byte ∷ byte ∷ byte ∷ byte ∷ []

abbrev pub msg_program_timed_change_fmt : List Code
msg_program_timed_change_fmt = long ∷ byte ∷ byte ∷ byte ∷ byte ∷ byte ∷ byte ∷ byte ∷ byte ∷ []

-- The keys of `CONFIG_TYPES`.
pub data ConfigType : Type 0 where
  header value rgb program pixels mpr121 rs485 xbee address device_id baud : ConfigType

abbrev pub config_types : ConfigType → ℕ
config_types header = 0x0
config_types value = 0x1
config_types rgb = 0x2
config_types program = 0x3
config_types pixels = 0x4
config_types mpr121 = 0x5
config_types rs485 = 0x6
config_types xbee = 0x7
config_types address = 0xE0
config_types device_id = 0xE1
config_types baud = 0xE2
