-- ===== src/Config/Json.antt =====
-- python/hmtl/HMTLjson.py: the validation of a JSON configuration, and what it adds to it.
use hmtl.Prelude.{
  ℕ, ◌*◌, List, [], ◌∷◌, length, Option, none, some, Bool, true, false, ◌&&◌, Result, ok, err,
  key_error, index_error, ◌>>=◌, leb, ◌==◌, if◌then◌else◌,
}
use Prim.Native.Nat.{bit_or}
use hmtl.Protocol.Constants.{
  ConfigType, header, value, rgb, program, pixels, mpr121, rs485, xbee, address, device_id, baud,
}
use hmtl.Config.Words.{ℤ}

-- The string under "type": a key of `CONFIG_TYPES`, or another.
pub data TypeName : Type 0 where
  known : ConfigType → TypeName
  unknown : TypeName

-- An output's dict, key by key, where its values have the types that the keys are meant for: its
-- numbers are ints, of which `value` may be negative, and its lists have ints. Other JSON values,
-- on which the code below raises TypeError, are outside of the model.
pub record OutputDict : Type 0 where
  pub type : Option TypeName
  pub pin : Option ℕ
  pub value : Option ℤ
  pub pins : Option (List ℕ)
  pub values : Option (List ℕ)
  pub clockpin : Option ℕ
  pub datapin : Option ℕ
  pub numpixels : Option ℕ
  pub rgbtype : Option ℕ
  pub recvpin : Option ℕ
  pub xmitpin : Option ℕ
  pub enablepin : Option ℕ
  pub irqpin : Option ℕ
  pub useinterrupt : Option ℕ
  pub trigger : Option (List ℕ)
  pub release : Option (List ℕ)
  pub threshold : Option (List ℕ)

-- `check_required(output, value)`
abbrev pub check_required {ℓ} : {A : Type ℓ} → Option A → Bool
check_required none = false
check_required (some a) = true

-- `check_required(output, value, length)`, for a length that is not 0.
abbrev pub check_length : Option (List ℕ) → ℕ → Bool
check_length none n = false
check_length (some xs) n = length xs == n

-- The loops over the trigger and release values.
abbrev pub all_low : Option (List ℕ) → Bool
all_low none = true
all_low (some []) = true
all_low (some (x ∷ xs)) = leb x 0xF && all_low (some xs)

unfoldable pub validate_known : ConfigType → OutputDict → Bool
validate_known value d = check_required d.pin && check_required d.value
validate_known rgb d = check_length d.pins 3 && check_length d.values 3
validate_known pixels d =
    check_required d.clockpin
    && (check_required d.datapin && (check_required d.numpixels && check_required d.rgbtype))
validate_known rs485 d =
    check_required d.recvpin && (check_required d.xmitpin && check_required d.enablepin)
validate_known xbee d = check_required d.recvpin && check_required d.xmitpin
validate_known mpr121 d =
    check_required d.irqpin
    && (check_required d.useinterrupt
        && (check_length d.trigger 12
            && (check_length d.release 12 && (all_low d.trigger && all_low d.release))))
validate_known header d = true
validate_known program d = true
validate_known address d = true
validate_known device_id d = true
validate_known baud d = true

-- `validate_output`, on what stands under "type".
unfoldable pub validate_type : Option TypeName → OutputDict → Bool
unfolding validate_known
validate_type none d = false
validate_type (some unknown) d = false
validate_type (some (known t)) d = validate_known t d

unfoldable pub validate_output : OutputDict → Bool
unfolding validate_type
validate_output d = validate_type d.type d

-- `output[key]`
abbrev pub lookup {ℓ} : {A : Type ℓ} → Option A → Result A
lookup none = err key_error
lookup (some a) = ok a

-- `(release[i] << 4) | trigger[i]` for the positions of `trigger`.
unfoldable pub combine : List ℕ → List ℕ → Result (List ℕ)
combine [] rs = ok []
combine (t ∷ ts) [] = err index_error
combine (t ∷ ts) (r ∷ rs) = do rest ← combine ts rs; ok (bit_or (r * 16) t ∷ rest)

unfoldable pub post_process_known : ConfigType → OutputDict → Result OutputDict
post_process_known mpr121 d = do
  ts ← lookup d.trigger
  rs ← lookup d.release
  threshold ← combine ts rs
  ok (record d { threshold = some threshold })
post_process_known _ d = ok d

-- `post_process_config`, on what stands under "type".
unfoldable pub post_process_type : Option TypeName → OutputDict → Result OutputDict
unfolding post_process_known
post_process_type none d = err key_error
post_process_type (some unknown) d = ok d
post_process_type (some (known t)) d = post_process_known t d

unfoldable pub post_process_config : OutputDict → Result OutputDict
unfolding post_process_type
post_process_config d = post_process_type d.type d

pub record HeaderDict : Type 0 where
  pub protocol_version : Option ℕ
  pub hardware_version : Option ℕ
  pub baud : Option ℕ
  pub flags : Option ℕ
  pub device_id : Option ℕ
  pub address : Option ℕ

pub record ConfigDict : Type 0 where
  pub header : Option HeaderDict
  pub outputs : Option (List OutputDict)

abbrev pub validate_header : HeaderDict → Bool
validate_header h =
    check_required h.protocol_version
    && (check_required h.hardware_version
        && (check_required h.address && (check_required h.device_id && check_required h.baud)))

-- `if not "flags" in config: config['flags'] = 0`
abbrev pub default_flags : Option ℕ → Option ℕ
default_flags none = some 0
default_flags (some f) = some f

abbrev pub validate_outputs : List OutputDict → Bool
validate_outputs [] = true
validate_outputs (d ∷ ds) = validate_output d && validate_outputs ds

unfoldable pub post_process_all : List OutputDict → Result (List OutputDict)
post_process_all [] = ok []
post_process_all (d ∷ ds) = do d' ← post_process_config d; ds' ← post_process_all ds; ok (d' ∷ ds')

-- `validate_config`, on a dict of such values: none where it returns False, and otherwise the dict
-- as it leaves it.
unfoldable pub validate_parts :
    Option HeaderDict → Option (List OutputDict) → Result (Option ConfigDict)
unfolding post_process_all
validate_parts none outputs = ok none
validate_parts (some h) none = ok none
validate_parts (some h) (some ds) =
    if validate_header h && validate_outputs ds
    then (do
      ds' ← post_process_all ds
      ok (
          some (record {
            header = some (record h { flags = default_flags h.flags });
            outputs = some ds';
          })))
    else ok none

unfoldable pub validate_config : ConfigDict → Result (Option ConfigDict)
unfolding validate_parts
validate_config c = validate_parts c.header c.outputs
