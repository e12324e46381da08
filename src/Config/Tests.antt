-- ===== src/Config/Tests.antt =====
-- Configurations of one output.
use hmtl.Prelude.{◌≡◌, refl, [], ◌∷◌, Bytes, replicate, none, some, true, ok}
use hmtl.Config.{value, body_pack, config_pack, dump_from_data, output_config}
use hmtl.Protocol.Programs.{output_hdr_pack}
use hmtl.Config.Words.{negsuc}
use hmtl.Config.RoundTrip.{dump_from_data-config_pack}
use hmtl.Config.Json.{OutputDict, ConfigDict, known, validate_output, validate_config}
use hmtl.Config.Validation.{Verdict, validate_config-Verdict}
use hmtl.Protocol.Constants.{mpr121}

-- Pin 5, value -2, as output 3.
abbrev value_bytes : Bytes
value_bytes = 1 ∷ 3 ∷ 5 ∷ 0xFE ∷ 0xFF ∷ []

value_packed : config_pack (1, 3) (value 5 (negsuc 1)) ≡ ok value_bytes
unfolding config_pack output_hdr_pack body_pack
value_packed = refl

dump_from_data-config_pack_example :
    dump_from_data value_bytes ≡ ok (output_config ((1, 3), value 5 (negsuc 1)))
dump_from_data-config_pack_example =
    dump_from_data-config_pack (value 5 (negsuc 1)) 3 value_bytes value_packed

abbrev touch : OutputDict
touch = record {
  type = some (known mpr121);
  pin = none;
  value = none;
  pins = none;
  values = none;
  clockpin = none;
  datapin = none;
  numpixels = none;
  rgbtype = none;
  recvpin = none;
  xmitpin = none;
  enablepin = none;
  irqpin = some 2;
  useinterrupt = some 1;
  trigger = some (replicate 12 4);
  release = some (replicate 12 2);
  threshold = none;
}

touch_valid : validate_output touch ≡ true
unfolding validate_output
touch_valid = refl

abbrev one_touch : ConfigDict
one_touch = record {
  header = some (record {
    protocol_version = some 2;
    hardware_version = some 1;
    baud = some 9600;
    flags = none;
    device_id = some 7;
    address = some 70;
  });
  outputs = some (touch ∷ []);
}

validate_config-Verdict_example : Verdict (validate_config one_touch)
validate_config-Verdict_example = validate_config-Verdict one_touch
