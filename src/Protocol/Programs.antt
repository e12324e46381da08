-- ===== src/Protocol/Programs.antt =====
-- The program messages of python/hmtl/HMTLprotocol.py: a message header, a program header and a
-- block of 32 bytes. Python's ints are taken non-negative, as in Protocol/Messages.
use hmtl.Prelude.{
  ℕ, ◌+◌, ◌-◌, List, [], ◌∷◌, ◌++◌, Bytes, Result, ok, exception, value_error, ◌>>=◌, ◌>>◌,
  raise_if, not, ◌==◌, ltb, length, Option, none, some, replicate, map, ◌&&◌, ◌||◌, Bool, false,
}
use hmtl.Struct.{Code, byte, short, long, pack, pack_args}
use hmtl.Protocol.Constants.{
  ConfigType, config_types, output_hdr_fmt, msg_base_len, msg_type_output, msg_type_set_addr,
  msg_program_level_value_type, msg_program_sound_value_type,
}
use hmtl.Protocol.MsgHdr
use hmtl.Protocol.Messages.{three}

-- `OutputHdr.pack`
unfoldable pub output_hdr_pack : ℕ → ℕ → Result Bytes
unfolding pack
output_hdr_pack outputtype output = pack output_hdr_fmt (outputtype ∷ output ∷ [])

abbrev pub max_data : ℕ
max_data = 32

-- `ProgramGeneric.FORMAT`
abbrev pub generic_fmt : List Code
generic_fmt = replicate max_data byte

-- `ProgramHdr.LENGTH`
abbrev pub program_hdr_len : ℕ
program_hdr_len = 2 + 1 + max_data

-- `ProgramHdr(program, output).pack()`
unfoldable pub program_hdr_pack : ℕ → ℕ → Result Bytes
unfolding output_hdr_pack pack
program_hdr_pack program output = do
  hdr ← output_hdr_pack (config_types ConfigType.program) output
  packed ← pack (byte ∷ []) (program ∷ [])
  ok (hdr ++ packed)

-- `hdr.pack() + programhdr.pack() + payload.pack()`, the end of every builder below.
unfoldable pub prepare : ℕ → ℕ → ℕ → Result Bytes → Result Bytes
unfolding program_hdr_pack MsgHdr.pack
prepare program address output payload = do
  hdr ← MsgHdr.pack (MsgHdr.new (msg_base_len + program_hdr_len) msg_type_output address)
  programhdr ← program_hdr_pack program output
  body ← payload
  ok (hdr ++ (programhdr ++ body))

-- `SetAddress.pack` behind its header.
unfoldable pub get_set_addr_msg : ℕ → ℕ → ℕ → Result Bytes
unfolding MsgHdr.pack pack
get_set_addr_msg address device_id new_address = do
  hdr ← MsgHdr.pack (MsgHdr.new (msg_base_len + 4) msg_type_set_addr address)
  sethdr ← pack (short ∷ short ∷ []) (device_id ∷ new_address ∷ [])
  ok (hdr ++ sethdr)

-- `ProgramGeneric.__init__`: what is not given is zero; more than 32 values raise.
unfoldable pub generic_new : Option (List ℕ) → Result (List ℕ)
generic_new none = ok (replicate max_data 0)
generic_new (some values) = do
  raise_if (ltb max_data (length values)) exception
  ok (values ++ replicate (max_data - length values) 0)

unfoldable pub generic_pack : List ℕ → Result Bytes
generic_pack values = pack generic_fmt values

unfoldable pub get_program_generic : ℕ → ℕ → ℕ → Option (List ℕ) → Result Bytes
get_program_generic address output program values = do
  datahdr ← generic_new values
  prepare program address output (generic_pack datahdr)

unfoldable pub get_program_level_value_msg : ℕ → ℕ → Result Bytes
get_program_level_value_msg address output = do
  levelhdr ← generic_new none
  prepare msg_program_level_value_type address output (generic_pack levelhdr)

unfoldable pub get_program_sound_value_msg : ℕ → ℕ → Result Bytes
get_program_sound_value_msg address output = do
  soundhdr ← generic_new none
  prepare msg_program_sound_value_type address output (generic_pack soundhdr)

pub record ProgramFade : Type 0 where
  pub change_period : ℕ
  pub start_values : List ℕ
  pub stop_values : List ℕ
  pub flags : ℕ

abbrev pub fade_fmt : List Code
fade_fmt =
    (long ∷ byte ∷ byte ∷ byte ∷ byte ∷ byte ∷ byte ∷ byte ∷ []) ++ replicate (max_data - 11) byte

unfoldable pub fade_pack : ProgramFade → Result Bytes
fade_pack p = pack_args fade_fmt do
  start ← three p.start_values
  stop ← three p.stop_values
  ok (p.change_period ∷ start ++ (stop ++ (p.flags ∷ replicate (max_data - 11) 0)))

unfoldable pub get_program_fade_msg : ℕ → ℕ → ProgramFade → Result Bytes
get_program_fade_msg address output fade = prepare 0x05 address output (fade_pack fade)

pub record ProgramSparkle : Type 0 where
  pub period : ℕ
  pub bg_values : List ℕ
  pub sparkle_threshold : ℕ
  pub bg_threshold : ℕ
  pub hue_min : ℕ
  pub hue_max : ℕ
  pub sat_min : ℕ
  pub sat_max : ℕ
  pub val_min : ℕ
  pub val_max : ℕ

abbrev pub sparkle_fmt : List Code
sparkle_fmt = (short ∷ replicate 11 byte) ++ replicate (max_data - 13) byte

unfoldable pub sparkle_pack : ProgramSparkle → Result Bytes
sparkle_pack p = pack_args sparkle_fmt do
  bg ← three p.bg_values
  let thresholds = p.sparkle_threshold ∷ p.bg_threshold ∷ []
  let hsv = p.hue_min ∷ p.hue_max ∷ p.sat_min ∷ p.sat_max ∷ p.val_min ∷ p.val_max ∷ []
  ok (p.period ∷ bg ++ (thresholds ++ (hsv ++ replicate (max_data - 13) 0)))

unfoldable pub sparkle_msg : ℕ → ℕ → ProgramSparkle → Result Bytes
sparkle_msg address output p = prepare 0x06 address output (sparkle_pack p)

pub record ProgramCircular : Type 0 where
  pub period : ℕ
  pub chain_length : ℕ
  pub bg_values : List ℕ
  pub pattern : ℕ
  pub flags : ℕ

abbrev pub circular_fmt : List Code
circular_fmt = (short ∷ short ∷ replicate 5 byte) ++ replicate (max_data - 9) byte

unfoldable pub circular_pack : ProgramCircular → Result Bytes
circular_pack p = pack_args circular_fmt do
  bg ← three p.bg_values
  ok (p.period ∷ p.chain_length ∷ bg ++ (p.pattern ∷ p.flags ∷ replicate (max_data - 9) 0))

unfoldable pub circular_msg : ℕ → ℕ → ProgramCircular → Result Bytes
circular_msg address output p = prepare 0x08 address output (circular_pack p)

pub record ProgramColor : Type 0 where
  pub values : List ℕ
  pub start : ℕ
  pub length : ℕ

-- Is one of the values above `m`?
abbrev pub any_above : ℕ → List ℕ → Bool
any_above m [] = false
any_above m (v ∷ vs) = ltb m v || any_above m vs

-- `ProgramColor.__init__`: widths, and no start without a length.
unfoldable pub color_new : List ℕ → ℕ → ℕ → Result ProgramColor
color_new values start len = do
  raise_if (not (length values == 3)) value_error
  raise_if (any_above 0xff values) value_error
  raise_if (any_above 0xffff (start ∷ len ∷ [])) value_error
  raise_if (len == 0 && not (start == 0)) value_error
  ok (record { values = values; start = start; length = len })

abbrev pub color_fmt : List Code
color_fmt = (byte ∷ byte ∷ byte ∷ short ∷ short ∷ []) ++ replicate (max_data - 7) byte

unfoldable pub color_pack : ProgramColor → Result Bytes
color_pack p =
    pack_args color_fmt
      do rgb ← three p.values; ok (rgb ++ (p.start ∷ p.length ∷ replicate (max_data - 7) 0))

unfoldable pub color_msg : ℕ → ℕ → ProgramColor → Result Bytes
color_msg address output p = prepare 0x31 address output (color_pack p)

abbrev pub sequence_max : ℕ
sequence_max = 8

abbrev pub no_output : ℕ
no_output = 255

-- (output_index, duration_ms, value)
abbrev pub SeqStep : Type 0
SeqStep = ℕ × ℕ × ℕ

unfoldable pub sequence_new : List SeqStep → Result (List SeqStep)
sequence_new steps = do raise_if (ltb sequence_max (length steps)) exception; ok steps

abbrev pub sequence_fmt : List Code
sequence_fmt = replicate 8 byte ++ (replicate 8 short ++ replicate 8 byte)

-- The `while` loop appends to the three lists until they have eight elements.
unfoldable pub sequence_pack : List SeqStep → Result Bytes
sequence_pack steps =
    let missing = sequence_max - length steps in
    pack sequence_fmt (
      (map (λ (s : SeqStep). s.0) steps ++ replicate missing no_output)
      ++ ((map (λ (s : SeqStep). s.1) steps ++ replicate missing 0)
          ++ (map (λ (s : SeqStep). s.2) steps ++ replicate missing 0)))

unfoldable pub sequence_msg : ℕ → List SeqStep → Result Bytes
sequence_msg address steps = prepare 0x09 address no_output (sequence_pack steps)

unfoldable pub get_program_sequence_msg : ℕ → List SeqStep → Result Bytes
get_program_sequence_msg address steps = do s ← sequence_new steps; sequence_msg address s
