-- ===== src/Protocol/Messages.antt =====
-- The message builders of python/hmtl/HMTLprotocol.py whose fields are packed one by one.
-- Python's ints are signed; the model takes the non-negative ones, as a negative argument is
-- refused by struct.pack like one that is too large.
use hmtl.Prelude.{
  ℕ, List, [], ◌∷◌, ◌++◌, Bytes, Result, ok, err, exception, index_error, ◌>>=◌, ◌>>◌, raise_if,
  not, ◌==◌, length, get_elem?, none, some, replicate,
}
use hmtl.Struct.{pack, pack_args}
use hmtl.Protocol.Constants.{
  msg_value_len, msg_rgb_len, msg_type_output, msg_value_fmt, msg_rgb_fmt, msg_hdr_fmt,
  output_hdr_fmt, config_types, ConfigType, msg_poll_len, msg_type_poll, msg_flag_response,
  msg_dumpconfig_len, msg_type_dumpconfig, msg_program_value_len, msg_program_len, msg_program_fmt,
  msg_program_blink_fmt, msg_program_blink_type, msg_program_none_fmt, msg_program_none_type,
  msg_program_timed_change_fmt, msg_program_timed_change_type,
}

-- `msg_hdr_t` as `get_msg_hdr` fills it; `mtype` and `flags` have no default here.
unfoldable pub get_msg_hdr : ℕ → ℕ → ℕ → ℕ → Result Bytes
unfolding pack
get_msg_hdr msglen address mtype flags =
    pack msg_hdr_fmt (0xFC ∷ 0 ∷ 2 ∷ msglen ∷ mtype ∷ flags ∷ address ∷ [])

unfoldable pub get_output_hdr : ConfigType → ℕ → Result Bytes
unfolding pack
get_output_hdr otype output = pack output_hdr_fmt (config_types otype ∷ output ∷ [])

unfoldable pub get_value_msg : ℕ → ℕ → ℕ → Result Bytes
unfolding get_msg_hdr get_output_hdr pack
get_value_msg address output value = do
  packed_hdr ← get_msg_hdr msg_value_len address msg_type_output 0
  packed_out ← get_output_hdr ConfigType.value output
  packed ← pack msg_value_fmt (value ∷ [])
  ok (packed_hdr ++ (packed_out ++ packed))

unfoldable pub get_rgb_msg : ℕ → ℕ → ℕ → ℕ → ℕ → Result Bytes
unfolding get_msg_hdr get_output_hdr pack
get_rgb_msg address output r g b = do
  packed_hdr ← get_msg_hdr msg_rgb_len address msg_type_output 0
  packed_out ← get_output_hdr ConfigType.rgb output
  packed ← pack msg_rgb_fmt (r ∷ g ∷ b ∷ [])
  ok (packed_hdr ++ (packed_out ++ packed))

unfoldable pub get_poll_msg : ℕ → Result Bytes
unfolding get_msg_hdr
get_poll_msg address = get_msg_hdr msg_poll_len address msg_type_poll msg_flag_response

unfoldable pub get_dumpconfig_msg : ℕ → Result Bytes
unfolding get_msg_hdr
get_dumpconfig_msg address =
    get_msg_hdr msg_dumpconfig_len address msg_type_dumpconfig msg_flag_response

-- `seq[i]` of a Python sequence, for i ≥ 0.
unfoldable pub at : List ℕ → ℕ → Result ℕ
at xs i = elim (get_elem? xs i) [ none ↦ err index_error | some v ↦ ok v ]

unfoldable pub get_program_msg : ℕ → ℕ → ℕ → Bytes → Result Bytes
unfolding get_msg_hdr get_output_hdr pack
get_program_msg address output program_type program_data = do
  raise_if (not (length program_data == msg_program_value_len)) exception
  packed_hdr ← get_msg_hdr msg_program_len address msg_type_output 0
  packed_out ← get_output_hdr ConfigType.program output
  packed ← pack msg_program_fmt (program_type ∷ [])
  ok (packed_hdr ++ (packed_out ++ (packed ++ program_data)))

-- The three values of a colour, `v[0], v[1], v[2]`.
unfoldable pub three : List ℕ → Result (List ℕ)
unfolding at
three v = do r ← at v 0; g ← at v 1; b ← at v 2; ok (r ∷ g ∷ b ∷ [])

unfoldable pub get_program_blink_msg : ℕ → ℕ → ℕ → List ℕ → ℕ → List ℕ → Result Bytes
get_program_blink_msg address output on_period on_values off_period off_values = do
  blink ← pack_args msg_program_blink_fmt do
    on ← three on_values
    off ← three off_values
    ok (on_period ∷ on ++ (off_period ∷ off ++ (0 ∷ 0 ∷ [])))
  get_program_msg address output msg_program_blink_type blink

unfoldable pub get_program_none_msg : ℕ → ℕ → Result Bytes
get_program_none_msg address output = do
  msg ← pack msg_program_none_fmt (replicate msg_program_value_len 0)
  get_program_msg address output msg_program_none_type msg

unfoldable pub get_program_timed_change_msg : ℕ → ℕ → ℕ → List ℕ → List ℕ → Result Bytes
get_program_timed_change_msg address output change_period start_values stop_values = do
  msg ← pack_args msg_program_timed_change_fmt do
    start ← three start_values
    stop ← three stop_values
    ok (change_period ∷ start ++ (stop ++ (0 ∷ 0 ∷ [])))
  get_program_msg address output msg_program_timed_change_type msg
