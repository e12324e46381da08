-- ===== src/Emulator/Device.antt =====
-- `class HMTLEmulator` of python/hmtl/emulator/emulator.py, under its lock: one call at a time.
use hmtl.Prelude.{
  ℕ, zero, suc, List, [], ◌∷◌, ◌++◌, map, Option, none, some, true, false, Bytes, length, set,
  replicate, Result, ok, err, ◌>>=◌, ltb, ◌==◌, if◌then◌else◌,
}
use hmtl.Struct.{byte, short, long, unpack_from, Code}
use hmtl.Protocol.Programs.{SeqStep}
use hmtl.Emulator.Outputs
use hmtl.Emulator.Outputs.{Output, OutputConfig, OutputState, Rgb, set_value, set_rgb, make_output}
use hmtl.Emulator.Programs.{Program, blink, timed_change, fade, sequence}

-- The object's fields. Programs are mutable objects and slots refer to them: `heap` holds every
-- program object that was made, and a slot the position of its program there.
pub record Emulator : Type 0 where
  pub address : ℕ
  pub outputs : List Output
  pub programs : List (Option ℕ)
  pub no_output_program : Option ℕ
  pub heap : List Program
  pub virtual_ms : ℕ

abbrev pub otype_value : ℕ
otype_value = 0x1

abbrev pub otype_rgb : ℕ
otype_rgb = 0x2

abbrev pub otype_program : ℕ
otype_program = 0x3

abbrev pub no_output : ℕ
no_output = 0xFF

abbrev pub all_output : ℕ
all_output = 0xFE

unfoldable pub make_outputs : List OutputConfig → Result (List Output)
make_outputs [] = ok []
make_outputs (c ∷ cs) = do o ← make_output c; os ← make_outputs cs; ok (o ∷ os)

-- `__init__`, for a configuration with this header address and these outputs.
unfoldable pub new_emulator : ℕ → List OutputConfig → Option ℕ → Result Emulator
unfolding make_outputs make_output
new_emulator header_address configs address = do
  outputs ← make_outputs configs
  ok (record {
    address = Outputs.get_default address header_address;
    outputs = outputs;
    programs = replicate (length outputs) none;
    no_output_program = none;
    heap = [];
    virtual_ms = 0;
  })

-- An assignment to the item `i` of a list, by a function of what it holds.
abbrev pub update_at {ℓ} : {A : Type ℓ} → (A → A) → ℕ → List A → List A
update_at f i [] = []
update_at f zero (x ∷ xs) = f x ∷ xs
update_at f (suc i) (x ∷ xs) = x ∷ update_at f i xs

-- One output, all of them, or none if the index is out of range.
unfoldable pub on_outputs : (Output → Output) → ℕ → List Output → List Output
on_outputs f i os = if i == all_output then map f os else update_at f i os

-- `_set_output_value`
unfoldable pub set_output_value : ℕ → ℕ → Emulator → Emulator
unfolding on_outputs
set_output_value i v em = record em { outputs = on_outputs (set_value v) i em.outputs }

-- `_set_output_rgb`
unfoldable pub set_output_rgb : ℕ → Rgb → Emulator → Emulator
unfolding on_outputs
set_output_rgb i c em = record em { outputs = on_outputs (set_rgb c) i em.outputs }

-- The assignments of `_install_program` to the slots that an index names. There is a slot for
-- each output.
unfoldable pub assign : Option ℕ → ℕ → Emulator → Emulator
assign slot i em =
    if i == no_output
    then record em { no_output_program = slot }
    else (if i == all_output
        then record em { programs = replicate (length em.outputs) slot }
        else (if ltb i (length em.outputs)
            then record em { programs = set em.programs i slot }
            else em))

-- The loop over the steps of a sequence, up to the first unused one.
unfoldable pub sequence_steps : List ℕ → List ℕ → List ℕ → List SeqStep
sequence_steps (o ∷ os) (d ∷ ds) (v ∷ vs) =
    if o == 0xFF then [] else (o, d, v) ∷ sequence_steps os ds vs
sequence_steps _ _ _ = []

abbrev blink_fmt : List Code
blink_fmt = short ∷ byte ∷ byte ∷ byte ∷ short ∷ byte ∷ byte ∷ byte ∷ []

abbrev timed_change_fmt : List Code
timed_change_fmt = long ∷ replicate 6 byte

abbrev fade_fmt : List Code
fade_fmt = long ∷ replicate 7 byte

-- The constructors of the programs, on the fields that struct returned.
new_blink : List ℕ → Option Program
new_blink (on ∷ r ∷ g ∷ b ∷ off ∷ r' ∷ g' ∷ b' ∷ []) = some (
    blink (record {
      on_period = on;
      on_value = (r, g, b);
      off_period = off;
      off_value = (r', g', b');
      initialized = false;
      on = true;
      next_change = 0;
    }))
new_blink _ = none

new_timed_change : List ℕ → Option Program
new_timed_change (period ∷ r ∷ g ∷ b ∷ r' ∷ g' ∷ b' ∷ []) = some (
    timed_change (record {
      change_period = period;
      start_value = (r, g, b);
      stop_value = (r', g', b');
      initialized = false;
      change_time = 0;
    }))
new_timed_change _ = none

new_fade : List ℕ → Option Program
new_fade (period ∷ r ∷ g ∷ b ∷ r' ∷ g' ∷ b' ∷ flags ∷ []) = some (
    fade (record {
      period = period;
      start_value = (r, g, b);
      stop_value = (r', g', b');
      flags = flags;
      start_time = none;
    }))
new_fade _ = none

new_sequence : List SeqStep → Option Program
new_sequence [] = none
new_sequence (s ∷ ss) = some (sequence (record { steps = s ∷ ss; current = 0; next_change = none }))

-- `_parse_program` inside its `try`.
parse_fields : ℕ → Bytes → Result (Option Program)
unfolding unpack_from new_blink new_timed_change new_fade new_sequence sequence_steps
parse_fields program_type bs =
    if program_type == 0x01
    then (unpack_from blink_fmt bs 0 >>= λ vs. ok (new_blink vs))
    else (if program_type == 0x02
        then (unpack_from timed_change_fmt bs 0 >>= λ vs. ok (new_timed_change vs))
        else (if program_type == 0x05
            then (unpack_from fade_fmt bs 0 >>= λ vs. ok (new_fade vs))
            else (if program_type == 0x09
                then (do
                  outputs ← unpack_from (replicate 8 byte) bs 0
                  durations ← unpack_from (replicate 8 short) bs 8
                  values ← unpack_from (replicate 8 byte) bs 24
                  ok (new_sequence (sequence_steps outputs durations values)))
                else ok none)))

-- `_parse_program`: a payload that is too short gives no program.
unfoldable pub parse_program : ℕ → Bytes → Option Program
unfolding parse_fields
parse_program program_type bs = elim (parse_fields program_type bs) [ ok p ↦ p | err e ↦ none ]

-- `_install_program`: type 0 cancels.
unfoldable pub install_program : ℕ → ℕ → Bytes → Emulator → Emulator
unfolding assign parse_program
install_program i program_type bs em =
    if program_type == 0x00 then assign none i em else elim (parse_program program_type bs) [
      | none ↦ em
      | some p ↦ assign (some (length em.heap)) i (record em { heap = em.heap ++ (p ∷ []) })
    ]
