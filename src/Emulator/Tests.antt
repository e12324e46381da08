-- ===== src/Emulator/Tests.antt =====
-- The emulator on concrete messages and times.
use hmtl.Prelude.{
  ◌≡◌, refl, List, [], ◌∷◌, ◌++◌, Bytes, replicate, none, some, true, false, ok, err,
  attribute_error, arith,
}
use hmtl.Struct.{pack, pack_args}
use hmtl.Protocol.Constants.{msg_program_blink_fmt}
use hmtl.Protocol.Messages.{get_rgb_msg, get_value_msg, get_program_msg, three}
use hmtl.Protocol.Programs.{
  ProgramFade, fade_pack, prepare, get_program_fade_msg, SeqStep, sequence_pack,
  get_program_sequence_msg, sequence_new, sequence_msg,
}
use hmtl.Protocol.Layout.{wire}
use hmtl.Emulator.Outputs.{Output, Rgb, rgb_output, value_output, set_rgb}
use hmtl.Emulator.Programs.{Blink, Fade, Sequence, blink, sequence, one, many, fade_tick}
use hmtl.Emulator.Device.{Emulator, install_program, parse_program, all_output, no_output}
use hmtl.Emulator.Handle.{handle_bytes}
use hmtl.Emulator.Ticks.{advance, tick_loop}
use hmtl.Serial.{Value, bytes, str, nothing}
use hmtl.Protocol.Frame.{Request, build}
use hmtl.Emulator.Effects.{effect}
use hmtl.Emulator.Effects.Answering.{handle_bytes-build}
use hmtl.Emulator.Fades.{Between, fade_tick-Between}
use hmtl.Emulator.Sharing.{first_lit, advance-install_program}
use hmtl.Emulator.Faults.{blink_stuck, tick_loop-install_program}
use hmtl.Emulator.Sequences.{Ran, run_sequence, run_sequence-Ran}
use hmtl.Emulator.Outputs.{OutputConfig}
use hmtl.Emulator.Device.{new_emulator}
use hmtl.Emulator.Ticks.{run_programs}
use hmtl.Emulator.Programs.{Program}
use hmtl.Emulator.Tickable.{IsSingle}
use hmtl.Emulator.Tickable.Running.{Runs}
use hmtl.Emulator.Tickable.Reaching.{Reach, here, received, advanced, installs, Reach-Runs}

abbrev lamp : Output
lamp = rgb_output (9 ∷ 10 ∷ 11 ∷ []) (0 ∷ 0 ∷ 0 ∷ [])

abbrev dimmer : Output
dimmer = value_output 3 0

abbrev device : Emulator
device = record {
  address = 5;
  outputs = lamp ∷ dimmer ∷ [];
  programs = none ∷ none ∷ [];
  no_output_program = none;
  heap = [];
  virtual_ms = 0;
}

abbrev rgb_bytes : Bytes
rgb_bytes = wire 13 1 0 5 (2 ∷ 0 ∷ 10 ∷ 20 ∷ 30 ∷ [])

rgb_built : get_rgb_msg 5 0 10 20 30 ≡ ok rgb_bytes
unfolding get_rgb_msg
rgb_built = refl

abbrev value_bytes : Bytes
value_bytes = wire 12 1 0 5 (1 ∷ 1 ∷ 44 ∷ 1 ∷ [])

value_built : get_value_msg 5 1 300 ≡ ok value_bytes
unfolding get_value_msg
value_built = refl

-- 1000 ms of red, 500 ms of black.
abbrev blink_bytes : Bytes
blink_bytes = 232 ∷ 3 ∷ 255 ∷ 0 ∷ 0 ∷ 244 ∷ 1 ∷ 0 ∷ 0 ∷ 0 ∷ 0 ∷ 0 ∷ []

abbrev red_blink : Blink
red_blink = record {
  on_period = 1000;
  on_value = (255, 0, 0);
  off_period = 500;
  off_value = (0, 0, 0);
  initialized = false;
  on = true;
  next_change = 0;
}

blink_parsed : parse_program 1 blink_bytes ≡ some (blink red_blink)
unfolding parse_program
blink_parsed = refl

blink_packed :
    pack msg_program_blink_fmt (1000 ∷ 255 ∷ 0 ∷ 0 ∷ 500 ∷ 0 ∷ 0 ∷ 0 ∷ 0 ∷ 0 ∷ []) ≡ ok blink_bytes
unfolding pack
blink_packed = refl

blink_built : get_program_msg 5 0 1 blink_bytes ≡ ok (wire 23 1 0 5 (3 ∷ 0 ∷ 1 ∷ blink_bytes))
unfolding get_program_msg
blink_built = refl

-- 2000 ms from black to (10, 20, 30).
abbrev dawn : ProgramFade
dawn = record {
  change_period = 2000;
  start_values = 0 ∷ 0 ∷ 0 ∷ [];
  stop_values = 10 ∷ 20 ∷ 30 ∷ [];
  flags = 0;
}

abbrev dawn_bytes : Bytes
dawn_bytes = 208 ∷ 7 ∷ 0 ∷ 0 ∷ 0 ∷ 0 ∷ 0 ∷ 10 ∷ 20 ∷ 30 ∷ 0 ∷ replicate 21 0

dawn_packed : fade_pack dawn ≡ ok dawn_bytes
unfolding fade_pack pack_args three
dawn_packed = refl

dawn_built : get_program_fade_msg 5 0 dawn ≡ ok (wire 43 1 0 5 (3 ∷ 0 ∷ 5 ∷ dawn_bytes))
unfolding get_program_fade_msg fade_pack prepare pack_args three
dawn_built = refl

abbrev chase : List SeqStep
chase = (0, 100, 255) ∷ (1, 200, 128) ∷ []

abbrev chase_bytes : Bytes
chase_bytes =
    0 ∷ 1 ∷ replicate 6 255 ++ (100 ∷ 0 ∷ 200 ∷ 0 ∷ replicate 12 0 ++ (255 ∷ 128 ∷ replicate 6 0))

chase_packed : sequence_pack chase ≡ ok chase_bytes
unfolding sequence_pack pack
chase_packed = refl

chase_built : get_program_sequence_msg 5 chase ≡ ok (wire 43 1 0 5 (3 ∷ 255 ∷ 9 ∷ chase_bytes))
unfolding get_program_sequence_msg sequence_pack prepare sequence_new sequence_msg
chase_built = refl

chase_requested : build (Request.sequence 5 chase) ≡ ok (wire 43 1 0 5 (3 ∷ 255 ∷ 9 ∷ chase_bytes))
unfolding build
chase_requested = chase_built

abbrev chasing : Sequence
chasing = record { steps = chase; current = 0; next_change = none }

abbrev noise : List Value
noise = bytes (0xFC ∷ 0 ∷ 2 ∷ []) ∷ str "data" ∷ nothing ∷ []

handle_bytes-build_example :
    handle_bytes (wire 43 1 0 5 (3 ∷ 255 ∷ 9 ∷ chase_bytes)) device
    ≡ ok (effect (Request.sequence 5 chase) device)
handle_bytes-build_example =
    handle_bytes-build (Request.sequence 5 chase) _ device (omega arith, (omega arith, tt)) refl
      chase_requested

abbrev half_dawn : Fade
half_dawn = record {
  period = 2000;
  start_value = (0, 0, 0);
  stop_value = (10, 20, 30);
  flags = 0;
  start_time = some 100;
}

fade_tick-Between_example :
    (c : Rgb) × Between 0 30 c
    × ((fade_tick 700 half_dawn (one lamp)).0 ≡ ok true)
    × ((fade_tick 700 half_dawn (one lamp)).2 ≡ one (set_rgb c lamp))
fade_tick-Between_example =
    fade_tick-Between 700 0 30 half_dawn lamp (omega arith) (omega arith) (omega arith)

advance-install_program_example :
    advance 40 (install_program all_output 1 blink_bytes device)
    ≡ (ok tt, first_lit 40 red_blink lamp (dimmer ∷ []) device)
advance-install_program_example =
    advance-install_program 40 blink_bytes red_blink lamp (dimmer ∷ []) device blink_parsed refl
      (omega arith) refl refl

tick_loop-install_program_example :
    tick_loop (40 ∷ 60 ∷ []) (install_program no_output 1 blink_bytes device)
    ≡ (err attribute_error, blink_stuck 40 red_blink device)
tick_loop-install_program_example =
    tick_loop-install_program 40 (60 ∷ []) blink_bytes red_blink 2 device blink_parsed refl refl

abbrev chasing_device : Emulator
chasing_device = record device { programs = some 0 ∷ none ∷ []; heap = sequence chasing ∷ [] }

run_sequence-Ran_example :
    Ran chasing
      (lamp ∷ dimmer ∷ [])
      (run_sequence (10 ∷ 150 ∷ 400 ∷ []) chasing (many (lamp ∷ dimmer ∷ [])))
run_sequence-Ran_example =
    run_sequence-Ran (10 ∷ 150 ∷ 400 ∷ []) chasing (lamp ∷ dimmer ∷ [])
      (record { steps_on = (omega arith, (omega arith, tt)); current_in = omega arith })

-- A device with one dimmer, a blink on it, and half a second.
abbrev one_dimmer : List OutputConfig
one_dimmer =
    record {
      kind = some "value";
      pin = some 3;
      value = none;
      pins = none;
      values = none;
      numpixels = none;
    }
    ∷ []

abbrev made : Emulator
made = record {
  address = 5;
  outputs = value_output 3 0 ∷ [];
  programs = none ∷ [];
  no_output_program = none;
  heap = [];
  virtual_ms = 0;
}

blinks : (p : Program) → parse_program 1 blink_bytes ≡ some p → IsSingle p
blinks p e = let same : p ≡ blink red_blink = cc blink_parsed in rw same tt

blink_history : Reach made (advance 500 (install_program 0 1 blink_bytes made)).1
blink_history =
    advanced
      (received here (installs 0 1 blink_bytes)
        (λ p e. (λ n. absurd (omega arith), λ n. blinks p e)))
      500

Reach-Runs_example :
    Runs (run_programs 700 (advance 500 (install_program 0 1 blink_bytes made)).1)
    × Runs (advance 700 (advance 500 (install_program 0 1 blink_bytes made)).1)
unfolding new_emulator
Reach-Runs_example = Reach-Runs 5 one_dimmer none made _ 700 700 refl blink_history
