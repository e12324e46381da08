-- ===== src/Emulator/Effects.antt =====
-- What the requests of python/hmtl/HMTLprotocol.py ask of the software module of
-- python/hmtl/emulator/emulator.py, without a message between them.
pub mod Calls
pub mod Blocks
pub mod Answering
use hmtl.Prelude.{
  ℕ, ◌+◌, ◌%◌, ◌^◌, ◌++◌, ◌==◌, ◌||◌, Bool, Bytes, length, replicate, List, [], ◌∷◌, Option, none,
  some, true, false, Result, ok, err, if◌then◌else◌,
}
use hmtl.Protocol.Frame.{
  Request, set_value, set_rgb, poll, dumpconfig, set_addr, run_program, blink, cancel, timed_change,
  generic, level, sound, fade, sparkle, circular, color, sequence,
}
use hmtl.Protocol.Programs.{SeqStep, generic_new}
use hmtl.Emulator.Outputs.{
  Rgb, Output, value_output, rgb_output, pixel_output, rs485_output, mpr121_output, int_output,
}
use hmtl.Emulator.Programs.{Program, Blink, TimedChange}
use hmtl.Emulator.Programs
use hmtl.Emulator.Device.{Emulator, parse_program}
use hmtl.Emulator.Messages.{is_for}
use hmtl.Emulator.Payloads.{fade_of}

-- The first three of a list of values.
abbrev pub colour : List ℕ → Rgb
colour (r ∷ g ∷ b ∷ rest) = (r, g, b)
colour _ = (0, 0, 0)

abbrev pub blink_of : ℕ → Rgb → ℕ → Rgb → Program
blink_of on_period on_value off_period off_value = Program.blink (record {
  on_period = on_period;
  on_value = on_value;
  off_period = off_period;
  off_value = off_value;
  initialized = false;
  on = true;
  next_change = 0;
})

abbrev pub timed_change_of : ℕ → Rgb → Rgb → Program
timed_change_of period start stop = Program.timed_change (record {
  change_period = period;
  start_value = start;
  stop_value = stop;
  initialized = false;
  change_time = 0;
})

abbrev pub sequence_of : List SeqStep → Program
sequence_of steps = Program.sequence (record { steps = steps; current = 0; next_change = none })

abbrev pub address_of : Request → ℕ
address_of (set_value a o v) = a
address_of (set_rgb a o r g b) = a
address_of (poll a) = a
address_of (dumpconfig a) = a
address_of (set_addr a d n) = a
address_of (run_program a o t d) = a
address_of (blink a o p v q w) = a
address_of (cancel a o) = a
address_of (timed_change a o p v w) = a
address_of (generic a o p v) = a
address_of (level a o) = a
address_of (sound a o) = a
address_of (fade a o p) = a
address_of (sparkle a o p) = a
address_of (circular a o p) = a
address_of (color a o v s l) = a
address_of (sequence a s) = a

-- What an output is behind a colour: the first channel for a plain one, all three otherwise.
abbrev pub painted : Rgb → Output → Output
painted (r, g, b) (value_output pin old) = value_output pin r
painted (r, g, b) (rgb_output pins old) = rgb_output pins (r ∷ g ∷ b ∷ [])
painted (r, g, b) (pixel_output n old) = pixel_output n (replicate n (r, g, b))
painted c rs485_output = rs485_output
painted c (mpr121_output touched) = mpr121_output touched
painted c (int_output o r g b) = painted c o

-- What an output is behind a value: that value on every channel.
abbrev pub dimmed : ℕ → Output → Output
dimmed v (value_output pin old) = value_output pin v
dimmed v (rgb_output pins old) = rgb_output pins (v ∷ v ∷ v ∷ [])
dimmed v (pixel_output n old) = pixel_output n (replicate n (v, v, v))
dimmed v rs485_output = rs485_output
dimmed v (mpr121_output touched) = mpr121_output touched
dimmed v (int_output o r g b) = dimmed v o

-- The index 254 names every position, and another one its own.
abbrev pub names : ℕ → ℕ → Bool
names i position = (i == 254) || (i == position)

-- A list, from `position` on, with those changed that `i` names.
abbrev pub change_from {ℓ} : {A : Type ℓ} → ℕ → (A → A) → ℕ → List A → List A
change_from position f i [] = []
change_from position f i (x ∷ xs) =
    (if names i position then f x else x) ∷ change_from (position + 1) f i xs

abbrev pub change_outputs : (Output → Output) → ℕ → Emulator → Emulator
change_outputs f i em = record em { outputs = change_from 0 f i em.outputs }

-- The slots that `i` names: 255 is the one without an output.
abbrev pub occupy : Option ℕ → ℕ → Emulator → Emulator
occupy slot i em =
    if i == 255
    then record em { no_output_program = slot }
    else record em { programs = change_from 0 (λ (old : Option ℕ). slot) i em.programs }

-- A new program in them.
abbrev pub begin : Program → ℕ → Emulator → Emulator
begin p i em = occupy (some (length em.heap)) i (record em { heap = em.heap ++ (p ∷ []) })

abbrev pub begin_parsed : Option Program → ℕ → Emulator → Emulator
begin_parsed none i em = em
begin_parsed (some p) i em = begin p i em

-- A program type and its block: 0 cancels.
abbrev pub run_block : ℕ → ℕ → Result Bytes → Emulator → Emulator
run_block i t (err e) em = em
run_block i t (ok block) em =
    if t == 0 then occupy none i em else begin_parsed (parse_program t block) i em

-- What becomes of the module that a request is for: the outputs that it names change; a program begins
-- in the slots that it names, or ends there; and a poll, a request for the configuration, a new
-- address, and the level, sound, sparkle, circular and colour programs are ignored.
abbrev pub act : Request → Emulator → Emulator
act (set_value a o v) em = change_outputs (dimmed (v % 2 ^ 13)) o em
act (set_rgb a o r g b) em = change_outputs (painted (r, g, b)) o em
act (poll a) em = em
act (dumpconfig a) em = em
act (set_addr a d n) em = em
act (run_program a o t d) em = run_block o t (ok d) em
act (blink a o p v q w) em = begin (blink_of p (colour v) q (colour w)) o em
act (cancel a o) em = occupy none o em
act (timed_change a o p v w) em = begin (timed_change_of p (colour v) (colour w)) o em
act (generic a o p v) em = run_block o p (generic_new v) em
act (level a o) em = em
act (sound a o) em = em
act (fade a o p) em =
    begin (fade_of p.change_period (colour p.start_values) (colour p.stop_values) p.flags) o em
act (sparkle a o p) em = em
act (circular a o p) em = em
act (color a o v s l) em = em
act (sequence a s) em = begin (sequence_of s) 255 em

abbrev pub effect : Request → Emulator → Emulator
effect q em = if is_for (address_of q) em then act q em else em

abbrev pub effects : List Request → Emulator → Emulator
effects [] em = em
effects (q ∷ qs) em = effects qs (effect q em)
