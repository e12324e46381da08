-- ===== src/Emulator/Tickable/Reaching.antt =====
-- The calls on an emulator of python/hmtl/emulator/emulator.py, as steps from one device to the next.
use hmtl.Prelude.{
  ℕ, ◌≡◌, List, [], ◌∷◌, Bytes, drop, length, not, ◌&&◌, Option, some, Bool, true, false, leb, ltb,
  ◌==◌, if◌then◌else◌, Result, ok, err, ◌>>=◌,
}
use hmtl.Struct.{byte, unpack_from}
use hmtl.Protocol.Constants.{msg_hdr_fmt, broadcast, msg_type_output}
use hmtl.Emulator.Outputs.{Rgb, OutputConfig}
use hmtl.Emulator.Programs.{Program}
use hmtl.Emulator.Device.{
  Emulator, new_emulator, set_output_value, set_output_rgb, install_program, parse_program,
  otype_value, otype_rgb, otype_program,
}
use hmtl.Emulator.Handle.{
  on_value, on_rgb, on_program, dispatch_payload, on_output_hdr, dispatch_output, on_header,
  handle_bytes,
}
use hmtl.Emulator.Ticks.{run_programs, advance, reset}
use hmtl.Emulator.Tickable.{IsTickable}
use hmtl.Emulator.Tickable.Running.{Runs, Ticks-Runs, run_programs-Ticks}
use hmtl.Emulator.Tickable.Placing.{
  IsPlaced, install_program-IsTickable, set_output_value-IsTickable, set_output_rgb-IsTickable,
  reset-IsTickable, new_emulator-IsTickable,
}

-- What a message does to a device.
pub data Act (em : Emulator) : Emulator → Type 0 where
  none_of : Act em em
  sets_value : (i v : ℕ) → Act em (set_output_value i v em)
  sets_rgb : (i : ℕ) (c : Rgb) → Act em (set_output_rgb i c em)
  installs : (i t : ℕ) (bs : Bytes) → Act em (install_program i t bs em)

abbrev Acts : Emulator → Result Emulator → Type 0
Acts em (err e) = Unit
Acts em (ok em') = Act em em'

Acts-if :
    (em : Emulator) (b : Bool) (x y : Result Emulator)
    → Acts em x
    → Acts em y
    → Acts em (if b then x else y)
Acts-if em true x y h k = h
Acts-if em false x y h k = k

Acts-bind :
    (em : Emulator) (r : Result (List ℕ)) (next : List ℕ → Result Emulator)
    → ((vs : List ℕ) → Acts em (next vs))
    → Acts em (r >>= next)
Acts-bind em (err e) next h = tt
Acts-bind em (ok vs) next h = h vs

on_value-Acts : (i : ℕ) (em : Emulator) (vs : List ℕ) → Acts em (on_value i em vs)
unfolding on_value
on_value-Acts i em [] = tt
on_value-Acts i em (v ∷ vs) = sets_value i _

on_rgb-Acts : (i : ℕ) (em : Emulator) (vs : List ℕ) → Acts em (on_rgb i em vs)
unfolding on_rgb
on_rgb-Acts i em (r ∷ g ∷ b ∷ []) = sets_rgb i (r, g, b)
on_rgb-Acts i em [] = tt
on_rgb-Acts i em (r ∷ []) = tt
on_rgb-Acts i em (r ∷ g ∷ []) = tt
on_rgb-Acts i em (r ∷ g ∷ b ∷ c ∷ more) = tt

on_program-Acts :
    (i : ℕ) (payload : Bytes) (em : Emulator) (vs : List ℕ) → Acts em (on_program i payload em vs)
unfolding on_program
on_program-Acts i payload em [] = tt
on_program-Acts i payload em (t ∷ vs) = installs i t (drop 1 payload)

dispatch_payload-Acts :
    (t i : ℕ) (payload : Bytes) (em : Emulator) → Acts em (dispatch_payload t i payload em)
unfolding dispatch_payload
dispatch_payload-Acts t i payload em =
    Acts-if em (t == otype_value) _ _
      (Acts-if em (leb 2 (length payload)) _ _ (Acts-bind em _ (on_value i em) (on_value-Acts i em))
        none_of)
      (Acts-if em (t == otype_rgb) _ _
        (Acts-if em (leb 3 (length payload)) _ _ (Acts-bind em _ (on_rgb i em) (on_rgb-Acts i em))
          none_of)
        (Acts-if em (t == otype_program) _ _
          (Acts-if em (leb 1 (length payload)) _ _
            (Acts-bind em _ (on_program i payload em) (on_program-Acts i payload em)) none_of)
          none_of))

on_output_hdr-Acts : (bs : Bytes) (em : Emulator) (vs : List ℕ) → Acts em (on_output_hdr bs em vs)
unfolding on_output_hdr
on_output_hdr-Acts bs em (t ∷ i ∷ []) = dispatch_payload-Acts t i (drop 2 bs) em
on_output_hdr-Acts bs em [] = tt
on_output_hdr-Acts bs em (t ∷ []) = tt
on_output_hdr-Acts bs em (t ∷ i ∷ x ∷ more) = tt

dispatch_output-Acts : (bs : Bytes) (em : Emulator) → Acts em (dispatch_output bs em)
unfolding dispatch_output
dispatch_output-Acts bs em = Acts-if em (ltb (length bs) 2) _ _ none_of (
    Acts-bind em (unpack_from (byte ∷ byte ∷ []) bs 0) (on_output_hdr bs em)
      (on_output_hdr-Acts bs em))

on_header-Acts : (bs : Bytes) (em : Emulator) (vs : List ℕ) → Acts em (on_header bs em vs)
unfolding on_header
on_header-Acts bs em (startcode ∷ crc ∷ version ∷ len ∷ mtype ∷ flags ∷ address ∷ []) =
    Acts-if em (not (startcode == 0xFC)) _ _ none_of (
      Acts-if em (not (address == broadcast) && not (address == em.address)) _ _ none_of
        (Acts-if em (mtype == msg_type_output) _ _ (dispatch_output-Acts (drop 8 bs) em) none_of))
on_header-Acts bs em _ = tt

-- A message that is handled does nothing, or sets a value or a colour, or installs one program.
pub handle_bytes-Acts : (bs : Bytes) (em : Emulator) → Acts em (handle_bytes bs em)
unfolding handle_bytes
handle_bytes-Acts bs em =
    Acts-if em (ltb (length bs) 8) _ _ none_of
      (Acts-bind em (unpack_from msg_hdr_fmt bs 0) (on_header bs em) (on_header-Acts bs em))

-- A program that it installs can run where it is put.
abbrev pub IsFit : {em em' : Emulator} → Act em em' → Type 0
IsFit none_of = Unit
IsFit (sets_value i v) = Unit
IsFit (sets_rgb i c) = Unit
IsFit {em} (installs i t bs) =
    (p : Program) → parse_program t bs ≡ some p → IsPlaced (length em.outputs) i p

-- A history of a device: messages, ticks in real and in virtual time, and resets.
pub data Reach (em : Emulator) : Emulator → Type 0 where
  here : Reach em em
  received : {fm gm : Emulator} → Reach em fm → (a : Act fm gm) → IsFit a → Reach em gm
  ticked : {fm : Emulator} → Reach em fm → (now : ℕ) → Reach em (run_programs now fm).1
  advanced : {fm : Emulator} → Reach em fm → (ms : ℕ) → Reach em (advance ms fm).1
  cleared : {fm : Emulator} → Reach em fm → Reach em (reset fm)

Act-IsTickable : {em em' : Emulator} → (a : Act em em') → IsFit a → IsTickable em → IsTickable em'
Act-IsTickable none_of f h = h
Act-IsTickable {em} (sets_value i v) f h = set_output_value-IsTickable i v em h
Act-IsTickable {em} (sets_rgb i c) f h = set_output_rgb-IsTickable i c em h
Act-IsTickable {em} (installs i t bs) f h = install_program-IsTickable i t bs em h f

run_programs-Runs : (now : ℕ) (em : Emulator) → IsTickable em → Runs (run_programs now em)
run_programs-Runs now em h = Ticks-Runs em _ h (run_programs-Ticks now em h)

advance-Runs : (ms : ℕ) (em : Emulator) → IsTickable em → Runs (advance ms em)
unfolding advance
advance-Runs ms em h =
    run_programs-Runs _ (record em { virtual_ms = _ })
      (record { slots_fit = h.slots_fit; sequence_fits = h.sequence_fits; one_each = h.one_each })

Reach-IsTickable : {em fm : Emulator} → IsTickable em → Reach em fm → IsTickable fm
Reach-IsTickable h here = h
Reach-IsTickable h (received r a f) = Act-IsTickable a f (Reach-IsTickable h r)
Reach-IsTickable h (ticked {fm} r now) = (run_programs-Runs now fm (Reach-IsTickable h r)).1
Reach-IsTickable h (advanced {fm} r ms) = (advance-Runs ms fm (Reach-IsTickable h r)).1
Reach-IsTickable h (cleared {fm} r) = reset-IsTickable fm

-- A device that was made from a configuration, and has since been sent any messages whose programs
-- can run at the index that they name, ticked, advanced and reset in any order, raises nothing at
-- its next tick or advance.
pub Reach-Runs :
    (header_address : ℕ) (configs : List OutputConfig) (address : Option ℕ) (em fm : Emulator)
    → (now ms : ℕ) → new_emulator header_address configs address ≡ ok em
    → Reach em fm
    → Runs (run_programs now fm) × Runs (advance ms fm)
Reach-Runs header_address configs address em fm now ms made r =
    let h = Reach-IsTickable (new_emulator-IsTickable header_address configs address em made) r in
    (run_programs-Runs now fm h, advance-Runs ms fm h)
