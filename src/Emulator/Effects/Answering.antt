-- ===== src/Emulator/Effects/Answering.antt =====
-- Every request of python/hmtl/HMTLprotocol.py against what python/hmtl/emulator/emulator.py makes
-- of its message.
use hmtl.Prelude.{
  ℕ, ◌%◌, ◌^◌, ◌≡◌, ◌≢◌, refl, ◌∙◌, sym, ap, List, [], ◌∷◌, Bytes, Bool, true, false, Option, none,
  some, Result, ok, if◌then◌else◌, ◌>>=◌, >>=-eq-ok, arith,
}
use hmtl.Protocol.Messages.{
  get_program_none_msg, get_program_msg, get_program_blink_msg, get_program_timed_change_msg,
}
use hmtl.Emulator.Programs.{Program}
use hmtl.Protocol.Layout.{wire, prepare-eq-ok}
use hmtl.Protocol.Programs.{
  prepare, generic_new, generic_pack, ProgramFade, get_program_generic, get_program_level_value_msg,
  get_program_sound_value_msg, get_program_fade_msg, sparkle_msg, circular_msg, color_msg,
  color_new, fade_pack,
}
use hmtl.Protocol.Frame.{
  Request, set_value, set_rgb, poll, dumpconfig, set_addr, run_program, blink, cancel, timed_change,
  generic, level, sound, fade, sparkle, circular, color, sequence, build, get_poll_msg-eq-ok,
  get_dumpconfig_msg-eq-ok, get_set_addr_msg-eq-ok,
}
use hmtl.Emulator.Device.{Emulator, install_program, parse_program}
use hmtl.Emulator.Handle.{handle_bytes}
use hmtl.Emulator.Messages.{
  is_for, handle_bytes-rgb, handle_bytes-value, handle_bytes-program, handle_bytes-short_program,
}
use hmtl.Emulator.Payloads.{IsUsed}
use hmtl.Emulator.Requests.{with_program, handle_bytes-sequence}
use hmtl.Emulator.Effects.{effect, address_of}
use hmtl.Emulator.Effects.Calls.{
  calls, run_values, IsSlotted, calls-act, set_output_value-change, set_output_rgb-change,
}
use hmtl.Emulator.Effects.Blocks.{blink-eq-ok, timed_change-eq-ok, fade_pack-eq-ok, pack-bytes}

if_same : (b : Bool) (em : Emulator) → em ≡ (if b then em else em)
if_same true em = refl
if_same false em = refl

-- A message that is not of output type.
handle_bytes-other :
    (len mtype flags address : ℕ) (body : Bytes) (em : Emulator)
    → mtype ≢ 1
    → handle_bytes (wire len mtype flags address body) em ≡ ok em
unfolding handle_bytes
handle_bytes-other len mtype flags address body em n = ground arith

-- A program of a type that the module does not have.
abbrev IsUnknown : ℕ → Type 0
IsUnknown t = (t ≢ 0) × (t ≢ 1) × (t ≢ 2) × (t ≢ 5) × (t ≢ 9)

install_program_unknown :
    (o t : ℕ) (body : Bytes) (em : Emulator) → IsUnknown t → install_program o t body em ≡ em
unfolding install_program parse_program
install_program_unknown o t body em (a, b, c, d, e) = ground arith

prepare_unknown :
    (t a o : ℕ) (payload : Result Bytes) (bs : Bytes) (em : Emulator)
    → prepare t a o payload ≡ ok bs
    → IsUnknown t
    → handle_bytes bs em ≡ ok (if is_for a em then em else em)
prepare_unknown t a o payload bs em e n =
    let (body, p, _, _, _, _) = prepare-eq-ok t a o payload bs e in
    handle_bytes-program t a o payload bs body em e p
    ∙ ap (λ (s : Emulator). ok (if is_for a em then s else em))
        (install_program_unknown o t body em n)

-- A request whose message says all that it asks for: a sequence has a step, and each of its steps
-- an output.
abbrev pub IsPlain : Request → Type 0
IsPlain (sequence a []) = ⊥
IsPlain (sequence a (s ∷ ss)) = IsUsed (s ∷ ss)
IsPlain _ = Unit

abbrev Does : Request → Bytes → Emulator → Type 0
Does q bs em = handle_bytes bs em ≡ ok (if is_for (address_of q) em then calls q em else em)

does_nothing :
    (a len mtype flags : ℕ) (body bs : Bytes) (em : Emulator)
    → bs ≡ wire len mtype flags a body
    → mtype ≢ 1
    → handle_bytes bs em ≡ ok (if is_for a em then em else em)
does_nothing a len mtype flags body bs em e n = rw e (
    handle_bytes-other len mtype flags a body em n
    ∙ ap (λ (s : Emulator). ok s) (if_same (is_for a em) em))

-- A program message whose block is parsed into `p`.
short_begins :
    (a o t : ℕ) (block bs : Bytes) (p : Program) (em : Emulator)
    → t ≢ 0
    → get_program_msg a o t block ≡ ok bs
    → parse_program t block ≡ some p
    → handle_bytes bs em ≡ ok (if is_for a em then with_program p o em else em)
unfolding install_program
short_begins a o t block bs p em n e parsed =
    handle_bytes-short_program t a o bs block em e ∙ (rw parsed (ground arith))

handle_bytes-blink :
    (a o p q : ℕ) (v w : List ℕ) (bs : Bytes) (em : Emulator)
    → get_program_blink_msg a o p v q w ≡ ok bs
    → Does (blink a o p v q w) bs em
handle_bytes-blink a o p q v w bs em e =
    let (block, sent, parsed) = blink-eq-ok a o p q v w bs e in
    short_begins a o 1 block bs _ em (omega arith) sent parsed

handle_bytes-timed_change :
    (a o p : ℕ) (v w : List ℕ) (bs : Bytes) (em : Emulator)
    → get_program_timed_change_msg a o p v w ≡ ok bs
    → Does (timed_change a o p v w) bs em
handle_bytes-timed_change a o p v w bs em e =
    let (block, sent, parsed) = timed_change-eq-ok a o p v w bs e in
    short_begins a o 2 block bs _ em (omega arith) sent parsed

handle_bytes-cancel :
    (a o : ℕ) (bs : Bytes) (em : Emulator)
    → get_program_none_msg a o ≡ ok bs
    → Does (cancel a o) bs em
unfolding get_program_none_msg install_program
handle_bytes-cancel a o bs em e =
    let (block, _, sent) = >>=-eq-ok _ (get_program_msg a o 0) e in
    handle_bytes-short_program 0 a o bs block em sent

handle_bytes-generic :
    (a o p : ℕ) (v : Option (List ℕ)) (bs : Bytes) (em : Emulator)
    → get_program_generic a o p v ≡ ok bs
    → Does (generic a o p v) bs em
unfolding get_program_generic generic_pack
handle_bytes-generic a o p v bs em e =
    let (values, made, sent) = >>=-eq-ok (generic_new v) _ e in
    let (body, packed, _, _, _, _) = prepare-eq-ok p a o (generic_pack values) bs sent in
    let same : body ≡ values = pack-bytes 32 values body packed in
    handle_bytes-program p a o (generic_pack values) bs body em sent packed
    ∙ ap (λ (r : Result (List ℕ)). ok (if is_for a em then run_values o p r em else em))
        (ap (λ (l : List ℕ). ok l) same ∙ sym made)

handle_bytes-fade_request :
    (a o : ℕ) (p : ProgramFade) (bs : Bytes) (em : Emulator)
    → get_program_fade_msg a o p ≡ ok bs
    → Does (fade a o p) bs em
unfolding get_program_fade_msg install_program
handle_bytes-fade_request a o p bs em e =
    let (body, packed, _, _, _, _) = prepare-eq-ok 5 a o (fade_pack p) bs e in
    let parsed = fade_pack-eq-ok p body packed in
    handle_bytes-program 5 a o _ bs body em e packed ∙ rw parsed refl

-- The requests for programs that the module does not have.
handle_bytes-level :
    (a o t : ℕ) (bs : Bytes) (em : Emulator)
    → (generic_new none >>= λ d. prepare t a o (generic_pack d)) ≡ ok bs
    → IsUnknown t
    → handle_bytes bs em ≡ ok (if is_for a em then em else em)
handle_bytes-level a o t bs em e n =
    let (d, _, sent) = >>=-eq-ok (generic_new none) _ e in prepare_unknown t a o _ bs em sent n

-- A message makes the emulator call what `calls` says.
handle_bytes-calls :
    (q : Request) (bs : Bytes) (em : Emulator) → IsPlain q → build q ≡ ok bs → Does q bs em
unfolding build get_program_level_value_msg get_program_sound_value_msg sparkle_msg circular_msg
    color_msg
handle_bytes-calls (set_value a o v) bs em n e = handle_bytes-value a o v bs em e
handle_bytes-calls (set_rgb a o r g b) bs em n e = handle_bytes-rgb a o r g b bs em e
handle_bytes-calls (poll a) bs em n e =
    does_nothing a 8 2 2 [] bs em (get_poll_msg-eq-ok a bs e) (omega arith)
handle_bytes-calls (dumpconfig a) bs em n e =
    does_nothing a 8 0xE0 2 [] bs em (get_dumpconfig_msg-eq-ok a bs e) (omega arith)
handle_bytes-calls (set_addr a d m) bs em n e =
    does_nothing a 12 3 0 _ bs em (get_set_addr_msg-eq-ok a d m bs e) (omega arith)
handle_bytes-calls (run_program a o t d) bs em n e = handle_bytes-short_program t a o bs d em e
handle_bytes-calls (blink a o p v q w) bs em n e = handle_bytes-blink a o p q v w bs em e
handle_bytes-calls (cancel a o) bs em n e = handle_bytes-cancel a o bs em e
handle_bytes-calls (timed_change a o p v w) bs em n e = handle_bytes-timed_change a o p v w bs em e
handle_bytes-calls (generic a o p v) bs em n e = handle_bytes-generic a o p v bs em e
handle_bytes-calls (level a o) bs em n e =
    handle_bytes-level a o 3 bs em e
      (omega arith, omega arith, omega arith, omega arith, omega arith)
handle_bytes-calls (sound a o) bs em n e =
    handle_bytes-level a o 4 bs em e
      (omega arith, omega arith, omega arith, omega arith, omega arith)
handle_bytes-calls (fade a o p) bs em n e = handle_bytes-fade_request a o p bs em e
handle_bytes-calls (sparkle a o p) bs em n e =
    prepare_unknown 6 a o _ bs em e
      (omega arith, omega arith, omega arith, omega arith, omega arith)
handle_bytes-calls (circular a o p) bs em n e =
    prepare_unknown 8 a o _ bs em e
      (omega arith, omega arith, omega arith, omega arith, omega arith)
handle_bytes-calls (color a o v s l) bs em n e =
    let (p, _, sent) = >>=-eq-ok (color_new v s l) (color_msg a o) e in
    prepare_unknown 0x31 a o _ bs em sent
      (omega arith, omega arith, omega arith, omega arith, omega arith)
handle_bytes-calls (sequence a []) bs em n e = absurd n
handle_bytes-calls (sequence a (s ∷ ss)) bs em n e = handle_bytes-sequence a s ss bs em n e

-- Every message that a builder returns takes the emulator to the state with the request's effect, and
-- raises nothing. On another module it changes nothing. On the module that it is for, or all are:
-- a colour or a value is on the outputs that the index names, the low 13 bits of a value, and no
-- other output changes; a blink, timed-change, fade or sequence program is new in the slots that
-- are named; a 12-byte or generic block begins the program that it is parsed into, or none of
-- an unknown type; type 0 empties the slots; and a poll, a request for the configuration, a new
-- address, and the level, sound, sparkle, circular and colour programs are ignored. The module has a
-- slot for each output; a request for a sequence names one step at least, and an output in each
-- step.
pub handle_bytes-build :
    (q : Request) (bs : Bytes) (em : Emulator)
    → IsPlain q
    → IsSlotted em
    → build q ≡ ok bs
    → handle_bytes bs em ≡ ok (effect q em)
handle_bytes-build q bs em plain slotted e =
    handle_bytes-calls q bs em plain e
    ∙ ap (λ (s : Emulator). ok (if is_for (address_of q) em then s else em))
        (calls-act q em slotted)

-- For a colour or a value no slots are needed.
abbrev pub IsLight : Request → Type 0
IsLight (set_rgb address i r g b) = Unit
IsLight (set_value address i v) = Unit
IsLight q = ⊥

pub handle_bytes-light :
    (q : Request) (bs : Bytes) (em : Emulator)
    → IsLight q
    → build q ≡ ok bs
    → handle_bytes bs em ≡ ok (effect q em)
unfolding build
handle_bytes-light (set_rgb a o r g b) bs em h e =
    handle_bytes-rgb a o r g b bs em e
    ∙ ap (λ (s : Emulator). ok (if is_for a em then s else em))
        (set_output_rgb-change (r, g, b) o em)
handle_bytes-light (set_value a o v) bs em h e =
    handle_bytes-value a o v bs em e
    ∙ ap (λ (s : Emulator). ok (if is_for a em then s else em))
        (set_output_value-change (v % 2 ^ 13) o em (omega arith))
handle_bytes-light _ bs em h e = absurd h
