-- ===== src/Emulator/Requests.antt =====
-- A request from its builder to the emulator's state.
use hmtl.Prelude.{
  ℕ, ◌≤◌, ◌≡◌, ◌∙◌, refl, List, [], ◌∷◌, ◌++◌, Bytes, length, some, none, ok, if◌then◌else◌, arith,
}
use hmtl.Protocol.Programs.{
  get_program_fade_msg, prepare, SeqStep, get_program_sequence_msg, sequence_msg, sequence_new,
  sequence_pack,
}
use hmtl.Protocol.Layout.{prepare-eq-ok}
use hmtl.Emulator.Programs.{Program, sequence}
use hmtl.Emulator.Device.{Emulator, install_program, assign, no_output}
use hmtl.Emulator.Handle.{handle_bytes}
use hmtl.Emulator.Messages.{is_for, handle_bytes-program}
use hmtl.Emulator.Payloads.{fade_of, parse_program-fade, parse_program-sequence, IsUsed}

-- A new program object on the slots that an index names.
abbrev pub with_program : Program → ℕ → Emulator → Emulator
with_program p i em = assign (some (length em.heap)) i (record em { heap = em.heap ++ (p ∷ []) })

-- The fade builder's message starts, on a module that it is for, just the fade that was asked for,
-- on the outputs that were asked for; on another module it changes nothing.
pub handle_bytes-fade :
    (address output period r g b r' g' b' flags : ℕ) (bs : Bytes) (em : Emulator)
    → get_program_fade_msg address output (record {
      change_period = period;
      start_values = r ∷ g ∷ b ∷ [];
      stop_values = r' ∷ g' ∷ b' ∷ [];
      flags = flags;
    })
      ≡ ok bs
    → handle_bytes bs em
      ≡ ok (
          if is_for address em
          then with_program (fade_of period (r, g, b) (r', g', b') flags) output em
          else em)
unfolding get_program_fade_msg install_program
handle_bytes-fade address output period r g b r' g' b' flags bs em e =
    let (body, packed, _, _, _, _) = prepare-eq-ok 5 address output _ bs e in
    let parsed = parse_program-fade period r g b r' g' b' flags body packed in
    handle_bytes-program 5 address output _ bs body em e packed ∙ rw parsed refl

-- The sequence builder's message, for one to eight steps that each name an output, starts a
-- sequence of just these steps in the place of the programs without an output.
pub handle_bytes-sequence :
    (address : ℕ) (s : SeqStep) (ss : List SeqStep) (bs : Bytes) (em : Emulator)
    → IsUsed (s ∷ ss)
    → get_program_sequence_msg address (s ∷ ss) ≡ ok bs
    → handle_bytes bs em
      ≡ ok (
          if is_for address em
          then with_program
              (sequence (record { steps = s ∷ ss; current = 0; next_change = none }))
              no_output
              em
          else em)
unfolding get_program_sequence_msg sequence_msg sequence_new install_program
handle_bytes-sequence address s ss bs em used e =
    let room : length (s ∷ ss) ≤ 8 = ground (arith, e) in
    let e' : prepare 9 address 255 (sequence_pack (s ∷ ss)) ≡ ok bs = ground (arith, e) in
    let (body, packed, _, _, _, _) = prepare-eq-ok 9 address 255 _ bs e' in
    let parsed = parse_program-sequence s ss body room used packed in
    handle_bytes-program 9 address 255 _ bs body em e' packed ∙ rw parsed refl
