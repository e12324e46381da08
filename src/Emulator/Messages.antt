-- ===== src/Emulator/Messages.antt =====
-- What the emulator does with the messages that the builders make.
use hmtl.Prelude.{
  ℕ, ◌+◌, ◌*◌, ◌/◌, ◌%◌, ◌^◌, ◌<◌, ◌≡◌, ◌≢◌, refl, List, [], ◌∷◌, ◌++◌, inl, inr, Bytes, Bool, ◌||◌,
  Result, Result-cases, ok, err, Error, ◌==◌, if◌then◌else◌, arith,
}
use hmtl.Protocol.Constants.{broadcast}
use hmtl.Protocol.Messages.{get_value_msg, get_rgb_msg, get_program_msg}
use hmtl.Protocol.Programs.{prepare}
use hmtl.Protocol.Layout.{
  wire, get_value_msg_lem, get_rgb_msg_lem, prepare-eq-ok, get_program_msg-eq-ok,
}
use hmtl.Emulator.Device.{Emulator, set_output_value, set_output_rgb, install_program}
use hmtl.Serial.{Value, bytes, str, nothing}
use hmtl.Emulator.Control.{client_handler, on_handled}
use hmtl.Emulator.Handle.{handle_bytes, dispatch_output, dispatch_payload}

-- Is a message to `address` for this module?
abbrev pub is_for : ℕ → Emulator → Bool
is_for address em = (address == broadcast) || (address == em.address)

dispatch_payload_total :
    (t i : ℕ) (payload : Bytes) (em : Emulator) (e : Error)
    → dispatch_payload t i payload em ≢ err e
unfolding dispatch_payload
dispatch_payload_total t i [] em e = ground arith
dispatch_payload_total t i (a ∷ []) em e = ground arith
dispatch_payload_total t i (a ∷ b ∷ []) em e = ground arith
dispatch_payload_total t i (a ∷ b ∷ c ∷ rest) em e = ground arith

dispatch_output_total : (bs : Bytes) (em : Emulator) (e : Error) → dispatch_output bs em ≢ err e
unfolding dispatch_output
dispatch_output_total [] em e = ground arith
dispatch_output_total (a ∷ []) em e = ground arith
dispatch_output_total (a ∷ b ∷ rest) em e = ground (arith, dispatch_payload_total a b rest em e)

-- `handle_bytes` raises nothing, whatever the bytes: every read of a field is behind its guard.
pub handle_bytes_total : (bs : Bytes) (em : Emulator) (e : Error) → handle_bytes bs em ≢ err e
unfolding handle_bytes
handle_bytes_total (s ∷ c ∷ v ∷ l ∷ t ∷ f ∷ lo ∷ hi ∷ rest) em e =
    ground (arith, dispatch_output_total rest em e)
handle_bytes_total _ em e = ground arith

on_handled-append :
    (bs : Bytes) (em : Emulator) (us vs : List Value)
    → ((em' : Emulator)
        → client_handler (us ++ vs) em' ≡ client_handler vs (client_handler us em').1)
    → on_handled (client_handler (us ++ vs)) em (handle_bytes bs em)
      ≡ client_handler vs (on_handled (client_handler us) em (handle_bytes bs em)).1
unfolding on_handled
on_handled-append bs em us vs h = elim (Result-cases (handle_bytes bs em)) [
  | inl (em', e) ↦ rw e (h em')
  | inr (x, e) ↦ absurd (handle_bytes_total bs em x e)
]

-- No message ends the message port's loop, whatever is received, text and noise included: to take two
-- runs of messages is to take the first and then, in the state that it leaves, the second.
pub client_handler-append :
    (us vs : List Value) (em : Emulator)
    → client_handler (us ++ vs) em ≡ client_handler vs (client_handler us em).1
unfolding client_handler
client_handler-append [] vs em = refl
client_handler-append (bytes bs ∷ us) vs em =
    on_handled-append bs em us vs (client_handler-append us vs)
client_handler-append (str w ∷ us) vs em = client_handler-append us vs em
client_handler-append (nothing ∷ us) vs em = client_handler-append us vs em

-- A message of output type, split at its output header.
handle_bytes-output :
    (len address t i : ℕ) (payload : Bytes) (em : Emulator)
    → address < 0x1_0000
    → handle_bytes (wire len 1 0 address (t ∷ i ∷ payload)) em
      ≡ (if is_for address em then dispatch_payload t i payload em else ok em)
unfolding handle_bytes
handle_bytes-output len address t i payload em h =
    let same : address % 256 + 256 * (address / 256) ≡ address = omega arith in
    rw same (ground arith)

-- The emulator does what the RGB builder's message asks: the outputs that the index names get the
-- colour if the message is for this module, and nothing changes otherwise.
pub handle_bytes-rgb :
    (address output r g b : ℕ) (bs : Bytes) (em : Emulator)
    → get_rgb_msg address output r g b ≡ ok bs
    → handle_bytes bs em ≡ ok (if is_for address em then set_output_rgb output (r, g, b) em else em)
handle_bytes-rgb address output r g b bs em e =
    let in_range : address < 0x1_0000 = ground (arith, get_rgb_msg_lem address output r g b) in
    let same : bs ≡ wire 13 1 0 address (2 ∷ output ∷ r ∷ g ∷ b ∷ []) =
      ground (arith, get_rgb_msg_lem address output r g b) in
    rw (same, handle_bytes-output 13 address 2 output (r ∷ g ∷ b ∷ []) em in_range)
      (unfold dispatch_payload in ground arith)

-- The emulator does what the value builder's message asks: the outputs that the index names get
-- the low 13 bits of the value if the message is for this module, and nothing changes otherwise.
pub handle_bytes-value :
    (address output value : ℕ) (bs : Bytes) (em : Emulator)
    → get_value_msg address output value ≡ ok bs
    → handle_bytes bs em
      ≡ ok (if is_for address em then set_output_value output (value % 2 ^ 13) em else em)
handle_bytes-value address output value bs em e =
    let in_range : (address < 0x1_0000) × (value < 0x1_0000) =
      ground (arith, get_value_msg_lem address output value) in
    let same : bs ≡ wire 12 1 0 address (1 ∷ output ∷ (value % 256) ∷ (value / 256) ∷ []) =
      ground (arith, get_value_msg_lem address output value) in
    let word : value % 256 + 256 * (value / 256) ≡ value = omega arith in
    rw (same, handle_bytes-output 12 address 1 output _ em in_range.0)
      (unfold dispatch_payload in (rw word (ground arith)))

-- A program message with the 32-byte block `body`, for this module, does what `_install_program`
-- does with it, and nothing on another module.
pub handle_bytes-program :
    (program address output : ℕ) (payload : Result Bytes) (bs body : Bytes) (em : Emulator)
    → prepare program address output payload ≡ ok bs
    → payload ≡ ok body
    → handle_bytes bs em
      ≡ ok (if is_for address em then install_program output program body em else em)
handle_bytes-program program address output payload bs body em e p =
    let (body', p', same, in_range, _, _) = prepare-eq-ok program address output payload bs e in
    let body_same : body' ≡ body = cc in
    rw (same, handle_bytes-output 43 address 3 output (program ∷ body') em in_range, body_same)
      (unfold dispatch_payload in ground arith)

-- A program message with a 12-byte block does the same.
pub handle_bytes-short_program :
    (program address output : ℕ) (bs body : Bytes) (em : Emulator)
    → get_program_msg address output program body ≡ ok bs
    → handle_bytes bs em
      ≡ ok (if is_for address em then install_program output program body em else em)
handle_bytes-short_program program address output bs body em e =
    let (same, _, in_range, _, _) = get_program_msg-eq-ok address output program body bs e in
    rw (same, handle_bytes-output 23 address 3 output (program ∷ body) em in_range)
      (unfold dispatch_payload in ground arith)
