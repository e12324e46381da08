-- ===== src/Protocol/Frame.antt =====
-- The builders of python/hmtl/HMTLprotocol.py as answers to requests, and whole messages.
use hmtl.Prelude.{
  ℕ, ◌+◌, ◌≤◌, ◌≡◌, ◌%◌, ◌/◌, List, [], ◌∷◌, Bytes, length, Result, ok, err, ◌>>=◌, arith, Option,
  none,
}
use hmtl.Struct.RoundTrip.{pack_shape, length-pack_args}
use hmtl.Protocol.Messages.{
  get_value_msg, get_rgb_msg, get_poll_msg, get_dumpconfig_msg, get_program_msg,
  get_program_blink_msg, get_program_none_msg, get_program_timed_change_msg,
}
use hmtl.Protocol.Programs.{
  prepare, get_set_addr_msg, get_program_generic, get_program_level_value_msg,
  get_program_sound_value_msg, get_program_fade_msg, sparkle_msg, circular_msg, color_new,
  color_msg, get_program_sequence_msg, ProgramColor, ProgramFade, ProgramSparkle, ProgramCircular,
  SeqStep, generic_new, generic_pack, fade_pack, sparkle_pack, circular_pack, color_pack,
  sequence_new, sequence_msg, sequence_pack, generic_fmt, fade_fmt, sparkle_fmt, circular_fmt,
  color_fmt, sequence_fmt,
}
use hmtl.Protocol.Layout.{
  wire, get_value_msg_lem, get_rgb_msg_lem, prepare-eq-ok, get_program_msg-eq-ok,
}

-- The messages that a client can ask for, with the builder's arguments.
pub data Request : Type 0 where
  set_value : ℕ → ℕ → ℕ → Request
  set_rgb : ℕ → ℕ → ℕ → ℕ → ℕ → Request
  poll dumpconfig : ℕ → Request
  set_addr : ℕ → ℕ → ℕ → Request
  run_program : ℕ → ℕ → ℕ → Bytes → Request
  blink : ℕ → ℕ → ℕ → List ℕ → ℕ → List ℕ → Request
  cancel : ℕ → ℕ → Request
  timed_change : ℕ → ℕ → ℕ → List ℕ → List ℕ → Request
  generic : ℕ → ℕ → ℕ → Option (List ℕ) → Request
  level sound : ℕ → ℕ → Request
  fade : ℕ → ℕ → ProgramFade → Request
  sparkle : ℕ → ℕ → ProgramSparkle → Request
  circular : ℕ → ℕ → ProgramCircular → Request
  color : ℕ → ℕ → List ℕ → ℕ → ℕ → Request
  sequence : ℕ → List SeqStep → Request

-- The builder that answers each request.
unfoldable pub build : Request → Result Bytes
build (set_value a o v) = get_value_msg a o v
build (set_rgb a o r g b) = get_rgb_msg a o r g b
build (poll a) = get_poll_msg a
build (dumpconfig a) = get_dumpconfig_msg a
build (set_addr a d n) = get_set_addr_msg a d n
build (run_program a o t d) = get_program_msg a o t d
build (blink a o p v q w) = get_program_blink_msg a o p v q w
build (cancel a o) = get_program_none_msg a o
build (timed_change a o p v w) = get_program_timed_change_msg a o p v w
build (generic a o p v) = get_program_generic a o p v
build (level a o) = get_program_level_value_msg a o
build (sound a o) = get_program_sound_value_msg a o
build (fade a o p) = get_program_fade_msg a o p
build (sparkle a o p) = sparkle_msg a o p
build (circular a o p) = circular_msg a o p
build (color a o v s l) = color_new v s l >>= color_msg a o
build (sequence a s) = get_program_sequence_msg a s

-- A whole message: start code, version 2, and a length byte that counts all of it.
pub record IsFrame (bs : Bytes) : Type 0 where
  pub crc : ℕ
  pub mtype : ℕ
  pub flags : ℕ
  pub lo : ℕ
  pub hi : ℕ
  pub body : Bytes
  pub layout : bs ≡ 0xFC ∷ crc ∷ 2 ∷ (8 + length body) ∷ mtype ∷ flags ∷ lo ∷ hi ∷ body
  pub fits : 8 + length body ≤ 255

wire-IsFrame :
    (len mtype flags address : ℕ) (body bs : Bytes)
    → bs ≡ wire len mtype flags address body
    → len ≡ 8 + length body
    → len ≤ 255
    → IsFrame bs
wire-IsFrame len mtype flags address body bs e n h = record {
  crc = 0;
  mtype = mtype;
  flags = flags;
  lo = address % 256;
  hi = address / 256;
  body = body;
  layout = rw (← n) e;
  fits = omega arith;
}

prepare-IsFrame :
    (program address output : ℕ) (payload : Result Bytes) (bs : Bytes)
    → ((body : Bytes) → payload ≡ ok body → length body ≡ 32)
    → prepare program address output payload ≡ ok bs
    → IsFrame bs
prepare-IsFrame program address output payload bs size e =
    let (body, p, layout, _, _, _) = prepare-eq-ok program address output payload bs e in
    wire-IsFrame 43 1 0 address (3 ∷ output ∷ program ∷ body) bs layout (omega (arith, size body p))
      (omega arith)

get_program_msg-IsFrame : (a o t : ℕ) (d bs : Bytes) → get_program_msg a o t d ≡ ok bs → IsFrame bs
get_program_msg-IsFrame a o t d bs e =
    let (layout, n, _, _, _) = get_program_msg-eq-ok a o t d bs e in
    wire-IsFrame 23 1 0 a (3 ∷ o ∷ t ∷ d) bs layout (omega arith) (omega arith)

abbrev Packs32 : Result Bytes → Type 0
Packs32 r = (bs : Bytes) → r ≡ ok bs → length bs ≡ 32

length-generic_pack : (vs : List ℕ) → Packs32 (generic_pack vs)
unfolding generic_pack
length-generic_pack vs bs e = (pack_shape generic_fmt vs bs e).0

length-fade_pack : (p : ProgramFade) → Packs32 (fade_pack p)
unfolding fade_pack
length-fade_pack p bs e = length-pack_args fade_fmt _ bs e

length-sparkle_pack : (p : ProgramSparkle) → Packs32 (sparkle_pack p)
unfolding sparkle_pack
length-sparkle_pack p bs e = length-pack_args sparkle_fmt _ bs e

length-circular_pack : (p : ProgramCircular) → Packs32 (circular_pack p)
unfolding circular_pack
length-circular_pack p bs e = length-pack_args circular_fmt _ bs e

length-color_pack : (p : ProgramColor) → Packs32 (color_pack p)
unfolding color_pack
length-color_pack p bs e = length-pack_args color_fmt _ bs e

length-sequence_pack : (s : List SeqStep) → Packs32 (sequence_pack s)
unfolding sequence_pack
length-sequence_pack s bs e = (pack_shape sequence_fmt _ bs e).0

-- A `do` block that ends in a frame or an error.
bind-IsFrame {ℓ} :
    {A : Type ℓ} (m : Result A) (f : A → Result Bytes) (bs : Bytes)
    → (m >>= f) ≡ ok bs
    → ((a : A) → f a ≡ ok bs → IsFrame bs)
    → IsFrame bs
bind-IsFrame (ok a) f bs e h = h a e
bind-IsFrame (err x) f bs e h = cc

pub get_poll_msg-eq-ok : (a : ℕ) (bs : Bytes) → get_poll_msg a ≡ ok bs → bs ≡ wire 8 2 2 a []
unfolding get_poll_msg
get_poll_msg-eq-ok a bs e = ground arith

pub get_dumpconfig_msg-eq-ok :
    (a : ℕ) (bs : Bytes) → get_dumpconfig_msg a ≡ ok bs → bs ≡ wire 8 0xE0 2 a []
unfolding get_dumpconfig_msg
get_dumpconfig_msg-eq-ok a bs e = ground arith

pub get_set_addr_msg-eq-ok :
    (a d n : ℕ) (bs : Bytes)
    → get_set_addr_msg a d n ≡ ok bs
    → bs ≡ wire 12 3 0 a ((d % 256) ∷ (d / 256) ∷ (n % 256) ∷ (n / 256) ∷ [])
unfolding get_set_addr_msg
get_set_addr_msg-eq-ok a d n bs e = ground arith

-- Whatever a builder returns, for any arguments, is a whole message: a start code, version 2, and
-- a length byte that counts all of it.
pub build-IsFrame : (q : Request) (bs : Bytes) → build q ≡ ok bs → IsFrame bs
unfolding build
build-IsFrame (set_value a o v) bs e =
    wire-IsFrame 12 1 0 a (1 ∷ o ∷ (v % 256) ∷ (v / 256) ∷ []) bs
      (ground (arith, get_value_msg_lem a o v)) (omega arith) (omega arith)
build-IsFrame (set_rgb a o r g b) bs e =
    wire-IsFrame 13 1 0 a (2 ∷ o ∷ r ∷ g ∷ b ∷ []) bs (ground (arith, get_rgb_msg_lem a o r g b))
      (omega arith) (omega arith)
build-IsFrame (poll a) bs e =
    wire-IsFrame 8 2 2 a [] bs (get_poll_msg-eq-ok a bs e) (omega arith) (omega arith)
build-IsFrame (dumpconfig a) bs e =
    wire-IsFrame 8 0xE0 2 a [] bs (get_dumpconfig_msg-eq-ok a bs e) (omega arith) (omega arith)
build-IsFrame (set_addr a d n) bs e =
    wire-IsFrame 12 3 0 a _ bs (get_set_addr_msg-eq-ok a d n bs e) (omega arith) (omega arith)
build-IsFrame (run_program a o t d) bs e = get_program_msg-IsFrame a o t d bs e
build-IsFrame (blink a o p v q w) bs e =
    unfold get_program_blink_msg in
    bind-IsFrame _ (get_program_msg a o 1) bs e (λ d h. get_program_msg-IsFrame a o 1 d bs h)
build-IsFrame (cancel a o) bs e =
    unfold get_program_none_msg in
    bind-IsFrame _ (get_program_msg a o 0) bs e (λ d h. get_program_msg-IsFrame a o 0 d bs h)
build-IsFrame (timed_change a o p v w) bs e =
    unfold get_program_timed_change_msg in
    bind-IsFrame _ (get_program_msg a o 2) bs e (λ d h. get_program_msg-IsFrame a o 2 d bs h)
build-IsFrame (generic a o p v) bs e =
    unfold get_program_generic in
    bind-IsFrame (generic_new v) (λ d. prepare p a o (generic_pack d)) bs e
      (λ d h. prepare-IsFrame p a o _ bs (length-generic_pack d) h)
build-IsFrame (level a o) bs e =
    unfold get_program_level_value_msg in
    bind-IsFrame (generic_new none) (λ d. prepare 3 a o (generic_pack d)) bs e
      (λ d h. prepare-IsFrame 3 a o _ bs (length-generic_pack d) h)
build-IsFrame (sound a o) bs e =
    unfold get_program_sound_value_msg in
    bind-IsFrame (generic_new none) (λ d. prepare 4 a o (generic_pack d)) bs e
      (λ d h. prepare-IsFrame 4 a o _ bs (length-generic_pack d) h)
build-IsFrame (fade a o p) bs e =
    unfold get_program_fade_msg in prepare-IsFrame 5 a o _ bs (length-fade_pack p) e
build-IsFrame (sparkle a o p) bs e =
    unfold sparkle_msg in prepare-IsFrame 6 a o _ bs (length-sparkle_pack p) e
build-IsFrame (circular a o p) bs e =
    unfold circular_msg in prepare-IsFrame 8 a o _ bs (length-circular_pack p) e
build-IsFrame (color a o v s l) bs e =
    bind-IsFrame (color_new v s l) (color_msg a o) bs e
      (λ p h. unfold color_msg in prepare-IsFrame 0x31 a o _ bs (length-color_pack p) h)
build-IsFrame (sequence a s) bs e =
    unfold get_program_sequence_msg in
    bind-IsFrame (sequence_new s) (sequence_msg a) bs e
      (λ p h. unfold sequence_msg in prepare-IsFrame 9 a 255 _ bs (length-sequence_pack p) h)
