-- ===== src/Emulator/Effects/Blocks.antt =====
-- The blocks of program messages, as python/hmtl/HMTLprotocol.py packs them and
-- python/hmtl/emulator/emulator.py parses them.
use hmtl.Prelude.{
  ℕ, zero, suc, ◌≡◌, List, [], ◌∷◌, ◌++◌, append-nil, Bytes, some, replicate, ok, >>=-eq-ok, ◌>>=◌,
  arith,
}
use hmtl.Struct.{byte, long, pack, pack_args, Code}
use hmtl.Struct.RoundTrip.{pack_args-eq-ok, unpack-pack, unpack_split}
use hmtl.Protocol.Constants.{msg_program_blink_fmt, msg_program_timed_change_fmt}
use hmtl.Protocol.Messages.{
  three, at, get_program_msg, get_program_blink_msg, get_program_timed_change_msg,
}
use hmtl.Protocol.Programs.{ProgramFade, fade_pack, fade_fmt}
use hmtl.Emulator.Outputs.{Rgb}
use hmtl.Emulator.Device.{parse_program}
use hmtl.Emulator.Payloads.{fade_of, parse_program-blink, parse_program-fade}
use hmtl.Emulator.Effects.{colour, blink_of, timed_change_of}

abbrev values : Rgb → List ℕ
values (r, g, b) = r ∷ g ∷ b ∷ []

three-eq-ok : (v t : List ℕ) → three v ≡ ok t → t ≡ values (colour v)
unfolding three at
three-eq-ok [] t e = cc
three-eq-ok (r ∷ []) t e = cc
three-eq-ok (r ∷ g ∷ []) t e = cc
three-eq-ok (r ∷ g ∷ b ∷ rest) t e = cc

-- The block of two colours, each the first three of its list.
colours-eq-ok :
    (fmt : List Code) (v w : List ℕ) (args : List ℕ → List ℕ → List ℕ) (block : Bytes)
    → pack_args fmt (three v >>= λ on. three w >>= λ off. ok (args on off)) ≡ ok block
    → pack fmt (args (values (colour v)) (values (colour w))) ≡ ok block
colours-eq-ok fmt v w args block e =
    let (vs, made, whole) = pack_args-eq-ok fmt _ block e in
    let (t, first, made') = >>=-eq-ok (three v) _ made in
    let (u, second, made'') = >>=-eq-ok (three w) _ made' in
    let same : vs ≡ args t u = cc in
    rw (← three-eq-ok v t first, ← three-eq-ok w u second, ← same) whole

-- A blink message holds a block that is parsed into the blink that was asked for.
pub blink-eq-ok :
    (a o p q : ℕ) (v w : List ℕ) (bs : Bytes)
    → get_program_blink_msg a o p v q w ≡ ok bs
    → (block : Bytes) × (get_program_msg a o 1 block ≡ ok bs)
      × (parse_program 1 block ≡ some (blink_of p (colour v) q (colour w)))
unfolding get_program_blink_msg
blink-eq-ok a o p q v w bs e =
    let (block, packed, sent) = >>=-eq-ok _ (get_program_msg a o 1) e in
    let whole =
      colours-eq-ok msg_program_blink_fmt v w
        (λ (on off : List ℕ). p ∷ on ++ (q ∷ (off ++ (0 ∷ 0 ∷ [])))) block packed in
    let (r, g, b) = colour v in
    let (r', g', b') = colour w in (block, sent, parse_program-blink p r g b q r' g' b' block whole)

parse_program-timed_change :
    (period r g b r' g' b' : ℕ) (bs : Bytes)
    → pack msg_program_timed_change_fmt (period ∷ r ∷ g ∷ b ∷ r' ∷ g' ∷ b' ∷ 0 ∷ 0 ∷ []) ≡ ok bs
    → parse_program 2 bs ≡ some (timed_change_of period (r, g, b) (r', g', b'))
unfolding parse_program
parse_program-timed_change period r g b r' g' b' bs e =
    let whole = unpack-pack msg_program_timed_change_fmt _ bs [] e in
    let (read, _) =
      unpack_split (long ∷ byte ∷ byte ∷ byte ∷ byte ∷ byte ∷ byte ∷ []) (byte ∷ byte ∷ []) bs _
        (rw (append-nil bs) at whole) in
    ground (arith, read)

-- A timed-change message holds a block that is parsed into the timed change that was asked for.
pub timed_change-eq-ok :
    (a o p : ℕ) (v w : List ℕ) (bs : Bytes)
    → get_program_timed_change_msg a o p v w ≡ ok bs
    → (block : Bytes) × (get_program_msg a o 2 block ≡ ok bs)
      × (parse_program 2 block ≡ some (timed_change_of p (colour v) (colour w)))
unfolding get_program_timed_change_msg
timed_change-eq-ok a o p v w bs e =
    let (block, packed, sent) = >>=-eq-ok _ (get_program_msg a o 2) e in
    let whole =
      colours-eq-ok msg_program_timed_change_fmt v w
        (λ (start stop : List ℕ). p ∷ start ++ (stop ++ (0 ∷ 0 ∷ []))) block packed in
    let (r, g, b) = colour v in
    let (r', g', b') = colour w in
    (block, sent, parse_program-timed_change p r g b r' g' b' block whole)

-- A packed fade is parsed into the fade that was asked for.
pub fade_pack-eq-ok :
    (p : ProgramFade) (block : Bytes)
    → fade_pack p ≡ ok block
    → parse_program 5 block
      ≡ some (fade_of p.change_period (colour p.start_values) (colour p.stop_values) p.flags)
unfolding fade_pack three at pack_args
fade_pack-eq-ok p block e =
    let whole =
      colours-eq-ok fade_fmt p.start_values p.stop_values
        (λ (start stop : List ℕ). p.change_period ∷ start ++ (stop ++ (p.flags ∷ replicate 21 0)))
        block e in
    let (r, g, b) = colour p.start_values in
    let (r', g', b') = colour p.stop_values in
    parse_program-fade p.change_period r g b r' g' b' p.flags block whole

-- Values that are packed as bytes are the bytes.
pub pack-bytes : (n : ℕ) (vs : List ℕ) (bs : Bytes) → pack (replicate n byte) vs ≡ ok bs → bs ≡ vs
unfolding pack
pack-bytes zero [] bs e = cc
pack-bytes zero (v ∷ vs) bs e = cc
pack-bytes (suc n) [] bs e = cc
pack-bytes (suc n) (v ∷ vs) bs e =
    let (rest, r, s) = >>=-eq-ok (pack (replicate n byte) vs) _ e in
    ground (arith, pack-bytes n vs rest r)
