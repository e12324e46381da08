-- ===== src/Emulator/Payloads.antt =====
-- The builders' program blocks and the emulator's `_parse_program`.
use hmtl.Prelude.{
  ℕ, zero, suc, ◌+◌, ◌-◌, ◌≤◌, ◌≡◌, ◌≢◌, ◌∙◌, refl, sym, ap, List, [], ◌∷◌, ◌++◌, map, replicate,
  take, drop, Bytes, length, true, false, none, some, ok, arith, take-append, drop-append_self,
  length-append, length-map, length-replicate, append-nil,
}
use hmtl.Struct.{byte, short, long, unpack, pack}
use hmtl.Struct.RoundTrip.{unpack-pack_args, unpack_split, unpack-pack}
use hmtl.Protocol.Constants.{msg_program_blink_fmt}
use hmtl.Protocol.Messages.{three}
use hmtl.Protocol.Programs.{fade_pack, SeqStep, sequence_pack, sequence_fmt}
use hmtl.Emulator.Programs.{Program, blink, fade, sequence}
use hmtl.Emulator.Device.{parse_program, sequence_steps}

-- The fade that a fade message starts.
abbrev pub fade_of : ℕ → ℕ × ℕ × ℕ → ℕ × ℕ × ℕ → ℕ → Program
fade_of period start stop flags = fade (record {
  period = period;
  start_value = start;
  stop_value = stop;
  flags = flags;
  start_time = none;
})

-- A packed fade is parsed into the fade with the same period, colours and flags.
pub parse_program-fade :
    (period r g b r' g' b' flags : ℕ) (bs : Bytes)
    → fade_pack (record {
      change_period = period;
      start_values = r ∷ g ∷ b ∷ [];
      stop_values = r' ∷ g' ∷ b' ∷ [];
      flags = flags;
    })
      ≡ ok bs
    → parse_program 5 bs ≡ some (fade_of period (r, g, b) (r', g', b') flags)
unfolding fade_pack three parse_program
parse_program-fade period r g b r' g' b' flags bs e =
    let (read, _) =
      unpack-pack_args (long ∷ byte ∷ byte ∷ byte ∷ byte ∷ byte ∷ byte ∷ byte ∷ [])
        (replicate 21 byte) _ _ bs refl e in
    ground (arith, read)

-- A packed 12-byte blink block is parsed into the blink with the same periods and colours.
pub parse_program-blink :
    (on r g b off r' g' b' : ℕ) (bs : Bytes)
    → pack msg_program_blink_fmt (on ∷ r ∷ g ∷ b ∷ off ∷ r' ∷ g' ∷ b' ∷ 0 ∷ 0 ∷ []) ≡ ok bs
    → parse_program 1 bs
      ≡ some (
          blink (record {
            on_period = on;
            on_value = (r, g, b);
            off_period = off;
            off_value = (r', g', b');
            initialized = false;
            on = true;
            next_change = 0;
          }))
unfolding parse_program
parse_program-blink on r g b off r' g' b' bs e =
    let whole = unpack-pack msg_program_blink_fmt _ bs [] e in
    let (read, _) =
      unpack_split (short ∷ byte ∷ byte ∷ byte ∷ short ∷ byte ∷ byte ∷ byte ∷ []) (byte ∷ byte ∷ [])
        bs _ (rw (append-nil bs) at whole) in
    ground (arith, read)

-- The three lists of a packed sequence, padded by `k` unused steps.
abbrev step_outputs : List SeqStep → ℕ → List ℕ
step_outputs steps k = map (λ (s : SeqStep). s.0) steps ++ replicate k 255

abbrev step_durations : List SeqStep → ℕ → List ℕ
step_durations steps k = map (λ (s : SeqStep). s.1) steps ++ replicate k 0

abbrev step_values : List SeqStep → ℕ → List ℕ
step_values steps k = map (λ (s : SeqStep). s.2) steps ++ replicate k 0

-- Every step names an output.
abbrev pub IsUsed : List SeqStep → Type 0
IsUsed [] = Unit {0}
IsUsed (s ∷ ss) = (s.0 ≢ 255) × IsUsed ss

sequence_steps-padded :
    (steps : List SeqStep) (k : ℕ)
    → IsUsed steps
    → sequence_steps (step_outputs steps k) (step_durations steps k) (step_values steps k) ≡ steps
unfolding sequence_steps
sequence_steps-padded [] zero u = refl
sequence_steps-padded [] (suc k) u = refl
sequence_steps-padded ((o, d, v) ∷ steps) k u = ground (arith, sequence_steps-padded steps k u.1)

take-append_eq : (n : ℕ) (xs ys : List ℕ) → length xs ≡ n → take n (xs ++ ys) ≡ xs
take-append_eq n xs ys h = rw (← h) (take-append xs ys)

drop-append_eq : (n : ℕ) (xs ys : List ℕ) → length xs ≡ n → drop n (xs ++ ys) ≡ ys
drop-append_eq n xs ys h = rw (← h) (drop-append_self xs ys)

drop-nil : (n : ℕ) → drop {A = ℕ} n [] ≡ []
drop-nil zero = refl
drop-nil (suc n) = refl

drop-drop : (m n : ℕ) (xs : Bytes) → drop m (drop n xs) ≡ drop (n + m) xs
drop-drop m zero xs = let e : 0 + m ≡ m = omega arith in rw e
drop-drop m (suc n) [] = drop-nil m ∙ sym (drop-nil (suc n + m))
drop-drop m (suc n) (x ∷ xs) =
    let e : suc n + m ≡ suc (n + m) = omega arith in rw e (drop-drop m n xs)

-- Three columns of eight, read at their offsets.
read_columns :
    (os ds vs : List ℕ) (bs : Bytes)
    → length os ≡ 8
    → length ds ≡ 8
    → unpack sequence_fmt bs ≡ ok (os ++ (ds ++ vs))
    → (unpack (replicate 8 byte) bs ≡ ok os)
      × (unpack (replicate 8 short) (drop 8 bs) ≡ ok ds)
      × (unpack (replicate 8 byte) (drop 24 bs) ≡ ok vs)
read_columns os ds vs bs ho hd e =
    let (first, rest) =
      unpack_split (replicate 8 byte) (replicate 8 short ++ replicate 8 byte) bs _ e in
    let rest' : unpack (replicate 8 short ++ replicate 8 byte) (drop 8 bs) ≡ ok (ds ++ vs) =
      rest ∙ ap (λ (l : List ℕ). ok l) (drop-append_eq 8 os (ds ++ vs) ho) in
    let (second, third) = unpack_split (replicate 8 short) (replicate 8 byte) (drop 8 bs) _ rest' in
    (
      first ∙ ap (λ (l : List ℕ). ok l) (take-append_eq 8 os (ds ++ vs) ho),
      second ∙ ap (λ (l : List ℕ). ok l) (take-append_eq 8 ds vs hd),
      ap (unpack (replicate 8 byte)) (sym (drop-drop 16 8 bs))
          ∙ third
          ∙ ap (λ (l : List ℕ). ok l) (drop-append_eq 8 ds vs hd),
    )

length-column :
    (f : SeqStep → ℕ) (d : ℕ) (steps : List SeqStep)
    → length steps ≤ 8
    → length (map f steps ++ replicate (8 - length steps) d) ≡ 8
length-column f d steps room = omega (
  arith,
  length-append (map f steps) (replicate (8 - length steps) d),
  length-map f steps,
  length-replicate (8 - length steps) d,
)

-- A packed sequence of one to eight steps, each with an output of its own, is parsed into the
-- program with just these steps.
pub parse_program-sequence :
    (s : SeqStep) (ss : List SeqStep) (bs : Bytes)
    → length (s ∷ ss) ≤ 8
    → IsUsed (s ∷ ss)
    → sequence_pack (s ∷ ss) ≡ ok bs
    → parse_program 9 bs
      ≡ some (sequence (record { steps = s ∷ ss; current = 0; next_change = none }))
unfolding sequence_pack parse_program
parse_program-sequence s ss bs room used e =
    let k = 8 - length (s ∷ ss) in
    let whole = rw (append-nil bs) at (unpack-pack sequence_fmt _ bs [] e) in
    let (outs, durs, vals) =
      read_columns (step_outputs (s ∷ ss) k) (step_durations (s ∷ ss) k) (step_values (s ∷ ss) k) bs
        (length-column (λ (t : SeqStep). t.0) 255 (s ∷ ss) room)
        (length-column (λ (t : SeqStep). t.1) 0 (s ∷ ss) room) whole in
    ground (arith, outs, durs, vals, sequence_steps-padded (s ∷ ss) k used)
