-- ===== src/Struct/RoundTrip.antt =====
-- `struct.pack` and `struct.unpack` together.
use hmtl.Prelude.{
  ℕ, suc, ◌+◌, ◌<◌, ◌≤◌, ◌≡◌, refl, List, [], ◌∷◌, ◌++◌, Bytes, IsByte, All, length, take, drop,
  append-nil, Result, ok, >>=-eq-ok, arith, ◌*◌, ◌/◌, ◌%◌,
}
use hmtl.Struct.{Code, byte, short, long, pad, pack, pack_args, unpack, calcsize}

-- The arguments are as many as the format's fields and each fits its field.
abbrev pub Fits : List Code → List ℕ → Type 0
Fits [] [] = Unit {0}
Fits [] (v ∷ vs) = ⊥
Fits (pad ∷ cs) vs = Fits cs vs
Fits (byte ∷ cs) [] = ⊥
Fits (byte ∷ cs) (v ∷ vs) = (v < 256) × Fits cs vs
Fits (short ∷ cs) [] = ⊥
Fits (short ∷ cs) (v ∷ vs) = (v < 0x1_0000) × Fits cs vs
Fits (long ∷ cs) [] = ⊥
Fits (long ∷ cs) (v ∷ vs) = (v < 0x1_0000_0000) × Fits cs vs

-- Packing succeeds if the arguments fit.
pub pack-Fits : (cs : List Code) (vs : List ℕ) → Fits cs vs → (bs : Bytes) × (pack cs vs ≡ ok bs)
unfolding pack
pack-Fits [] [] h = ([], refl)
pack-Fits [] (v ∷ vs) h = absurd h
pack-Fits (pad ∷ cs) vs h = let (bs, e) = pack-Fits cs vs h in (0 ∷ bs, ground arith)
pack-Fits (byte ∷ cs) [] h = absurd h
pack-Fits (byte ∷ cs) (v ∷ vs) h = let (bs, e) = pack-Fits cs vs h.1 in (v ∷ bs, ground arith)
pack-Fits (short ∷ cs) [] h = absurd h
pack-Fits (short ∷ cs) (v ∷ vs) h =
    let (bs, e) = pack-Fits cs vs h.1 in ((v % 256) ∷ (v / 256) ∷ bs, ground arith)
pack-Fits (long ∷ cs) [] h = absurd h
pack-Fits (long ∷ cs) (v ∷ vs) h =
    let (bs, e) = pack-Fits cs vs h.1 in
    ((v % 256) ∷ (v / 256 % 256) ∷ (v / 0x1_0000 % 256) ∷ (v / 0x100_0000) ∷ bs, ground arith)

-- What was packed fits.
pub Fits-pack : (cs : List Code) (vs : List ℕ) (bs : Bytes) → pack cs vs ≡ ok bs → Fits cs vs
unfolding pack
Fits-pack [] [] bs e = tt
Fits-pack [] (v ∷ vs) bs e = cc
Fits-pack (pad ∷ cs) vs bs e =
    let (rest, r, _) = >>=-eq-ok (pack cs vs) _ e in Fits-pack cs vs rest r
Fits-pack (byte ∷ cs) [] bs e = cc
Fits-pack (byte ∷ cs) (v ∷ vs) bs e =
    let (rest, r, s) = >>=-eq-ok (pack cs vs) _ e in (ground arith, Fits-pack cs vs rest r)
Fits-pack (short ∷ cs) [] bs e = cc
Fits-pack (short ∷ cs) (v ∷ vs) bs e =
    let (rest, r, s) = >>=-eq-ok (pack cs vs) _ e in (ground arith, Fits-pack cs vs rest r)
Fits-pack (long ∷ cs) [] bs e = cc
Fits-pack (long ∷ cs) (v ∷ vs) bs e =
    let (rest, r, s) = >>=-eq-ok (pack cs vs) _ e in (ground arith, Fits-pack cs vs rest r)

-- Packed data has the format's size, and consists of bytes.
pub pack_shape :
    (cs : List Code) (vs : List ℕ) (bs : Bytes)
    → pack cs vs ≡ ok bs
    → (length bs ≡ calcsize cs) × All IsByte bs
unfolding pack
pack_shape [] [] bs e = ground arith
pack_shape [] (v ∷ vs) bs e = cc
pack_shape (pad ∷ cs) vs bs e =
    let (rest, r, s) = >>=-eq-ok (pack cs vs) _ e in ground (arith, pack_shape cs vs rest r)
pack_shape (byte ∷ cs) [] bs e = cc
pack_shape (byte ∷ cs) (v ∷ vs) bs e =
    let (rest, r, s) = >>=-eq-ok (pack cs vs) _ e in ground (arith, pack_shape cs vs rest r)
pack_shape (short ∷ cs) [] bs e = cc
pack_shape (short ∷ cs) (v ∷ vs) bs e =
    let (rest, r, s) = >>=-eq-ok (pack cs vs) _ e in ground (arith, pack_shape cs vs rest r)
pack_shape (long ∷ cs) [] bs e = cc
pack_shape (long ∷ cs) (v ∷ vs) bs e =
    let (rest, r, s) = >>=-eq-ok (pack cs vs) _ e in ground (arith, pack_shape cs vs rest r)

-- Unpacking what was packed gives the arguments back, whatever follows.
pub unpack-pack :
    (cs : List Code) (vs : List ℕ) (bs more : Bytes)
    → pack cs vs ≡ ok bs
    → unpack cs (bs ++ more) ≡ ok vs
unfolding pack unpack
unpack-pack [] [] bs more e = refl
unpack-pack [] (v ∷ vs) bs more e = cc
unpack-pack (pad ∷ cs) vs bs more e =
    let (rest, r, s) = >>=-eq-ok (pack cs vs) _ e in ground (arith, unpack-pack cs vs rest more r)
unpack-pack (byte ∷ cs) [] bs more e = cc
unpack-pack (byte ∷ cs) (v ∷ vs) bs more e =
    let (rest, r, s) = >>=-eq-ok (pack cs vs) _ e in ground (arith, unpack-pack cs vs rest more r)
unpack-pack (short ∷ cs) [] bs more e = cc
unpack-pack (short ∷ cs) (v ∷ vs) bs more e =
    let (rest, r, s) = >>=-eq-ok (pack cs vs) _ e in ground (arith, unpack-pack cs vs rest more r)
unpack-pack (long ∷ cs) [] bs more e = cc
unpack-pack (long ∷ cs) (v ∷ vs) bs more e =
    let (rest, r, s) = >>=-eq-ok (pack cs vs) _ e in ground (arith, unpack-pack cs vs rest more r)

-- Unpacking succeeds on every input that is long enough, and fails on every shorter one.
pub unpack_total :
    (cs : List Code) (bs : Bytes) → calcsize cs ≤ length bs → (vs : List ℕ) × (unpack cs bs ≡ ok vs)
unfolding unpack
unpack_total [] bs h = ([], refl)
unpack_total (pad ∷ cs) [] h = absurd (omega arith)
unpack_total (pad ∷ cs) (b ∷ bs) h = unpack_total cs bs (omega arith)
unpack_total (byte ∷ cs) [] h = absurd (omega arith)
unpack_total (byte ∷ cs) (b ∷ bs) h =
    let (vs, e) = unpack_total cs bs (omega arith) in (b ∷ vs, ground arith)
unpack_total (short ∷ cs) [] h = absurd (omega arith)
unpack_total (short ∷ cs) (b ∷ []) h = absurd (omega arith)
unpack_total (short ∷ cs) (b ∷ c ∷ bs) h =
    let (vs, e) = unpack_total cs bs (omega arith) in ((b + 256 * c) ∷ vs, ground arith)
unpack_total (long ∷ cs) [] h = absurd (omega arith)
unpack_total (long ∷ cs) (b ∷ []) h = absurd (omega arith)
unpack_total (long ∷ cs) (b ∷ c ∷ []) h = absurd (omega arith)
unpack_total (long ∷ cs) (b ∷ c ∷ d ∷ []) h = absurd (omega arith)
unpack_total (long ∷ cs) (b ∷ c ∷ d ∷ f ∷ bs) h =
    let (vs, e) = unpack_total cs bs (omega arith) in
    ((b + 256 * c + 0x1_0000 * d + 0x100_0000 * f) ∷ vs, ground arith)

pub pack_args-eq-ok :
    (cs : List Code) (args : Result (List ℕ)) (bs : Bytes)
    → pack_args cs args ≡ ok bs
    → (vs : List ℕ) × (args ≡ ok vs) × (pack cs vs ≡ ok bs)
unfolding pack_args
pack_args-eq-ok cs args bs e = >>=-eq-ok args (pack cs) e

pub length-pack_args :
    (cs : List Code) (args : Result (List ℕ)) (bs : Bytes)
    → pack_args cs args ≡ ok bs
    → length bs ≡ calcsize cs
length-pack_args cs args bs e =
    let (vs, _, p) = pack_args-eq-ok cs args bs e in (pack_shape cs vs bs p).0

-- How many arguments a format takes.
abbrev pub arity : List Code → ℕ
arity [] = 0
arity (pad ∷ cs) = arity cs
arity (byte ∷ cs) = suc (arity cs)
arity (short ∷ cs) = suc (arity cs)
arity (long ∷ cs) = suc (arity cs)

-- What a longer format reads, its parts read at their offsets.
pub unpack_split :
    (cs ds : List Code) (bs : Bytes) (vs : List ℕ)
    → unpack (cs ++ ds) bs ≡ ok vs
    → (unpack cs bs ≡ ok (take (arity cs) vs))
      × (unpack ds (drop (calcsize cs) bs) ≡ ok (drop (arity cs) vs))
unfolding unpack
unpack_split [] ds bs vs e = (refl, e)
unpack_split (pad ∷ cs) ds [] vs e = cc
unpack_split (pad ∷ cs) ds (b ∷ bs) vs e = ground (arith, unpack_split cs ds bs vs e)
unpack_split (byte ∷ cs) ds [] vs e = cc
unpack_split (byte ∷ cs) ds (b ∷ bs) vs e =
    let (ws, r, same) = >>=-eq-ok (unpack (cs ++ ds) bs) _ e in
    ground (arith, unpack_split cs ds bs ws r)
unpack_split (short ∷ cs) ds [] vs e = cc
unpack_split (short ∷ cs) ds (b ∷ []) vs e = cc
unpack_split (short ∷ cs) ds (b ∷ c ∷ bs) vs e =
    let (ws, r, same) = >>=-eq-ok (unpack (cs ++ ds) bs) _ e in
    ground (arith, unpack_split cs ds bs ws r)
unpack_split (long ∷ cs) ds [] vs e = cc
unpack_split (long ∷ cs) ds (b ∷ []) vs e = cc
unpack_split (long ∷ cs) ds (b ∷ c ∷ []) vs e = cc
unpack_split (long ∷ cs) ds (b ∷ c ∷ d ∷ []) vs e = cc
unpack_split (long ∷ cs) ds (b ∷ c ∷ d ∷ f ∷ bs) vs e =
    let (ws, r, same) = >>=-eq-ok (unpack (cs ++ ds) bs) _ e in
    ground (arith, unpack_split cs ds bs ws r)

-- Any part of what was packed is read back at its offset.
pub unpack-pack_args :
    (cs ds : List Code) (args : Result (List ℕ)) (vs : List ℕ) (bs : Bytes)
    → args ≡ ok vs
    → pack_args (cs ++ ds) args ≡ ok bs
    → (unpack cs bs ≡ ok (take (arity cs) vs))
      × (unpack ds (drop (calcsize cs) bs) ≡ ok (drop (arity cs) vs))
unpack-pack_args cs ds args vs bs a e =
    let (ws, r, p) = pack_args-eq-ok (cs ++ ds) args bs e in
    let same : ws ≡ vs = cc in
    let whole : unpack (cs ++ ds) bs ≡ ok vs =
      rw (← same) (rw (append-nil bs) at (unpack-pack (cs ++ ds) ws bs [] p)) in
    unpack_split cs ds bs vs whole
