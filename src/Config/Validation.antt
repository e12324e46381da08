-- ===== src/Config/Validation.antt =====
-- What validation is for: the structs of a validated configuration are built without a missing
-- key or position.
use hmtl.Prelude.{
  ℕ, ◌≡◌, ◌∙◌, sym, refl, List, [], ◌∷◌, All, Option, none, some, true, ◌&&◌, Result, ok, ◌>>=◌,
  Bool-cases, inl, inr,
}
use hmtl.Struct.{Code, pack}
use hmtl.Protocol.Constants.{
  output_hdr_fmt, header_fmt, config_types, ConfigType, header, value, rgb, program, pixels, mpr121,
  rs485, xbee, address, device_id, baud,
}
use hmtl.Protocol.Messages.{three}
use hmtl.Config.Words.{short_word}
use hmtl.Config.Json.{
  OutputDict, TypeName, known, unknown, check_required, validate_known, validate_type,
  validate_output, HeaderDict, ConfigDict, validate_header, default_flags, validate_outputs,
  post_process_all, validate_parts, validate_config, lookup, combine, post_process_known,
  post_process_type, post_process_config,
}
use hmtl.Config.Structs.{
  get_config_start, output_struct, struct_of_type, get_output_struct, get_header_struct,
}
use hmtl.Config.Safe.{
  IsSafe, bind-IsSafe, pack-IsSafe, lookup-IsSafe, three-IsSafe, short_word-IsSafe, and_true,
  combine_total, check_some,
}

-- The three pins or numbers of an output that has only ints.
pack3-IsSafe :
    (fmt : List Code) (a b c : Option ℕ)
    → check_required a ≡ true
    → check_required b ≡ true
    → check_required c ≡ true
    → IsSafe (do x ← lookup a; y ← lookup b; z ← lookup c; pack fmt (x ∷ y ∷ z ∷ []))
pack3-IsSafe fmt a b c ha hb hc = bind-IsSafe (lookup a) _ (lookup-IsSafe a ha) (λ x.
    bind-IsSafe (lookup b) _ (lookup-IsSafe b hb)
      (λ y. bind-IsSafe (lookup c) _ (lookup-IsSafe c hc) (λ z. pack-IsSafe fmt _)))

-- A struct of two pins.
pack2-IsSafe :
    (fmt : List Code) (a b : Option ℕ)
    → check_required a ≡ true
    → check_required b ≡ true
    → IsSafe (do x ← lookup a; y ← lookup b; pack fmt (x ∷ y ∷ []))
pack2-IsSafe fmt a b ha hb =
    bind-IsSafe (lookup a) _ (lookup-IsSafe a ha)
      (λ x. bind-IsSafe (lookup b) _ (lookup-IsSafe b hb) (λ y. pack-IsSafe fmt _))

-- What validation promises for a dict of type `t`.
abbrev Ready : ConfigType → OutputDict → Type 0
Ready t d =
    (d' : OutputDict) × (post_process_known t d ≡ ok d')
    × (d'.type ≡ d.type)
    × IsSafe (output_struct t d')

value-Ready : (d : OutputDict) → validate_known value d ≡ true → Ready value d
unfolding validate_known output_struct post_process_known
value-Ready d h =
    let (hp, hv) = and_true _ _ h in
    (
      d,
      refl,
      refl,
      bind-IsSafe (lookup d.pin) _ (lookup-IsSafe d.pin hp) (λ p.
          bind-IsSafe (lookup d.value) _ (lookup-IsSafe d.value hv)
            (λ v. bind-IsSafe (short_word v) _ (short_word-IsSafe v) (λ w. pack-IsSafe _ _))),
    )

rgb-Ready : (d : OutputDict) → validate_known rgb d ≡ true → Ready rgb d
unfolding validate_known output_struct post_process_known
rgb-Ready d h =
    let (hp, hv) = and_true _ _ h in
    (
      d,
      refl,
      refl,
      bind-IsSafe (lookup d.pins >>= three) _ (three-IsSafe d.pins hp) (λ p.
          bind-IsSafe (lookup d.values >>= three) _ (three-IsSafe d.values hv)
            (λ v. pack-IsSafe _ _)),
    )

pixels-Ready : (d : OutputDict) → validate_known pixels d ≡ true → Ready pixels d
unfolding validate_known output_struct post_process_known
pixels-Ready d h =
    let (hc, h1) = and_true _ _ h in
    let (hd, h2) = and_true _ _ h1 in
    let (hn, ht) = and_true _ _ h2 in
    (
      d,
      refl,
      refl,
      bind-IsSafe (lookup d.clockpin) _ (lookup-IsSafe d.clockpin hc) (λ c.
          bind-IsSafe (lookup d.datapin) _ (lookup-IsSafe d.datapin hd) (λ p.
            bind-IsSafe (lookup d.numpixels) _ (lookup-IsSafe d.numpixels hn) (λ n.
              bind-IsSafe (lookup d.rgbtype) _ (lookup-IsSafe d.rgbtype ht)
                (λ t. pack-IsSafe _ _)))),
    )

lookup-combine :
    (trigger release : Option (List ℕ)) (ts rs xs : List ℕ) (f : List ℕ → OutputDict)
    → trigger ≡ some ts
    → release ≡ some rs
    → combine ts rs ≡ ok xs
    → (do ts' ← lookup trigger; rs' ← lookup release; found ← combine ts' rs'; ok (f found))
      ≡ ok (f xs)
lookup-combine trigger release ts rs xs f et er ex = rw (et, er, ex) refl

mpr121-Ready : (d : OutputDict) → validate_known mpr121 d ≡ true → Ready mpr121 d
unfolding validate_known output_struct post_process_known
mpr121-Ready d h =
    let (hi, h1) = and_true _ _ h in
    let (hu, h2) = and_true _ _ h1 in
    let (ht, h3) = and_true _ _ h2 in
    let (hr, _) = and_true _ _ h3 in
    let (ts, et, nt) = check_some d.trigger 12 ht in
    let (rs, er, nr) = check_some d.release 12 hr in
    let (xs, ex) = combine_total ts rs (nt ∙ sym nr) in
    (
      record d { threshold = some xs },
      lookup-combine d.trigger d.release ts rs xs
          (λ (found : List ℕ). record d { threshold = some found }) et er ex,
      refl,
      bind-IsSafe (lookup d.irqpin) _ (lookup-IsSafe d.irqpin hi) (λ i.
          bind-IsSafe (lookup d.useinterrupt) _ (lookup-IsSafe d.useinterrupt hu)
            (λ u. pack-IsSafe _ _)),
    )

ready : (t : ConfigType) (d : OutputDict) → validate_known t d ≡ true → Ready t d
unfolding validate_known output_struct post_process_known
ready value d h = value-Ready d h
ready rgb d h = rgb-Ready d h
ready pixels d h = pixels-Ready d h
ready mpr121 d h = mpr121-Ready d h
ready rs485 d h =
    let (hr, h1) = and_true _ _ h in
    let (hx, he) = and_true _ _ h1 in
    (d, refl, refl, pack3-IsSafe _ d.recvpin d.xmitpin d.enablepin hr hx he)
ready xbee d h =
    let (hr, hx) = and_true _ _ h in (d, refl, refl, pack2-IsSafe _ d.recvpin d.xmitpin hr hx)
ready header d h = (d, refl, refl, tt)
ready program d h = (d, refl, refl, tt)
ready address d h = (d, refl, refl, tt)
ready device_id d h = (d, refl, refl, tt)
ready baud d h = (d, refl, refl, tt)

ready_type :
    (ty : Option TypeName) (d : OutputDict)
    → validate_type ty d ≡ true
    → (d' : OutputDict) × (post_process_type ty d ≡ ok d')
      × (d'.type ≡ d.type)
      × IsSafe (struct_of_type ty d')
unfolding validate_type post_process_type struct_of_type get_config_start
ready_type none d h = cc
ready_type (some unknown) d h = cc
ready_type (some (known t)) d h =
    let (d', e, same, safe) = ready t d h in
    (
      d',
      e,
      same,
      bind-IsSafe (get_config_start (known t)) _ (pack-IsSafe _ _) (λ start.
          bind-IsSafe (pack output_hdr_fmt (config_types t ∷ 0 ∷ [])) _ (pack-IsSafe _ _)
            (λ hdr. bind-IsSafe (output_struct t d') _ safe (λ out. tt))),
    )

-- A validated output is post-processed without an exception, and its struct is built or refused
-- for a value out of range or a type that is no output's, never for a missing key or position.
pub get_output_struct-validate_output :
    (d : OutputDict)
    → validate_output d ≡ true
    → (d' : OutputDict) × (post_process_config d ≡ ok d') × IsSafe (get_output_struct d')
unfolding validate_output post_process_config get_output_struct
get_output_struct-validate_output d h =
    let (d', e, same, safe) = ready_type d.type d h in (d', e, rw same safe)

-- The structs of all outputs are safe.
abbrev pub AllSafe : List OutputDict → Type 0
AllSafe ds = All (λ (d : OutputDict). IsSafe (get_output_struct d)) ds

post_process_all-AllSafe :
    (ds : List OutputDict)
    → validate_outputs ds ≡ true
    → (ds' : List OutputDict) × (post_process_all ds ≡ ok ds') × AllSafe ds'
unfolding post_process_all
post_process_all-AllSafe [] h = ([], refl, tt)
post_process_all-AllSafe (d ∷ ds) h =
    let (hd, hs) = and_true _ _ h in
    let (d', e, safe) = get_output_struct-validate_output d hd in
    let (ds', es, all) = post_process_all-AllSafe ds hs in (d' ∷ ds', rw (e, es) refl, (safe, all))

default_flags_found : (f : Option ℕ) → check_required (default_flags f) ≡ true
default_flags_found none = refl
default_flags_found (some a) = refl

get_header_struct-IsSafe :
    (h : HeaderDict) (ds : List OutputDict)
    → validate_header h ≡ true
    → IsSafe (
        get_header_struct (record {
          header = some (record h { flags = default_flags h.flags });
          outputs = some ds;
        }))
unfolding get_header_struct get_config_start
get_header_struct-IsSafe h ds ok_header =
    let (hp, h1) = and_true _ _ ok_header in
    let (hh, h2) = and_true _ _ h1 in
    let (ha, h3) = and_true _ _ h2 in
    let (hd, hb) = and_true _ _ h3 in
    bind-IsSafe (get_config_start (known header)) _ (pack-IsSafe _ _) (λ start.
      bind-IsSafe (lookup h.protocol_version) _ (lookup-IsSafe h.protocol_version hp) (λ p.
        bind-IsSafe (lookup h.hardware_version) _ (lookup-IsSafe h.hardware_version hh) (λ v.
          bind-IsSafe (lookup h.baud) _ (lookup-IsSafe h.baud hb) (λ b.
            bind-IsSafe (lookup (default_flags h.flags)) _
              (lookup-IsSafe (default_flags h.flags) (default_flags_found h.flags))
              (λ f. bind-IsSafe (lookup h.device_id) _ (lookup-IsSafe h.device_id hd) (λ i.
                bind-IsSafe (lookup h.address) _ (lookup-IsSafe h.address ha)
                  (λ a. bind-IsSafe (pack header_fmt _) _ (pack-IsSafe _ _) (λ packed. tt))))))))

-- What `validate_config` comes to: False, or a dict whose structs are safe.
pub data Verdict (r : Result (Option ConfigDict)) : Type 0 where
  refused : r ≡ ok none → Verdict r
  accepted :
      (c : ConfigDict) (ds : List OutputDict)
      → r ≡ ok (some c)
      → c.outputs ≡ some ds
      → IsSafe (get_header_struct c)
      → AllSafe ds
      → Verdict r

validate_parts-Verdict :
    (h : Option HeaderDict) (os : Option (List OutputDict)) → Verdict (validate_parts h os)
unfolding validate_parts
validate_parts-Verdict none os = refused refl
validate_parts-Verdict (some h) none = refused refl
validate_parts-Verdict (some h) (some ds) =
    elim (Bool-cases (validate_header h && validate_outputs ds)) [
      | inr bad ↦ refused (rw bad refl)
      | inl good ↦
          (let (hh, hs) = and_true (validate_header h) (validate_outputs ds) good in
            let (ds', e, all) = post_process_all-AllSafe ds hs in
            accepted _ ds' (rw (good, e) refl) refl (get_header_struct-IsSafe h ds' hh) all)
    ]

-- On a configuration whose values have the types of the records, ints and lists of ints under the
-- keys, `validate_config` raises nothing. Where it returns True, the structs of the header and of
-- every output are built, or refused for a value out of range or a type that is no output's: no key
-- and no position is missing.
pub validate_config-Verdict : (c : ConfigDict) → Verdict (validate_config c)
unfolding validate_config
validate_config-Verdict c = validate_parts-Verdict c.header c.outputs
