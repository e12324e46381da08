-- ===== src/Server/Scanner/Devices.antt =====
-- The devices that `DeviceScanner` of python/hmtl/server.py keeps.
use hmtl.Prelude.{
  ℕ, ◌≡◌, ◌≢◌, refl, ◌∙◌, List, [], ◌∷◌, ◌++◌, Bytes, Option, none, some, Option-cases, Bool, true,
  false, Bool-cases, ◌⊎◌, inl, inr, ◌==◌, Result, ok, err, arith,
}
use hmtl.InputBuffer.{InputItem}
use hmtl.Struct
use hmtl.Protocol.MsgHdr
use hmtl.Protocol.MsgHdr.{MsgHdr}
use hmtl.Protocol.Messages.{get_poll_msg}
use hmtl.Replies.{PollHdr, ReplyHdr, poll_fmt, poll_reply, dump_reply, msg_to_headers}
use hmtl.Replies.RoundTrip.{poll_fields, msg_to_headers-poll}
use hmtl.Serial.{Value, bytes}
use hmtl.Server.{HmtlServer, Ended, returned, failed, waits, send_data}
use hmtl.Server.Scanner.{
  HmtlModule, new_module, set_active, update, Devices, find, store, on_known, on_decoded,
  on_missing, on_answer, DeviceScanner, after_send, poll_address, scan,
}

find-store : (a : ℕ) (m : HmtlModule) (ds : Devices) → find a (store a m ds) ≡ some m
unfolding find store
find-store a m [] = ground arith
find-store a m ((b, old) ∷ ds) = elim (Bool-cases (b == a)) [
  | inl e ↦ rw e (rw e refl)
  | inr e ↦ rw e (rw e (find-store a m ds))
]

find-store_other :
    (a b : ℕ) (m : HmtlModule) (ds : Devices) → a ≢ b → find b (store a m ds) ≡ find b ds
unfolding find store
find-store_other a b m [] n = ground arith
find-store_other a b m ((c, old) ∷ ds) n = elim (Bool-cases (c == a)) [
  | inl e ↦ let other : (c == b) ≡ false = ground arith in rw e (rw other refl)
  | inr e ↦ elim (Bool-cases (c == b)) [
    | inl f ↦ rw e (rw f refl)
    | inr f ↦ rw e (rw f (find-store_other a b m ds n))
  ]
]

-- The same module, but for whether and when it was heard of.
abbrev pub IsSame : HmtlModule → HmtlModule → Type 0
IsSame m m' = m' ≡ record m { active = m'.active; last_active = m'.last_active }

-- What is known of an address is still known in `ds'`.
abbrev pub IsKept : Devices → Devices → Type 0
IsKept ds ds' =
    (a : ℕ) (m : HmtlModule)
    → find a ds ≡ some m
    → (m' : HmtlModule) × (find a ds' ≡ some m') × IsSame m m'

IsKept-refl : (ds : Devices) → IsKept ds ds
IsKept-refl ds a m e = (m, e, refl)

IsKept-trans : (ds es fs : Devices) → IsKept ds es → IsKept es fs → IsKept ds fs
IsKept-trans ds es fs f g a m e =
    let (m', e', s) = f a m e in let (m'', e'', s') = g a m' e' in (m'', e'', s' ∙ rw s refl)

store-IsKept :
    (address : ℕ) (m' : HmtlModule) (ds : Devices)
    → ((m : HmtlModule) → find address ds ≡ some m → IsSame m m')
    → IsKept ds (store address m' ds)
store-IsKept address m' ds same a m e = elim (Bool-cases (address == a)) [
  | inl q ↦
      let there : address ≡ a = ground arith in
      (m', rw (← there) (find-store address m' ds), same m (rw there e))
  | inr q ↦ let n : address ≢ a = ground arith in (m, find-store_other address a m' ds n ∙ e, refl)
]

set_active-IsSame : (b : Bool) (now : ℕ) (m : HmtlModule) → IsSame m (set_active b now m)
unfolding set_active
set_active-IsSame false now m = refl
set_active-IsSame true now m = refl

some-IsSame :
    (address now : ℕ) (b : Bool) (m : HmtlModule) (ds : Devices)
    → find address ds ≡ some m
    → (other : HmtlModule) → find address ds ≡ some other
    → IsSame other (set_active b now m)
some-IsSame address now b m ds e other f =
    let q : other ≡ m = cc in rw q (set_active-IsSame b now m)

on_known-IsKept :
    (now address : ℕ) (p : PollHdr) (known : Option HmtlModule) (ds : Devices)
    → find address ds ≡ known
    → IsKept ds (on_known now address p known ds)
unfolding on_known update
on_known-IsKept now address p none ds e = store-IsKept address _ ds (λ m f. cc)
on_known-IsKept now address p (some m) ds e =
    store-IsKept address _ ds (some-IsSame address now true m ds e)

on_missing-IsKept :
    (now address : ℕ) (known : Option HmtlModule) (ds : Devices)
    → find address ds ≡ known
    → IsKept ds (on_missing now address known ds)
unfolding on_missing
on_missing-IsKept now address none ds e = IsKept-refl ds
on_missing-IsKept now address (some m) ds e =
    store-IsKept address _ ds (some-IsSame address now false m ds e)

on_decoded-IsKept :
    (now address : ℕ) (parsed : Result (MsgHdr × ReplyHdr)) (ds : Devices)
    → IsKept ds (on_decoded now address parsed ds)
unfolding on_decoded
on_decoded-IsKept now address (err e) ds = IsKept-refl ds
on_decoded-IsKept now address (ok (h, poll_reply p)) ds =
    on_known-IsKept now address p (find address ds) ds refl
on_decoded-IsKept now address (ok (h, dump_reply c)) ds = IsKept-refl ds

on_answer-IsKept :
    (now address : ℕ) (out : Ended (Option InputItem)) (ds : Devices)
    → IsKept ds (on_answer now address out ds)
unfolding on_answer
on_answer-IsKept now address (returned (some i)) ds =
    on_decoded-IsKept now address (msg_to_headers i.bytes) ds
on_answer-IsKept now address (returned none) ds =
    on_missing-IsKept now address (find address ds) ds refl
on_answer-IsKept now address (failed e) ds = IsKept-refl ds
on_answer-IsKept now address waits ds = IsKept-refl ds

-- The message of a module's reply, that is a packed header of type POLL and a packed poll header, is
-- filed under the address that was polled, whichever address it carries: as an active module with
-- each of the reply's fields under its name, or else as the module that is known there, whose fields it
-- leaves as they are but for the activity. What is known of another address `b` stays as it is.
pub on_answer-poll :
    (now address b : ℕ) (i : InputItem) (h : MsgHdr) (p : PollHdr) (hb pb more : Bytes)
    (ds : Devices)
    → address ≢ b
    → MsgHdr.pack h ≡ ok hb
    → h.mtype ≡ 2
    → Struct.pack poll_fmt (poll_fields p) ≡ ok pb
    → i.bytes ≡ hb ++ (pb ++ more)
    → (find b (on_answer now address (returned (some i)) ds) ≡ find b ds)
      × (((find address ds ≡ none)
            × (find address (on_answer now address (returned (some i)) ds)
                ≡ some (record {
                  protocol_version = p.config.protocol_version;
                  hardware_version = p.config.hardware_version;
                  baud = p.config.baud;
                  num_outputs = p.config.num_outputs;
                  flags = p.config.flags;
                  device_id = p.config.device_id;
                  address = p.config.address;
                  object_type = p.object_type;
                  buffer_size = p.buffer_size;
                  msg_version = p.msg_version;
                  active = true;
                  last_active = now;
                })))
          ⊎ ((m : HmtlModule) × (find address ds ≡ some m)
              × (find address (on_answer now address (returned (some i)) ds)
                  ≡ some (record m { active = true; last_active = now }))))
unfolding on_answer on_decoded on_known update set_active new_module
on_answer-poll now address b i h p hb pb more ds other packed is_poll packed' e =
    let parsed : msg_to_headers i.bytes ≡ ok (h, poll_reply p) =
      rw e (msg_to_headers-poll h p hb pb more packed is_poll packed') in
    elim (Option-cases (find address ds)) [
      | inl n ↦
          rw (parsed, n)
            (
              find-store_other address b (new_module now p) ds other,
              inl (refl, find-store address (new_module now p) ds),
            )
      | inr (m, n) ↦
          rw (parsed, n)
            (find-store_other address b _ ds other, inr (m, refl, find-store address _ ds))
    ]

module _ (write transmit : Value → Result (Unit {0})) (utf8 : Bytes → Bool)
    (sent_at asked_at handled_at : ℕ → ℕ) where
  after_send-IsKept :
      (address : ℕ) (ds : Devices) (out : Ended (Unit {0}) × HmtlServer)
      → IsKept ds
          (after_send write transmit utf8 sent_at asked_at handled_at address ds out).1.devices
  unfolding after_send
  after_send-IsKept address ds (failed e, s) = IsKept-refl ds
  after_send-IsKept address ds (waits, s) = IsKept-refl ds
  after_send-IsKept address ds (returned done, s) =
      on_answer-IsKept (handled_at address) address _ ds

  poll_address-IsKept :
      (address : ℕ) (msg : Result Bytes) (d : DeviceScanner)
      → IsKept d.devices
          (poll_address write transmit utf8 sent_at asked_at handled_at address msg d).1.devices
  unfolding poll_address
  poll_address-IsKept address (err e) d = IsKept-refl d.devices
  poll_address-IsKept address (ok msg) d =
      after_send-IsKept address d.devices
        (send_data write transmit utf8 (sent_at address) (bytes msg) d.server)

  -- A pass over any addresses, whatever comes in and whatever is raised in it, keeps every module that
  -- is known, under its address and with its description; only its activity changes.
  pub scan-IsKept :
      (list : List ℕ) (d : DeviceScanner)
      → IsKept d.devices (scan write transmit utf8 sent_at asked_at handled_at list d).devices
  unfolding scan
  scan-IsKept [] d = IsKept-refl d.devices
  scan-IsKept (address ∷ list) d =
      let out : Bool × DeviceScanner =
        poll_address write transmit utf8 sent_at asked_at handled_at address (get_poll_msg address)
          d in
      let this : IsKept d.devices out.1.devices =
        poll_address-IsKept address (get_poll_msg address) d in
      elim (Bool-cases out.0) [
        | inl g ↦ rw g (IsKept-trans d.devices out.1.devices _ this (scan-IsKept list out.1))
        | inr g ↦ rw g this
      ]
