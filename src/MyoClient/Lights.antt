-- ===== src/MyoClient/Lights.antt =====
-- From a pose to the outputs of a module: python/myo_client.py, python/hmtl/client.py,
-- python/hmtl/server.py, python/hmtl/HMTLSerial.py, python/hmtl/HMTLprotocol.py and
-- python/hmtl/emulator/emulator.py, one behind the other.
use hmtl.Prelude.{
  ℕ, ◌≡◌, inl, inr, refl, ap, ◌∙◌, List, [], ◌∷◌, map, append-nil, Bytes, All, none, Bool, Result,
  ok, >>=-eq-ok,
}
use hmtl.Protocol.Frame.{Request, build}
use hmtl.Serial.{Value, bytes}
use hmtl.Server.{HmtlServer, Ended, returned}
use hmtl.Emulator.Device.{Emulator}
use hmtl.Emulator.Control.{client_handler, on_handled}
use hmtl.Emulator.Effects.{effect, effects}
use hmtl.Emulator.Effects.Answering.{IsLight, handle_bytes-light}
use hmtl.MyoClient.{
  Pose, double_tap, rest, wave_in, wave_out, fist, fingers_spread, other, pose_requests, build_all,
  on_pose,
}
use hmtl.MyoClient.Poses.{Writes, on_pose-Writes}

-- The messages of a list of requests, taken one after the other.
client_handler-effects :
    (qs : List Request) (ms : List Bytes) (em : Emulator)
    → All IsLight qs
    → build_all qs ≡ ok ms
    → client_handler (map bytes ms) em ≡ (none, effects qs em)
unfolding build_all client_handler on_handled
client_handler-effects [] ms em h e = let none_built : ms ≡ [] = cc in rw none_built refl
client_handler-effects (q ∷ qs) ms em h e =
    let (m, built, e') = >>=-eq-ok (build q) _ e in
    let (more, others, e'') = >>=-eq-ok (build_all qs) _ e' in
    let split : ms ≡ m ∷ more = cc in
    rw (split, handle_bytes-light q m em h.0 built)
      (client_handler-effects qs more (effect q em) h.1 others)

pose_requests-IsLight : (address : ℕ) (pose : Pose) → All IsLight (pose_requests address pose)
unfolding pose_requests
pose_requests-IsLight address double_tap = (tt, tt)
pose_requests-IsLight address rest = (tt, (tt, (tt, tt)))
pose_requests-IsLight address wave_in = (tt, tt)
pose_requests-IsLight address wave_out = (tt, tt)
pose_requests-IsLight address fist = (tt, (tt, tt))
pose_requests-IsLight address fingers_spread = (tt, (tt, tt))
pose_requests-IsLight address other = tt

module _ (write transmit : Value → Result (Unit {0})) (utf8 : Bytes → Bool) (clock : ℕ → ℕ)
    (accepts : (v : Value) → write v ≡ ok tt) where
  written_all :
      (ms : List Bytes) (s : HmtlServer) (out : Ended (Unit {0}) × HmtlServer)
      → s.ser.written ≡ []
      → Writes ms s out
      → out.0 ≡ returned tt
      → out.1.ser.written ≡ map bytes ms
  written_all ms s out fresh (sent, unsent, parts, written, all) r =
      let whole : ms ≡ sent = parts ∙ rw (all r) (append-nil sent) in
      written ∙ rw (fresh, whole) refl

  -- Where `on_pose` returns, a module that takes what was written to a fresh port, in that order,
  -- raises nothing and does what the pose's requests ask one after the other: the outputs that each
  -- names get its colour or the low 13 bits of its value if the module is the one addressed, or all
  -- are, and nothing else changes. The port takes what is written.
  pub on_pose-effects :
      (k address : ℕ) (pose : Pose) (s : HmtlServer) (em : Emulator)
      → s.ser.written ≡ []
      → (on_pose write transmit utf8 clock k address pose s).0 ≡ returned tt
      → client_handler (on_pose write transmit utf8 clock k address pose s).1.ser.written em
        ≡ (none, effects (pose_requests address pose) em)
  on_pose-effects k address pose s em fresh r =
      let out = on_pose write transmit utf8 clock k address pose s in
      elim (on_pose-Writes write transmit utf8 clock accepts k address pose s) [
        | inl (ms, built, w) ↦
            ap (λ (l : List Value). client_handler l em) (written_all ms s out fresh w r)
            ∙ client_handler-effects (pose_requests address pose) ms em
                (pose_requests-IsLight address pose) built
        | inr (x, refused, e) ↦ cc
      ]
