-- ===== src/MyoClient/Acked.antt =====
-- A pose where the module acknowledges every message: python/myo_client.py, python/hmtl/client.py
-- and python/hmtl/server.py go through all of them.
use hmtl.Prelude.{
  ℕ, suc, ◌+◌, ◌%◌, ◌/◌, ◌<◌, ◌≡◌, refl, sym, ap, ◌∙◌, List, [], ◌∷◌, ◌++◌, Bytes, All, length,
  none, some, Bool, false, Result, ok, arith,
}
use hmtl.InputBuffer.{InputItem}
use hmtl.Protocol.Frame.{Request, set_value, set_rgb, build, IsFrame}
use hmtl.Protocol.Layout.{wire, get_value_msg_lem, get_rgb_msg_lem}
use hmtl.Serial.{Value, bytes, Poll, config_ack}
use hmtl.Server.{HmtlServer, returned}
use hmtl.Client.{send_and_ack, on_ack, ack_after, ack_loop, get_ack}
use hmtl.Client.Exchange.{acked, listen_round-acked}
use hmtl.Emulator.Device.{Emulator}
use hmtl.Emulator.Control.{client_handler}
use hmtl.MyoClient.{
  Pose, double_tap, rest, wave_in, wave_out, fist, fingers_spread, other, pose_requests, build_all,
  after_ack, send_all, send_built, on_pose,
}
use hmtl.MyoClient.Poses.{AllFrames-build_all}
use hmtl.Emulator.Effects.{effects}
use hmtl.MyoClient.Lights.{on_pose-effects}

-- A poll that returns the module's acknowledgement.
abbrev pub IsAck : Poll → Type 0
IsAck p = (i : InputItem) × (p.got ≡ some i) × (i.bytes ≡ config_ack)

abbrev IsBuilt : Request → Type 0
IsBuilt q = (m : Bytes) × (build q ≡ ok m)

set_rgb-IsBuilt :
    (address r g b : ℕ)
    → address < 0x1_0000
    → r < 256
    → g < 256
    → b < 256
    → IsBuilt (set_rgb address 1 r g b)
unfolding build
set_rgb-IsBuilt address r g b h hr hg hb =
    (wire 13 1 0 address (2 ∷ 1 ∷ r ∷ g ∷ b ∷ []), get_rgb_msg_lem address 1 r g b ∙ ground arith)

set_value-IsBuilt : (i v : ℕ) → i < 256 → v < 0x1_0000 → IsBuilt (set_value 69 i v)
unfolding build
set_value-IsBuilt i v hi hv =
    (wire 12 1 0 69 (1 ∷ i ∷ (v % 256) ∷ (v / 256) ∷ []), get_value_msg_lem 69 i v ∙ ground arith)

pose_requests-IsBuilt :
    (address : ℕ) (pose : Pose) → address < 0x1_0000 → All IsBuilt (pose_requests address pose)
unfolding pose_requests
pose_requests-IsBuilt address double_tap h =
    (set_rgb-IsBuilt address 255 0 255 h (omega arith) (omega arith) (omega arith), tt)
pose_requests-IsBuilt address rest h = (
  set_rgb-IsBuilt address 0 0 0 h (omega arith) (omega arith) (omega arith),
  (
    set_value-IsBuilt 0 0 (omega arith) (omega arith),
    (set_value-IsBuilt 1 0 (omega arith) (omega arith), tt),
  ),
)
pose_requests-IsBuilt address wave_in h =
    (set_rgb-IsBuilt address 0 255 0 h (omega arith) (omega arith) (omega arith), tt)
pose_requests-IsBuilt address wave_out h =
    (set_rgb-IsBuilt address 0 0 255 h (omega arith) (omega arith) (omega arith), tt)
pose_requests-IsBuilt address fist h = (
  set_rgb-IsBuilt address 255 0 0 h (omega arith) (omega arith) (omega arith),
  (set_value-IsBuilt 1 255 (omega arith) (omega arith), tt),
)
pose_requests-IsBuilt address fingers_spread h = (
  set_rgb-IsBuilt address 255 255 255 h (omega arith) (omega arith) (omega arith),
  (set_value-IsBuilt 0 128 (omega arith) (omega arith), tt),
)
pose_requests-IsBuilt address other h = tt

build_all-IsBuilt :
    (qs : List Request)
    → All IsBuilt qs
    → (ms : List Bytes) × (build_all qs ≡ ok ms) × (length ms ≡ length qs)
unfolding build_all
build_all-IsBuilt [] h = ([], refl, refl)
build_all-IsBuilt (q ∷ qs) h =
    let (m, e) = h.0 in
    let (ms, f, n) = build_all-IsBuilt qs h.1 in (m ∷ ms, rw e (rw f refl), ap suc n)

module _ (write transmit : Value → Result (Unit {0})) (utf8 : Bytes → Bool) (clock : ℕ → ℕ)
    (accepts : (v : Value) → write v ≡ ok tt) (delivers : (v : Value) → transmit v ≡ ok tt) where
  send_and_ack-acked :
      (k : ℕ) (m : Bytes) (f : IsFrame m) (a : Poll) (left : List Poll) (s : HmtlServer)
      → s.ser.incoming ≡ a ∷ left
      → IsAck a
      → s.sent ≡ []
      → send_and_ack write transmit utf8 clock k (bytes m) false s
        ≡ (some (returned none), acked [] (bytes m) a left s)
  unfolding send_and_ack ack_after ack_loop get_ack on_ack acked
  send_and_ack-acked k m f a left s e (i, g, b) n =
      let round =
        listen_round-acked write transmit utf8 clock delivers (clock k) m f a left i s
          (accepts (bytes m)) e g b n in
      rw round refl

  send_all-returned :
      (k : ℕ) (ms : List Bytes) (acks left : List Poll) (s : HmtlServer)
      → All IsFrame ms
      → All IsAck acks
      → length acks ≡ length ms
      → s.ser.incoming ≡ acks ++ left
      → s.sent ≡ []
      → (send_all write transmit utf8 clock k ms s).0 ≡ returned tt
  unfolding send_all after_ack acked
  send_all-returned k [] acks left s f h n e sent = refl
  send_all-returned k (m ∷ ms) [] left s f h n e sent = absurd (omega arith)
  send_all-returned k (m ∷ ms) (a ∷ acks) left s f h n e sent =
      let next : HmtlServer = acked [] (bytes m) a (acks ++ left) s in
      rw (send_and_ack-acked k m f.0 a (acks ++ left) s e h.0 sent)
        (send_all-returned (k + 1) ms acks left next f.1 h.1 (omega arith) refl refl)

  -- A pose with an address of 16 bits, where the next polls of the port are the module's
  -- acknowledgements of its messages, one for each, and no reply is unread: `on_pose` returns, and a
  -- module that takes what it wrote to a fresh port does what the pose's requests ask one after the
  -- other, and raises nothing. The outputs that each names get its colour or the low 13 bits of its
  -- value if the module is the one addressed, or all are, and nothing else changes. The port and
  -- the connection take what is sent.
  pub on_pose-acked :
      (k address : ℕ) (pose : Pose) (acks left : List Poll) (s : HmtlServer) (em : Emulator)
      → address < 0x1_0000
      → All IsAck acks
      → length acks ≡ length (pose_requests address pose)
      → s.ser.incoming ≡ acks ++ left
      → s.sent ≡ []
      → s.ser.written ≡ []
      → ((on_pose write transmit utf8 clock k address pose s).0 ≡ returned tt)
        × (client_handler (on_pose write transmit utf8 clock k address pose s).1.ser.written em
            ≡ (none, effects (pose_requests address pose) em))
  on_pose-acked k address pose acks left s em h acknowledged count e sent fresh =
      let qs = pose_requests address pose in
      let (ms, built, n) = build_all-IsBuilt qs (pose_requests-IsBuilt address pose h) in
      let returns : (on_pose write transmit utf8 clock k address pose s).0 ≡ returned tt =
        unfold on_pose send_built in
        (rw built (
          send_all-returned k ms acks left s (AllFrames-build_all qs ms built) acknowledged
            (count ∙ sym n) e sent)) in
      (returns, on_pose-effects write transmit utf8 clock accepts k address pose s em fresh returns)
