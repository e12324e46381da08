-- ===== src/MyoClient.antt =====
-- `class Listener` of python/myo_client.py: what a pose of the arm band sends to the modules, through
-- the client and the server. The arm band's library is left out, and printing; the callbacks of
-- the sensors only print.
pub mod Poses
pub mod Lights
pub mod Acked
mod Tests
use hmtl.Prelude.{
  ℕ, ◌+◌, List, [], ◌∷◌, Bytes, Option, none, some, Bool, false, Result, ok, err, Error, ◌>>=◌,
}
use hmtl.Protocol.Frame.{Request, set_rgb, set_value, build}
use hmtl.Serial.{Value, bytes}
use hmtl.Server.{HmtlServer, Ended, returned, failed, waits}
use hmtl.Client.{Responses, send_and_ack}

-- `pose_t`; `other` is any pose that `on_pose` does not name.
pub data Pose : Type 0 where
  double_tap rest wave_in wave_out fist fingers_spread other : Pose

-- The messages that `on_pose` puts into `msgs`, by the calls that build them; `address` is
-- `options.hmtladdress`.
unfoldable pub pose_requests : ℕ → Pose → List Request
pose_requests address double_tap = set_rgb address 1 255 0 255 ∷ []
pose_requests address rest = set_rgb address 1 0 0 0 ∷ set_value 69 0 0 ∷ set_value 69 1 0 ∷ []
pose_requests address wave_in = set_rgb address 1 0 255 0 ∷ []
pose_requests address wave_out = set_rgb address 1 0 0 255 ∷ []
pose_requests address fist = set_rgb address 1 255 0 0 ∷ set_value 69 1 255 ∷ []
pose_requests address fingers_spread = set_rgb address 1 255 255 255 ∷ set_value 69 0 128 ∷ []
pose_requests address other = []

-- All messages are built before the first is sent.
unfoldable pub build_all : List Request → Result (List Bytes)
unfolding build
build_all [] = ok []
build_all (q ∷ qs) = do m ← build q; ms ← build_all qs; ok (m ∷ ms)

module _ (write transmit : Value → Result (Unit {0})) (utf8 : Bytes → Bool) (clock : ℕ → ℕ) where
  -- Behind one `send_and_ack`, which never ends without a result where no response is expected.
  unfoldable pub after_ack :
      (HmtlServer → Ended (Unit {0}) × HmtlServer)
      → Option (Ended (Option Responses)) × HmtlServer
      → Ended (Unit {0}) × HmtlServer
  after_ack next (none, s) = (waits, s)
  after_ack next (some (returned r), s) = next s
  after_ack next (some (failed e), s) = (failed e, s)
  after_ack next (some waits, s) = (waits, s)

  -- `for msg in msgs: self.client.send_and_ack(msg, False)`, from request `k` on.
  unfoldable pub send_all : ℕ → List Bytes → HmtlServer → Ended (Unit {0}) × HmtlServer
  unfolding after_ack send_and_ack
  send_all k [] s = (returned tt, s)
  send_all k (m ∷ ms) s =
      after_ack (send_all (k + 1) ms) (send_and_ack write transmit utf8 clock k (bytes m) false s)

  unfoldable pub send_built : ℕ → Result (List Bytes) → HmtlServer → Ended (Unit {0}) × HmtlServer
  unfolding send_all
  send_built k (err e) s = (failed e, s)
  send_built k (ok ms) s = send_all k ms s

  -- `on_pose`
  unfoldable pub on_pose : ℕ → ℕ → Pose → HmtlServer → Ended (Unit {0}) × HmtlServer
  unfolding send_built build_all pose_requests
  on_pose k address pose s = send_built k (build_all (pose_requests address pose)) s
