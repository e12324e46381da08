-- ===== src/MyoClient/Poses.antt =====
-- What a pose writes to the serial port: `on_pose` of python/myo_client.py through
-- python/hmtl/client.py, python/hmtl/server.py and python/hmtl/HMTLSerial.py.
use hmtl.Prelude.{
  ℕ, ◌+◌, ◌≡◌, ◌⊎◌, inl, inr, refl, sym, ap, ◌∙◌, List, [], ◌∷◌, ◌++◌, map, append-nil,
  append_assoc, Bytes, All, Option, none, some, Option-cases, Bool, false, Bool-cases, Result,
  Result-cases, ok, err, Error, >>=-eq-ok,
}
use hmtl.InputBuffer.Frames.{header_of, from_data-frame}
use hmtl.Protocol.Frame.{Request, build, IsFrame, build-IsFrame}
use hmtl.Serial.{
  Value, bytes, Poll, HmtlSerial, get_message, confirm_check, confirm_loop, send, send_terminated,
  await, send_and_confirm,
}
use hmtl.Server.{
  HmtlServer, Ended, returned, failed, waits, Round, send_data, handle_msg, handle_item, end_round,
  listen_round, from_data,
}
use hmtl.Client.{Responses, get_ack, ack_loop, ack_after, on_ack, send_and_ack}
use hmtl.Client.Answers.{bytes_item_message}
use hmtl.Client.Port.{reply_sent-ser, end_round-ser}
use hmtl.MyoClient.{Pose, pose_requests, build_all, after_ack, send_all, send_built, on_pose}

-- Confirming writes nothing.
confirm_loop-written :
    (start timeout : ℕ) (polls : List Poll) (s : HmtlSerial)
    → (confirm_loop start timeout polls s).1.written ≡ s.written
unfolding confirm_loop get_message
confirm_loop-written start timeout [] s = refl
confirm_loop-written start timeout (p ∷ ps) s =
    elim (Option-cases (confirm_check start timeout p.got p.checked_at)) [
      | inl n ↦ rw (n, confirm_loop) (confirm_loop-written start timeout ps (get_message p ps s))
      | inr (out, e) ↦ rw (e, confirm_loop) refl
    ]

abbrev SamePort : HmtlServer → Round × HmtlServer → Type 0
SamePort s out = out.1.ser ≡ s.ser

-- What was written in `out` is what was in `s` and the first of the messages, all if it returned.
abbrev pub Writes : List Bytes → HmtlServer → Ended (Unit {0}) × HmtlServer → Type 0
Writes ms s out =
    (sent unsent : List Bytes) × (ms ≡ sent ++ unsent)
    × (out.1.ser.written ≡ s.ser.written ++ map bytes sent)
    × (out.0 ≡ returned tt → unsent ≡ [])

pub AllFrames-build_all :
    (qs : List Request) (ms : List Bytes) → build_all qs ≡ ok ms → All IsFrame ms
unfolding build_all
AllFrames-build_all [] ms e = let none_built : ms ≡ [] = cc in rw none_built tt
AllFrames-build_all (q ∷ qs) ms e =
    let (m, built, e') = >>=-eq-ok (build q) _ e in
    let (rest, others, e'') = >>=-eq-ok (build_all qs) _ e' in
    let split : ms ≡ m ∷ rest = cc in
    rw split (build-IsFrame q m built, AllFrames-build_all qs rest others)

module _ (write transmit : Value → Result (Unit {0})) (utf8 : Bytes → Bool) (clock : ℕ → ℕ) where
  ack_loop-ser : (r : Round) (vs : List Value) (s : HmtlServer) → (ack_loop r vs s).1.ser ≡ s.ser
  unfolding ack_loop
  ack_loop-ser r [] s = refl
  ack_loop-ser r (v ∷ vs) s = elim (Bool-cases (get_ack v)) [
    | inl a ↦ rw a refl
    | inr a ↦ rw a (ack_loop-ser r vs s)
  ]

  ack_after-ser :
      (out : Round × HmtlServer) → (ack_after write transmit utf8 clock out).1.ser ≡ out.1.ser
  unfolding ack_after
  ack_after-ser (r, s) = ack_loop-ser r s.sent s

  on_ack-ser :
      (k : ℕ) (out : Ended (Unit {0}) × HmtlServer)
      → (on_ack write transmit utf8 clock false k out).1.ser ≡ out.1.ser
  unfolding on_ack
  on_ack-ser k (returned done, s) = refl
  on_ack-ser k (failed e, s) = refl
  on_ack-ser k (waits, s) = refl

  module _ (accepts : (v : Value) → write v ≡ ok tt) where
    send_data-written :
        (start : ℕ) (v : Value) (s : HmtlServer)
        → (send_data write transmit utf8 start v s).1.ser.written ≡ s.ser.written ++ (v ∷ [])
    unfolding send_data send_and_confirm await send_terminated send
    send_data-written start v s = rw (accepts v) (
        confirm_loop-written start 10000 s.ser.incoming
          (record s.ser { written = s.ser.written ++ (v ∷ []) }))

    handle_item-written :
        (start : ℕ) (m : Bytes) (f : IsFrame m) (s : HmtlServer)
        → (handle_item write transmit utf8 start (from_data (bytes m) start) s).1.ser.written
          ≡ s.ser.written ++ (bytes m ∷ [])
    unfolding handle_item handle_msg from_data
    handle_item-written start m f s =
        rw (bytes_item_message start m _ (header_of f) f.layout (from_data-frame m f)) (
          ap (λ (p : HmtlSerial). p.written)
            (reply_sent-ser write transmit utf8 (send_data write transmit utf8 start (bytes m) s))
          ∙ send_data-written start (bytes m) s)

    -- A message goes to the port once, whatever becomes of it there and of the acknowledgement.
    send_and_ack-written :
        (k : ℕ) (m : Bytes) (f : IsFrame m) (s : HmtlServer)
        → (send_and_ack write transmit utf8 clock k (bytes m) false s).1.ser.written
          ≡ s.ser.written ++ (bytes m ∷ [])
    unfolding send_and_ack listen_round
    send_and_ack-written k m f s =
        let s' : HmtlServer = record s { replied = false } in
        let handled =
          handle_item write transmit utf8 (clock k) (from_data (bytes m) (clock k)) s' in
        let round = end_round write transmit utf8 (bytes m) handled in
        ap (λ (p : HmtlSerial). p.written)
          (on_ack-ser k (ack_after write transmit utf8 clock round)
            ∙ ack_after-ser round
            ∙ end_round-ser write transmit utf8 (bytes m) handled)
        ∙ handle_item-written (clock k) m f s'

    after_ack-Writes :
        (m : Bytes) (ms : List Bytes) (s : HmtlServer)
        → (next : HmtlServer → Ended (Unit {0}) × HmtlServer)
        → (out : Option (Ended (Option Responses)) × HmtlServer)
        → out.1.ser.written ≡ s.ser.written ++ (bytes m ∷ [])
        → ((s' : HmtlServer) → Writes ms s' (next s'))
        → Writes (m ∷ ms) s (after_ack write transmit utf8 clock next out)
    unfolding after_ack
    after_ack-Writes m ms s next (none, s') e h = (m ∷ [], ms, refl, e, λ r. cc)
    after_ack-Writes m ms s next (some (failed x), s') e h = (m ∷ [], ms, refl, e, λ r. cc)
    after_ack-Writes m ms s next (some waits, s') e h = (m ∷ [], ms, refl, e, λ r. cc)
    after_ack-Writes m ms s next (some (returned r), s') e h =
        let (sent, unsent, parts, written, all) = h s' in
        (
          m ∷ sent,
          unsent,
          ap (λ (l : List Bytes). m ∷ l) parts,
          written
              ∙ ap (λ (l : List Value). l ++ map bytes sent) e
              ∙ append_assoc s.ser.written (bytes m ∷ []) (map bytes sent),
          all,
        )

    send_all-Writes :
        (k : ℕ) (ms : List Bytes) (s : HmtlServer)
        → All IsFrame ms
        → Writes ms s (send_all write transmit utf8 clock k ms s)
    unfolding send_all
    send_all-Writes k [] s h = ([], [], refl, sym (append-nil s.ser.written), λ r. refl)
    send_all-Writes k (m ∷ ms) s h =
        after_ack-Writes m ms s (send_all write transmit utf8 clock (k + 1) ms)
          (send_and_ack write transmit utf8 clock k (bytes m) false s)
          (send_and_ack-written k m h.0 s) (λ s'. send_all-Writes (k + 1) ms s' h.1)

    -- A pose whose messages are built writes them to the serial port, in the order of the list and
    -- each once, up to one whose `send_and_ack` raises or waits: all of them if `on_pose` returns.
    -- Where one cannot be built, none is written. The port takes what is written; what the module
    -- answers, and whether the connection takes the acknowledgements, is left open.
    pub on_pose-Writes :
        (k address : ℕ) (pose : Pose) (s : HmtlServer)
        → ((ms : List Bytes) × (build_all (pose_requests address pose) ≡ ok ms)
            × Writes ms s (on_pose write transmit utf8 clock k address pose s))
          ⊎ ((e : Error) × (build_all (pose_requests address pose) ≡ err e)
              × (on_pose write transmit utf8 clock k address pose s ≡ (failed e, s)))
    unfolding on_pose send_built
    on_pose-Writes k address pose s = elim (Result-cases (build_all (pose_requests address pose))) [
      | inl (ms, e) ↦ inl (
        ms,
        e,
        rw e (send_all-Writes k ms s (AllFrames-build_all (pose_requests address pose) ms e)),
      )
      | inr (x, e) ↦ inr (x, e, rw e refl)
    ]
