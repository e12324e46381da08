-- ===== src/Client/Interleaving.antt =====
-- The scanner's thread between a client's message and its request for data: python/hmtl/server.py
-- holds `serial_cv` in `send_data` and in `get_data_msg`, but not from the one to the other.
use hmtl.Prelude.{
  ℕ, ◌+◌, ◌≡◌, ◌∙◌, refl, ap, List, [], ◌∷◌, ◌++◌, Bytes, Option, none, some, Bool, false, Result,
  ok,
}
use hmtl.InputBuffer.{InputItem}
use hmtl.Serial.{
  Value, bytes, nothing, Poll, HmtlSerial, get_message, Confirmed, confirmed, confirm_check,
  confirm_loop, send, send_terminated, await, send_and_confirm,
}
use hmtl.Server.{
  HmtlServer, Ended, returned, failed, waits, of_confirmed, send_data, data_check, data_loop,
  get_data_msg, scan_timeout, data_timeout, listen_round, handle_item, handle_msg, from_data,
  end_round, reply_item, reply,
}
use hmtl.Server.Scanner.{Devices, DeviceScanner, after_send, poll_address}
use hmtl.Client.{get_response_data, recv_after, recv}
use hmtl.Client.Progress.{answer}
use hmtl.Client.Answers.{data_loop-first}

-- The end of `send_and_confirm` where it drops the item of `p` and takes the acknowledgement of `a`.
abbrev Confirms : List Poll → Confirmed × HmtlSerial → Type 0
Confirms rest out = (out.0 ≡ confirmed) × (out.1.incoming ≡ rest)

confirm_loop-Confirms :
    (start timeout : ℕ) (p a : Poll) (rest polls : List Poll) (s : HmtlSerial)
    → polls ≡ p ∷ a ∷ rest
    → confirm_check start timeout p.got p.checked_at ≡ none
    → confirm_check start timeout a.got a.checked_at ≡ some confirmed
    → Confirms rest (confirm_loop start timeout polls s)
unfolding confirm_loop get_message
confirm_loop-Confirms start timeout p a rest polls s i n e =
    rw i (rw (n, e, confirm_loop) (refl, refl))

data_loop-incoming :
    (utf8 : Bytes → Bool) (limit : ℕ) (p : Poll) (rest polls : List Poll)
    (out : Ended (Option InputItem)) (s : HmtlSerial)
    → polls ≡ p ∷ rest
    → data_check utf8 limit p.got p.checked_at ≡ some out
    → (data_loop utf8 limit polls s).1.incoming ≡ rest
unfolding data_loop get_message
data_loop-incoming utf8 limit p rest polls out s i e = rw i (rw (e, data_loop) refl)

module _ (write transmit : Value → Result (Unit {0})) (utf8 : Bytes → Bool) (clock : ℕ → ℕ)
    (delivers : (v : Value) → transmit v ≡ ok tt) (sent_at asked_at handled_at : ℕ → ℕ) where
  send_data-Confirms :
      (start : ℕ) (v : Value) (p a : Poll) (rest : List Poll) (s : HmtlServer)
      → write v ≡ ok tt
      → s.ser.incoming ≡ p ∷ a ∷ rest
      → confirm_check start 10000 p.got p.checked_at ≡ none
      → confirm_check start 10000 a.got a.checked_at ≡ some confirmed
      → ((send_data write transmit utf8 start v s).0 ≡ returned tt)
        × ((send_data write transmit utf8 start v s).1.ser.incoming ≡ rest)
  unfolding send_data send_and_confirm await send_terminated send of_confirmed
  send_data-Confirms start v p a rest s w i n e =
      let (c, r) =
        confirm_loop-Confirms start 10000 p a rest s.ser.incoming
          (record s.ser { written = s.ser.written ++ (v ∷ []) }) i n e in
      (rw w (ap of_confirmed c), rw w r)

  send_data-sent :
      (start : ℕ) (v : Value) (s : HmtlServer)
      → (send_data write transmit utf8 start v s).1.sent ≡ s.sent
  unfolding send_data
  send_data-sent start v s = refl

  get_data_msg-incoming :
      (start timeout : ℕ) (p : Poll) (rest : List Poll) (out : Ended (Option InputItem))
      → (s : HmtlServer) → s.ser.incoming ≡ p ∷ rest
      → data_check utf8 (start + timeout) p.got p.checked_at ≡ some out
      → ((get_data_msg utf8 start timeout s).1.ser.incoming ≡ rest)
        × ((get_data_msg utf8 start timeout s).1.sent ≡ s.sent)
  unfolding get_data_msg
  get_data_msg-incoming start timeout p rest out s i e =
      (data_loop-incoming utf8 (start + timeout) p rest s.ser.incoming out s.ser i e, refl)

  after_send-server :
      (address : ℕ) (ds : Devices) (out : Ended (Unit {0}) × HmtlServer)
      → out.0 ≡ returned tt
      → (after_send write transmit utf8 sent_at asked_at handled_at address ds out).1.server
        ≡ (get_data_msg utf8 (asked_at address) scan_timeout out.1).1
  unfolding after_send
  after_send-server address ds (returned done, s) e = refl
  after_send-server address ds (failed x, s) e = cc
  after_send-server address ds (waits, s) e = cc

  answer-none :
      (out : Ended (Option InputItem)) (s : HmtlServer)
      → out ≡ returned none
      → s.sent ≡ []
      → (answer write transmit utf8 clock delivers (out, s)).0 ≡ returned nothing
  unfolding recv_after recv end_round reply_item reply
  answer-none out s o e = rw o (rw (delivers nothing, e) refl)

  get_response_data-none :
      (k : ℕ) (s : HmtlServer) (q : Poll) (rest : List Poll)
      → s.sent ≡ []
      → s.ser.incoming ≡ q ∷ rest
      → data_check utf8 (clock k + data_timeout) q.got q.checked_at ≡ some (returned none)
      → (get_response_data write transmit utf8 clock k s).0 ≡ returned nothing
  unfolding get_response_data listen_round handle_item from_data handle_msg get_data_msg
  get_response_data-none k s q rest n i e =
      let limit : ℕ = clock k + data_timeout in
      let (out, ser) = data_loop utf8 limit s.ser.incoming s.ser in
      let first : (data_loop utf8 limit s.ser.incoming s.ser).0 ≡ returned none =
        ap (λ (l : List Poll). (data_loop utf8 limit l s.ser).0) i
        ∙ data_loop-first utf8 limit [] q rest (returned none) s.ser tt e in
      answer-none out (record s { replied = false; ser = ser }) first n

  -- Where the scanner polls an address before a client that is acknowledged asks for its data, an
  -- item that the module sent in between, the client's response included, is dropped while the
  -- scanner waits for its own acknowledgement, and the client gets None. The item dropped is
  -- neither an acknowledgement nor a refusal, and in time; the acknowledgement is next; the
  -- scanner's wait for data ends at the poll behind it, and the client's at one that is late and
  -- brings no message; the port and the connection take what is sent, and no reply is unread
  -- before.
  pub get_response_data-poll_address :
      (k address : ℕ) (msg : Bytes) (d : DeviceScanner) (p a r q : Poll) (rest : List Poll)
      → (out : Ended (Option InputItem)) → write (bytes msg) ≡ ok tt
      → d.server.sent ≡ []
      → d.server.ser.incoming ≡ p ∷ a ∷ r ∷ q ∷ rest
      → confirm_check (sent_at address) 10000 p.got p.checked_at ≡ none
      → confirm_check (sent_at address) 10000 a.got a.checked_at ≡ some confirmed
      → data_check utf8 (asked_at address + scan_timeout) r.got r.checked_at ≡ some out
      → data_check utf8 (clock k + data_timeout) q.got q.checked_at ≡ some (returned none)
      → (get_response_data write transmit utf8 clock k
          (poll_address write transmit utf8 sent_at asked_at handled_at address
            (ok msg)
            d).1.server).0
        ≡ returned nothing
  unfolding poll_address
  get_response_data-poll_address k address msg d p a r q rest out w n i pc ac rc qc =
      let sent_data : Ended (Unit {0}) × HmtlServer =
        send_data write transmit utf8 (sent_at address) (bytes msg) d.server in
      let (done, left) =
        send_data-Confirms (sent_at address) (bytes msg) p a (r ∷ q ∷ rest) d.server w i pc ac in
      let (taken, same) =
        get_data_msg-incoming (asked_at address) scan_timeout r (q ∷ rest) out sent_data.1 left
          rc in
      ap (λ (s : HmtlServer). (get_response_data write transmit utf8 clock k s).0)
        (after_send-server address d.devices sent_data done)
      ∙ get_response_data-none k _ q rest
          (same ∙ send_data-sent (sent_at address) (bytes msg) d.server ∙ n) taken qc
