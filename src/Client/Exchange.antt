-- ===== src/Client/Exchange.antt =====
-- A request that a client sends through the server to a module, and the module's answer:
-- python/hmtl/client.py and python/hmtl/server.py on a message of python/hmtl/HMTLprotocol.py.
use hmtl.Prelude.{
  ℕ, suc, ◌+◌, ◌≡◌, refl, ap, ◌∙◌, List, [], ◌∷◌, ◌++◌, Bytes, Option, some, Bool, true, false, All,
  Result, ok, length,
}
use hmtl.InputBuffer.{InputItem}
use hmtl.InputBuffer.Frames.{header_of, from_data-frame}
use hmtl.Protocol.MsgHdr.{MsgHdr, more_data}
use hmtl.Protocol.Frame.{IsFrame, Request, build, build-IsFrame}
use hmtl.Replies.{ReplyHdr, msg_to_headers}
use hmtl.Serial.{
  Value, bytes, str, Poll, HmtlSerial, get_message, config_ack, confirm_loop, confirm_check,
  confirmed, Confirmed, send_and_confirm, send_terminated, send, await,
}
use hmtl.Server.{
  HmtlServer, Ended, returned, failed, waits, served, from_data, listen_round, decode_data,
  data_loop, get_data_msg, end_round, reply, reply_item, of_confirmed, reply_sent, send_data,
  handle_item, handle_msg, server_ack, data_timeout,
}
use hmtl.Client.{
  recv, Responses, wants_more, decode, add, recv_after, get_response_data, on_response,
  response_loop, on_ack, ack_after, ack_loop, get_ack, send_and_ack, no_responses, some_responses,
}
use hmtl.Client.Progress.{answer}
use hmtl.Client.Port.{response_loop-written}
use hmtl.Client.Answers.{
  IsQuiet, data_loop-first, data_check_message, decode_data-ok, bytes_item_message,
}

-- The server's state once the message is written and the module's `ok` taken: the reply is sent.
unfoldable pub acked : List Value → Value → Poll → List Poll → HmtlServer → HmtlServer
unfolding get_message
acked sent v a rest s = record {
  ser = record {
    incoming = rest;
    written = s.ser.written ++ (v ∷ []);
    last_received = (get_message a rest s.ser).last_received;
  };
  sent = sent;
  connected = s.connected;
  replied = true;
  terminate = s.terminate;
}

on_response_last :
    (write transmit : Value → Result (Unit {0})) (utf8 : Bytes → Bool) (clock : ℕ → ℕ)
    (next : Responses → HmtlServer → Option (Ended Responses) × HmtlServer) (got : Responses)
    → (out : Ended Value × HmtlServer) (v : Value) → out.0 ≡ returned v
    → wants_more (decode v) ≡ false
    → (on_response write transmit utf8 clock next got out).0 ≡ some (returned (add v got))
unfolding on_response
on_response_last write transmit utf8 clock next got (returned w, s) v e m =
    let q : w ≡ v = cc in rw (q, m) refl
on_response_last write transmit utf8 clock next got (failed x, s) v e m = cc
on_response_last write transmit utf8 clock next got (waits, s) v e m = cc

module _ (write transmit : Value → Result (Unit {0})) (utf8 : Bytes → Bool) (clock : ℕ → ℕ)
    (delivers : (v : Value) → transmit v ≡ ok tt) where
  confirm_acked :
      (start timeout : ℕ) (v : Value) (a : Poll) (rest : List Poll) (i : InputItem) (s : HmtlSerial)
      → write v ≡ ok tt
      → s.incoming ≡ a ∷ rest
      → a.got ≡ some i
      → i.bytes ≡ config_ack
      → send_and_confirm write start timeout v false s ≡ (
        confirmed,
        record {
          incoming = rest;
          written = s.written ++ (v ∷ []);
          last_received = (get_message a rest s).last_received;
        },
      )
  unfolding send_and_confirm await send_terminated send confirm_loop get_message confirm_check
  confirm_acked start timeout v a rest i s w e g b =
      let c : confirm_check start timeout a.got a.checked_at ≡ some confirmed = rw g (rw b refl) in
      rw (w, e, c, confirm_loop) refl

  send_data-acked :
      (start : ℕ) (v : Value) (a : Poll) (rest : List Poll) (i : InputItem) (s : HmtlServer)
      → write v ≡ ok tt
      → s.ser.incoming ≡ a ∷ rest
      → a.got ≡ some i
      → i.bytes ≡ config_ack
      → send_data write transmit utf8 start v s ≡ (
        returned tt,
        record s {
          ser = record {
            incoming = rest;
            written = s.ser.written ++ (v ∷ []);
            last_received = (get_message a rest s.ser).last_received;
          };
        },
      )
  unfolding send_data of_confirmed
  send_data-acked start v a rest i s w e g b =
      ap (λ (out : Confirmed × HmtlSerial). (of_confirmed out.0, record s { ser = out.1 }))
        (confirm_acked start 10000 v a rest i s.ser w e g b)

  -- A round for a message that the module acknowledges.
  pub listen_round-acked :
      (start : ℕ) (bs : Bytes) (f : IsFrame bs) (a : Poll) (rest : List Poll) (i : InputItem)
      → (s : HmtlServer) → write (bytes bs) ≡ ok tt
      → s.ser.incoming ≡ a ∷ rest
      → a.got ≡ some i
      → i.bytes ≡ config_ack
      → s.sent ≡ []
      → listen_round write transmit utf8 start (bytes bs) s
        ≡ (served, acked (str server_ack ∷ []) (bytes bs) a rest s)
  unfolding listen_round end_round handle_item from_data handle_msg reply reply_sent acked
  listen_round-acked start bs f a rest i s w e g b n =
      rw
        (
          bytes_item_message start bs _ (header_of f) f.layout (from_data-frame bs f),
          send_data-acked start (bytes bs) a rest i (record s { replied = false }) w e g b,
          delivers (str server_ack),
          n,
        )
        refl

  answer-message :
      (out : Ended (Option InputItem)) (m : InputItem) (s : HmtlServer)
      → out ≡ returned (some m)
      → s.sent ≡ []
      → (answer write transmit utf8 clock delivers (out, s)).0 ≡ returned (bytes m.bytes)
  unfolding recv_after recv end_round reply_item reply
  answer-message out m s o e = rw o (rw (delivers (bytes m.bytes), e) refl)

  get_response_data-message :
      (k : ℕ) (s : HmtlServer) (before : List Poll) (p : Poll) (rest : List Poll) (m : InputItem)
      → s.sent ≡ []
      → s.ser.incoming ≡ before ++ (p ∷ rest)
      → All (IsQuiet utf8 (clock k + data_timeout)) before
      → p.got ≡ some m
      → m.is_hmtl ≡ true
      → decode_data utf8 m.bytes ≡ ok tt
      → (get_response_data write transmit utf8 clock k s).0 ≡ returned (bytes m.bytes)
  unfolding get_response_data listen_round handle_item from_data handle_msg get_data_msg
  get_response_data-message k s before p rest m n e quiet g h d =
      let limit : ℕ = clock k + data_timeout in
      let (out, ser) = data_loop utf8 limit s.ser.incoming s.ser in
      let first : (data_loop utf8 limit s.ser.incoming s.ser).0 ≡ returned (some m) =
        ap (λ (l : List Poll). (data_loop utf8 limit l s.ser).0) e
        ∙ data_loop-first utf8 limit before p rest (returned (some m)) s.ser quiet
            (data_check_message utf8 limit p.got m p.checked_at g h d) in
      answer-message out m (record s { replied = false; ser = ser }) first n

  response_loop-message :
      (fuel k : ℕ) (s : HmtlServer) (m : InputItem) (h : MsgHdr × ReplyHdr)
      → (get_response_data write transmit utf8 clock k s).0 ≡ returned (bytes m.bytes)
      → msg_to_headers m.bytes ≡ ok h
      → more_data h.0 ≡ false
      → (response_loop write transmit utf8 clock (suc fuel) k no_responses s).0
        ≡ some (returned (record { messages = bytes m.bytes ∷ []; headers = some h ∷ [] }))
  unfolding response_loop decode wants_more add
  response_loop-message fuel k s m h r d more =
      on_response_last write transmit utf8 clock
        (response_loop write transmit utf8 clock fuel (k + 1)) no_responses
        (get_response_data write transmit utf8 clock k s) (bytes m.bytes) r (rw d more)
      ∙ rw d refl

  -- A request of a client that expects a response, whole: the server writes a built message to the
  -- module, and nothing else; the module's next item acknowledges it; the client asks for data, and it
  -- gets the first message that the module sends, with the headers that it is parsed into. This
  -- holds where the port and the connection take what is written, no reply is unread before, the
  -- polls between the acknowledgement and the message bring no message and are in time, and the
  -- message parses and announces no further one.
  pub send_and_ack-response :
      (k : ℕ) (q : Request) (bs : Bytes) (s : HmtlServer) (a p : Poll) (i m : InputItem)
      → (before rest : List Poll) (h : MsgHdr × ReplyHdr) → build q ≡ ok bs
      → write (bytes bs) ≡ ok tt
      → s.sent ≡ []
      → s.ser.incoming ≡ a ∷ (before ++ (p ∷ rest))
      → a.got ≡ some i
      → i.bytes ≡ config_ack
      → All (IsQuiet utf8 (clock (k + 1) + data_timeout)) before
      → p.got ≡ some m
      → m.is_hmtl ≡ true
      → msg_to_headers m.bytes ≡ ok h
      → more_data h.0 ≡ false
      → ((send_and_ack write transmit utf8 clock k (bytes bs) true s).0
          ≡ some
              (returned (some (record { messages = bytes m.bytes ∷ []; headers = some h ∷ [] }))))
        × ((send_and_ack write transmit utf8 clock k (bytes bs) true s).1.ser.written
            ≡ s.ser.written ++ (bytes bs ∷ []))
  unfolding send_and_ack on_ack ack_after ack_loop get_ack acked some_responses
  send_and_ack-response k q bs s a p i m before rest h b w n e ag ib quiet pg mh d more =
      let s' : HmtlServer = acked [] (bytes bs) a (before ++ (p ∷ rest)) s in
      let f : IsFrame bs = build-IsFrame q bs b in
      let round = listen_round-acked (clock k) bs f a (before ++ (p ∷ rest)) i s w e ag ib n in
      rw round (
        ap some_responses (
            response_loop-message (length (before ++ (p ∷ rest))) (k + 1) s' m h
              (get_response_data-message (k + 1) s' before p rest m refl refl quiet pg mh
                (decode_data-ok utf8 m.bytes h d))
              d more),
        response_loop-written write transmit utf8 clock (suc (length (before ++ (p ∷ rest))))
            (k + 1) no_responses s',
      )
