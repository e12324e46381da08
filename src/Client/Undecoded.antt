-- ===== src/Client/Undecoded.antt =====
-- A message that python/hmtl/HMTLprotocol.py has no header class for, on its way through
-- python/hmtl/server.py to a client.
use hmtl.Prelude.{
  ℕ, ◌+◌, ◌≡◌, ◌≢◌, refl, ap, ◌∙◌, List, [], ◌∷◌, ◌++◌, Bytes, Option, some, Bool, true, false, All,
  Result, ok, err, Error, arith,
}
use hmtl.InputBuffer.{InputItem}
use hmtl.Protocol.MsgHdr
use hmtl.Protocol.MsgHdr.{MsgHdr}
use hmtl.Replies.{next_hdr, msg_to_headers}
use hmtl.Serial.{Value, nothing, Poll}
use hmtl.Server.{
  HmtlServer, Ended, returned, failed, data_check, decode_data, data_loop, get_data_msg, end_round,
  recover, recovery, is_os_error, reply, reply_item, handle_item, handle_msg, from_data,
  listen_round, data_timeout,
}
use hmtl.Client.{recv, recv_after, get_response_data}
use hmtl.Client.Progress.{answer}
use hmtl.Client.Answers.{IsQuiet, data_loop-first}

-- A type with no header class: neither a POLL nor a DUMPCONFIG.
abbrev pub IsUnparsed : MsgHdr → Type 0
IsUnparsed h = (h.mtype ≢ 2) × (h.mtype ≢ 0xE0)

next_hdr-unparsed : (h : MsgHdr) (bs : Bytes) → IsUnparsed h → next_hdr h bs ≡ err Error.exception
unfolding next_hdr
next_hdr-unparsed h bs (a, b) = ground arith

decode_data-unparsed :
    (utf8 : Bytes → Bool) (bs : Bytes) (h : MsgHdr)
    → utf8 bs ≡ false
    → MsgHdr.from_data bs ≡ ok h
    → IsUnparsed h
    → decode_data utf8 bs ≡ err Error.exception
unfolding decode_data msg_to_headers
decode_data-unparsed utf8 bs h u p n = rw (u, p, next_hdr-unparsed h bs n) refl

data_check-undecoded :
    (utf8 : Bytes → Bool) (limit : ℕ) (p : Poll) (m : InputItem) (e : Error)
    → p.got ≡ some m
    → m.is_hmtl ≡ true
    → decode_data utf8 m.bytes ≡ err e
    → data_check utf8 limit p.got p.checked_at ≡ some (failed e)
unfolding data_check
data_check-undecoded utf8 limit p m e g h d = rw g (rw (h, d) refl)

module _ (write transmit : Value → Result (Unit {0})) (utf8 : Bytes → Bool) (clock : ℕ → ℕ)
    (delivers : (v : Value) → transmit v ≡ ok tt) where
  answer-failed :
      (out : Ended (Option InputItem)) (s : HmtlServer)
      → out ≡ failed Error.exception
      → s.sent ≡ []
      → s.replied ≡ false
      → (answer write transmit utf8 clock delivers (out, s)).0 ≡ returned nothing
  unfolding recv_after recv end_round reply_item reply recover recovery is_os_error
  answer-failed out s o e r = rw o (rw (r, delivers nothing, e) refl)

  -- A message from the module whose type is neither POLL nor DUMPCONFIG does not reach the client
  -- that asks for data, though it is the first and all before it is in time: its decoding for the
  -- log raises, and the client gets None. Its bytes are not UTF-8 and hold a header, nothing is
  -- unread before, and the connection takes what is sent.
  pub get_response_data-undecoded :
      (k : ℕ) (s : HmtlServer) (before rest : List Poll) (p : Poll) (m : InputItem) (h : MsgHdr)
      → s.sent ≡ []
      → s.ser.incoming ≡ before ++ (p ∷ rest)
      → All (IsQuiet utf8 (clock k + data_timeout)) before
      → p.got ≡ some m
      → m.is_hmtl ≡ true
      → utf8 m.bytes ≡ false
      → MsgHdr.from_data m.bytes ≡ ok h
      → IsUnparsed h
      → (get_response_data write transmit utf8 clock k s).0 ≡ returned nothing
  unfolding get_response_data listen_round handle_item from_data handle_msg get_data_msg
  get_response_data-undecoded k s before rest p m h n e quiet g mh u parsed t =
      let limit : ℕ = clock k + data_timeout in
      let (out, ser) = data_loop utf8 limit s.ser.incoming s.ser in
      let first : (data_loop utf8 limit s.ser.incoming s.ser).0 ≡ failed Error.exception =
        ap (λ (l : List Poll). (data_loop utf8 limit l s.ser).0) e
        ∙ data_loop-first utf8 limit before p rest (failed Error.exception) s.ser quiet (
            data_check-undecoded utf8 limit p m Error.exception g mh
              (decode_data-unparsed utf8 m.bytes h u parsed t)) in
      answer-failed out (record s { replied = false; ser = ser }) first n refl
