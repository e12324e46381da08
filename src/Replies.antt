-- ===== src/Replies.antt =====
-- A module's replies as python/hmtl/HMTLprotocol.py parses them: `PollHdr`, `MsgHdr.next_hdr` and
-- `msg_to_headers`.
pub mod RoundTrip
mod Tests
use hmtl.Prelude.{
  ℕ, List, [], ◌∷◌, ◌++◌, Bytes, drop, Result, ok, err, exception, type_error, ◌>>=◌, ◌==◌,
  if◌then◌else◌,
}
use hmtl.Struct.{Code, byte, short, unpack_from}
use hmtl.Protocol.Constants.{
  header_fmt, msg_base_len, msg_type_output, msg_type_poll, msg_type_dumpconfig,
}
use hmtl.Protocol.MsgHdr.{MsgHdr, from_data}
use hmtl.Config.{DumpConfig, ConfigHeaderMain, dump_from_data, main_of}

-- `PollHdr.FORMAT`
abbrev pub poll_fmt : List Code
poll_fmt = header_fmt ++ (short ∷ short ∷ byte ∷ [])

-- `PollHdr`: the eight fields of `config_hdr_t`, and three of its own.
pub record PollHdr : Type 0 where
  pub config : ConfigHeaderMain
  pub object_type : ℕ
  pub buffer_size : ℕ
  pub msg_version : ℕ

unfoldable pub poll_of : List ℕ → Result PollHdr
unfolding main_of
poll_of (m ∷ p ∷ h ∷ b ∷ n ∷ f ∷ d ∷ a ∷ t ∷ s ∷ v ∷ []) = do
  c ← main_of (m ∷ p ∷ h ∷ b ∷ n ∷ f ∷ d ∷ a ∷ [])
  ok (record { config = c; object_type = t; buffer_size = s; msg_version = v })
poll_of _ = err type_error

-- `PollHdr.from_data`
unfoldable pub poll_from_data : Bytes → ℕ → Result PollHdr
unfolding poll_of unpack_from
poll_from_data bs offset = do poll_of (← unpack_from poll_fmt bs offset)

-- The header behind the message header.
pub data ReplyHdr : Type 0 where
  poll_reply : PollHdr → ReplyHdr
  dump_reply : DumpConfig → ReplyHdr

-- `MsgHdr.next_hdr`
unfoldable pub next_hdr : MsgHdr → Bytes → Result ReplyHdr
unfolding poll_from_data
next_hdr h bs =
    if h.mtype == msg_type_output
    then err exception
    else (if h.mtype == msg_type_poll
        then (poll_from_data bs msg_base_len >>= λ p. ok (poll_reply p))
        else (if h.mtype == msg_type_dumpconfig
            then (dump_from_data (drop msg_base_len bs) >>= λ c. ok (dump_reply c))
            else err exception))

-- `msg_to_headers`: `next_hdr` returns a header or raises, so that there are always two.
unfoldable pub msg_to_headers : Bytes → Result (MsgHdr × ReplyHdr)
unfolding next_hdr
msg_to_headers bs = do h ← from_data bs; r ← next_hdr h bs; ok (h, r)
