-- ===== src/Replies/Tests.antt =====
-- One poll reply and one dumped output.
use hmtl.Prelude.{◌≡◌, refl, [], ◌∷◌, ◌++◌, Bytes, ok}
use hmtl.Protocol.MsgHdr.{MsgHdr}
use hmtl.Struct
use hmtl.Protocol.MsgHdr
use hmtl.Replies.{PollHdr, poll_reply, msg_to_headers}
use hmtl.Replies.RoundTrip.{msg_to_headers-poll}

abbrev poll_msg : MsgHdr
poll_msg = record {
  startcode = 0xFC;
  crc = 0;
  version = 2;
  length = 23;
  mtype = 2;
  flags = 1;
  address = 0;
}

abbrev poll_msg_bytes : Bytes
poll_msg_bytes = 0xFC ∷ 0 ∷ 2 ∷ 23 ∷ 2 ∷ 1 ∷ 0 ∷ 0 ∷ []

abbrev module_poll : PollHdr
module_poll = record {
  config = record {
    magic = 0x5C;
    protocol_version = 2;
    hardware_version = 1;
    baud = 8;
    num_outputs = 4;
    flags = 0;
    device_id = 7;
    address = 258;
  };
  object_type = 1;
  buffer_size = 64;
  msg_version = 2;
}

abbrev poll_body : Bytes
poll_body = 0x5C ∷ 2 ∷ 1 ∷ 8 ∷ 4 ∷ 0 ∷ 7 ∷ 0 ∷ 2 ∷ 1 ∷ 1 ∷ 0 ∷ 64 ∷ 0 ∷ 2 ∷ []

abbrev dump_msg : MsgHdr
dump_msg = record poll_msg { mtype = 0xE0; length = 12 }

abbrev dump_msg_bytes : Bytes
dump_msg_bytes = 0xFC ∷ 0 ∷ 2 ∷ 12 ∷ 0xE0 ∷ 1 ∷ 0 ∷ 0 ∷ []

msg_to_headers-poll_example :
    msg_to_headers (poll_msg_bytes ++ (poll_body ++ [])) ≡ ok (poll_msg, poll_reply module_poll)
unfolding MsgHdr.pack Struct.pack
msg_to_headers-poll_example =
    msg_to_headers-poll poll_msg module_poll poll_msg_bytes poll_body [] refl refl refl
