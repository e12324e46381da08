-- ===== src/Replies/RoundTrip.antt =====
-- Replies packed and parsed.
use hmtl.Prelude.{ℕ, ◌≡◌, refl, List, [], ◌∷◌, ◌++◌, Bytes, drop, drop-append_self, ok}
use hmtl.Struct
use hmtl.Struct.{unpack_from, unpack}
use hmtl.Struct.RoundTrip.{unpack-pack, pack_shape}
use hmtl.Protocol.Constants.{msg_hdr_fmt}
use hmtl.Protocol.MsgHdr
use hmtl.Protocol.MsgHdr.{MsgHdr, from_data, of_fields}
use hmtl.Config.{ConfigHeader, config_pack, output_config, main_of}
use hmtl.Config.RoundTrip.{type_of, dump_from_data-config_pack}
use hmtl.Replies.{
  PollHdr, poll_fmt, poll_of, poll_from_data, poll_reply, dump_reply, next_hdr, msg_to_headers,
}

-- The fields of a poll header, in the order of its format.
abbrev pub poll_fields : PollHdr → List ℕ
poll_fields p =
    let c = p.config in
    c.magic ∷ c.protocol_version ∷ c.hardware_version ∷ c.baud ∷ c.num_outputs ∷ c.flags
    ∷ c.device_id ∷ c.address ∷ p.object_type ∷ p.buffer_size ∷ p.msg_version ∷ []

abbrev hdr_fields : MsgHdr → List ℕ
hdr_fields h = h.startcode ∷ h.crc ∷ h.version ∷ h.length ∷ h.mtype ∷ h.flags ∷ h.address ∷ []

from_data-pack :
    (h : MsgHdr) (hb more : Bytes) → MsgHdr.pack h ≡ ok hb → from_data (hb ++ more) ≡ ok h
unfolding MsgHdr.pack from_data of_fields unpack_from
from_data-pack h hb more e = rw (unpack-pack msg_hdr_fmt (hdr_fields h) hb more e) refl

drop-pack : (h : MsgHdr) (hb more : Bytes) → MsgHdr.pack h ≡ ok hb → drop 8 (hb ++ more) ≡ more
unfolding MsgHdr.pack
drop-pack h hb more e =
    let (size, _) = pack_shape msg_hdr_fmt (hdr_fields h) hb e in
    rw (← size) (drop-append_self hb more)

poll_from_data-pack :
    (p : PollHdr) (hb pb more : Bytes)
    → drop 8 (hb ++ (pb ++ more)) ≡ pb ++ more
    → Struct.pack poll_fmt (poll_fields p) ≡ ok pb
    → poll_from_data (hb ++ (pb ++ more)) 8 ≡ ok p
unfolding poll_from_data unpack_from poll_of main_of
poll_from_data-pack p hb pb more at_eight e =
    rw (at_eight, unpack-pack poll_fmt (poll_fields p) pb more e) refl

-- A packed message header of type POLL and a packed poll header behind it are parsed into just
-- these two, whatever follows.
pub msg_to_headers-poll :
    (h : MsgHdr) (p : PollHdr) (hb pb more : Bytes)
    → MsgHdr.pack h ≡ ok hb
    → h.mtype ≡ 2
    → Struct.pack poll_fmt (poll_fields p) ≡ ok pb
    → msg_to_headers (hb ++ (pb ++ more)) ≡ ok (h, poll_reply p)
unfolding msg_to_headers next_hdr
msg_to_headers-poll h p hb pb more e is_poll e' =
    rw
      (
        from_data-pack h hb (pb ++ more) e,
        poll_from_data-pack p hb pb more (drop-pack h hb (pb ++ more) e) e',
      )
      (rw is_poll refl)

-- A packed message header of type DUMPCONFIG and a packed configuration header under an output
-- header of its own type are parsed into just these.
pub msg_to_headers-config :
    (h : MsgHdr) (c : ConfigHeader) (output : ℕ) (hb cb : Bytes)
    → MsgHdr.pack h ≡ ok hb
    → h.mtype ≡ 0xE0
    → config_pack (type_of c, output) c ≡ ok cb
    → msg_to_headers (hb ++ cb) ≡ ok (h, dump_reply (output_config ((type_of c, output), c)))
unfolding msg_to_headers next_hdr
msg_to_headers-config h c output hb cb e is_dump e' =
    rw (from_data-pack h hb cb e, drop-pack h hb cb e, dump_from_data-config_pack c output cb e')
      (rw is_dump refl)
