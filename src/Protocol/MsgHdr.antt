-- ===== src/Protocol/MsgHdr.antt =====
-- `class MsgHdr` of python/hmtl/HMTLprotocol.py: the eight bytes that every message starts with.
pub mod Parse
use hmtl.Prelude.{ℕ, List, [], ◌∷◌, Bytes, Result, ok, err, type_error, ◌>>=◌, Bool, ◌==◌, ◌%◌, ◌/◌}
use hmtl.Struct
use hmtl.Struct.{unpack_from}
use hmtl.Protocol.Constants.{msg_hdr_fmt, msg_flag_more_data}

pub record MsgHdr : Type 0 where
  pub startcode : ℕ
  pub crc : ℕ
  pub version : ℕ
  pub length : ℕ
  pub mtype : ℕ
  pub flags : ℕ
  pub address : ℕ

abbrev pub start_code : ℕ
start_code = 0xFC

abbrev pub protocol_version : ℕ
protocol_version = 2

-- `MsgHdr(length=…, mtype=…, address=…)`: the other fields have their defaults.
abbrev pub new : ℕ → ℕ → ℕ → MsgHdr
new len mtype address = record {
  startcode = start_code;
  crc = 0;
  version = protocol_version;
  length = len;
  mtype = mtype;
  flags = 0;
  address = address;
}

-- `cls(*header)`: seven arguments after `self`.
unfoldable pub of_fields : List ℕ → Result MsgHdr
of_fields (s ∷ c ∷ v ∷ l ∷ t ∷ f ∷ a ∷ []) =
    ok (record {
      startcode = s;
      crc = c;
      version = v;
      length = l;
      mtype = t;
      flags = f;
      address = a;
    })
of_fields _ = err type_error

-- `Msg.from_data`, at offset 0.
unfoldable pub from_data : Bytes → Result MsgHdr
unfolding of_fields unpack_from
from_data bs = do of_fields (← unpack_from msg_hdr_fmt bs 0)

unfoldable pub pack : MsgHdr → Result Bytes
unfolding Struct.pack
pack h =
    Struct.pack msg_hdr_fmt
      (h.startcode ∷ h.crc ∷ h.version ∷ h.length ∷ h.mtype ∷ h.flags ∷ h.address ∷ [])

-- `self.flags & MSG_FLAG_MORE_DATA`, whose value is used as a truth value: bit 2 of the flags.
unfoldable pub more_data : MsgHdr → Bool
more_data h = (h.flags / msg_flag_more_data) % 2 == 1
