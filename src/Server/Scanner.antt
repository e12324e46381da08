-- ===== src/Server/Scanner.antt =====
-- `class DeviceScanner` and `class HMTLModule` of python/hmtl/server.py: the thread that polls the
-- addresses and keeps the modules that answered. Printing is left out. Times are in milliseconds.
pub mod Devices
use hmtl.Prelude.{
  ℕ, zero, suc, ◌+◌, List, [], ◌∷◌, Bytes, Option, none, some, Bool, true, false, ◌==◌,
  if◌then◌else◌, Result, ok, err,
}
use hmtl.InputBuffer.{InputItem}
use hmtl.Protocol.MsgHdr.{MsgHdr}
use hmtl.Protocol.Messages.{get_poll_msg}
use hmtl.Replies.{PollHdr, ReplyHdr, poll_reply, dump_reply, msg_to_headers}
use hmtl.Serial.{Value, bytes}
use hmtl.Server.{HmtlServer, Ended, returned, failed, waits, send_data, get_data_msg, scan_timeout}

pub record HmtlModule : Type 0 where
  pub protocol_version : ℕ
  pub hardware_version : ℕ
  pub baud : ℕ
  pub num_outputs : ℕ
  pub flags : ℕ
  pub device_id : ℕ
  pub address : ℕ
  pub object_type : ℕ
  pub buffer_size : ℕ
  pub msg_version : ℕ
  pub active : Bool
  pub last_active : ℕ

-- `HMTLModule.__init__`
unfoldable pub new_module : ℕ → PollHdr → HmtlModule
new_module now p = record {
  protocol_version = p.config.protocol_version;
  hardware_version = p.config.hardware_version;
  baud = p.config.baud;
  num_outputs = p.config.num_outputs;
  flags = p.config.flags;
  device_id = p.config.device_id;
  address = p.config.address;
  object_type = p.object_type;
  buffer_size = p.buffer_size;
  msg_version = p.msg_version;
  active = true;
  last_active = now;
}

-- `set_active`
unfoldable pub set_active : Bool → ℕ → HmtlModule → HmtlModule
set_active false now m = record m { active = false }
set_active true now m = record m { active = true; last_active = now }

-- `update`, which looks at nothing of the poll header.
unfoldable pub update : ℕ → PollHdr → HmtlModule → HmtlModule
unfolding set_active
update now p m = set_active true now m

-- The dict of the devices, in the order in which they were found.
abbrev pub Devices : Type 0
Devices = List (ℕ × HmtlModule)

-- `devices.get(address)`
unfoldable pub find : ℕ → Devices → Option HmtlModule
find address [] = none
find address ((a, m) ∷ ds) = let rest = find address ds in if a == address then some m else rest

-- `devices[address] = m`, or the change of the object that is there.
unfoldable pub store : ℕ → HmtlModule → Devices → Devices
store address m [] = (address, m) ∷ []
store address m ((a, old) ∷ ds) =
    let rest = store address m ds in if a == address then (a, m) ∷ ds else (a, old) ∷ rest

unfoldable pub on_known : ℕ → ℕ → PollHdr → Option HmtlModule → Devices → Devices
unfolding store update new_module
on_known now address p none ds = store address (new_module now p) ds
on_known now address p (some m) ds = store address (update now p m) ds

-- A message was received, and `decode_msg` parsed it, or raised.
unfoldable pub on_decoded : ℕ → ℕ → Result (MsgHdr × ReplyHdr) → Devices → Devices
unfolding on_known find
on_decoded now address (err e) ds = ds
on_decoded now address (ok (h, poll_reply p)) ds = on_known now address p (find address ds) ds
on_decoded now address (ok (h, dump_reply c)) ds = ds

unfoldable pub on_missing : ℕ → ℕ → Option HmtlModule → Devices → Devices
unfolding store set_active
on_missing now address none ds = ds
on_missing now address (some m) ds = store address (set_active false now m) ds

-- What `get_data_msg` returned for `address`.
unfoldable pub on_answer : ℕ → ℕ → Ended (Option InputItem) → Devices → Devices
unfolding on_decoded on_missing msg_to_headers
on_answer now address (returned (some i)) ds = on_decoded now address (msg_to_headers i.bytes) ds
on_answer now address (returned none) ds = on_missing now address (find address ds) ds
on_answer now address (failed e) ds = ds
on_answer now address waits ds = ds

pub record DeviceScanner : Type 0 where
  pub server : HmtlServer
  pub devices : Devices

-- `address_range`, from 120 on.
unfoldable pub addresses : ℕ → ℕ → List ℕ
addresses from zero = []
addresses from (suc count) = from ∷ addresses (from + 1) count

abbrev pub address_range : List ℕ
unfolding addresses
address_range = addresses 120 30

-- `sent_at`, `asked_at` and `handled_at` are the clock in the round of an address.
module _ (write transmit : Value → Result (Unit {0})) (utf8 : Bytes → Bool)
    (sent_at asked_at handled_at : ℕ → ℕ) where
  -- Behind `self.server.send_data(msg)`; true if the round ends.
  unfoldable pub after_send : ℕ → Devices → Ended (Unit {0}) × HmtlServer → Bool × DeviceScanner
  unfolding get_data_msg on_answer
  after_send address ds (failed e, s) = (true, record { server = s; devices = ds })
  after_send address ds (waits, s) = (false, record { server = s; devices = ds })
  after_send address ds (returned done, s) =
      let (out, s') = get_data_msg utf8 (asked_at address) scan_timeout s in
      (true, record { server = s'; devices = on_answer (handled_at address) address out ds })

  -- The `try` block for the message of an address.
  unfoldable pub poll_address : ℕ → Result Bytes → DeviceScanner → Bool × DeviceScanner
  unfolding after_send send_data
  poll_address address (err e) d = (false, d)
  poll_address address (ok msg) d =
      after_send address d.devices
        (send_data write transmit utf8 (sent_at address) (bytes msg) d.server)

  -- One pass of `run` over the addresses that are left.
  unfoldable pub scan : List ℕ → DeviceScanner → DeviceScanner
  unfolding poll_address get_poll_msg
  scan [] d = d
  scan (address ∷ rest) d =
      let out = poll_address address (get_poll_msg address) d in
      let later = scan rest out.1 in if out.0 then later else out.1
