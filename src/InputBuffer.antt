-- ===== src/InputBuffer.antt =====
-- `class InputBuffer` of python/hmtl/InputBuffer.py: frames the byte stream of a reader into
-- text lines and HMTL messages. The reader is the bytes one of SerialBuffer and SocketBuffer.
-- Logging is left out. `time.time()` is an argument.
pub mod Step
pub mod Total
pub mod Rounds
pub mod Frames
pub mod Lines
pub mod Resync
pub mod Stream
mod Tests
use hmtl.Prelude.{
  ℕ, zero, suc, ◌+◌, ◌*◌, ◌-◌, List, [], ◌∷◌, ◌++◌, Bytes, length, drop, Option, none, some, Bool,
  true, false, not, ◌&&◌, leb, ◌==◌, if◌then◌else◌, Result, ok, err, Error, ◌>>=◌,
}
use hmtl.CircularBuffer
use hmtl.CircularBuffer.{CircularBuffer}
use hmtl.Protocol.MsgHdr
use hmtl.Protocol.MsgHdr.{MsgHdr, start_code, protocol_version}
use hmtl.Protocol.Constants.{msg_base_len}

abbrev pub max_hmtl_msg_len : ℕ
max_hmtl_msg_len = 255

abbrev pub max_partial_frame_reads : ℕ
max_partial_frame_reads = 5

pub record InputItem : Type 0 where
  pub bytes : Bytes
  pub timestamp : ℕ
  pub is_hmtl : Bool
  pub hdr : Option MsgHdr

-- `InputItem.__init__`: a message is parsed for its header, and a short one raises.
unfoldable pub new_item : Bytes → ℕ → Bool → Result InputItem
new_item bs timestamp false =
    ok (record { bytes = bs; timestamp = timestamp; is_hmtl = false; hdr = none })
new_item bs timestamp true = do
  h ← MsgHdr.from_data bs
  ok (record { bytes = bs; timestamp = timestamp; is_hmtl = true; hdr = some h })

-- The object's fields, and `source`: what `self.read(1)` is going to return, call by call. `none`
-- is an empty read, and behind the end of the list every read is empty.
pub record Reader : Type 0 where
  pub pushback : Bytes
  pub source : List (Option ℕ)
  pub total_received : ℕ
  pub last_received : ℕ
  pub buff : CircularBuffer InputItem

read_source : List (Option ℕ) → Reader → Option ℕ × Reader
read_source [] s = (none, s)
read_source (none ∷ src) s = (none, record s { source = src })
read_source (some b ∷ src) s =
    (some b, record s { source = src; total_received = s.total_received + 1 })

read_pushback : Bytes → Reader → Option ℕ × Reader
unfolding read_source
read_pushback [] s = read_source s.source s
read_pushback (b ∷ bs) s = (some b, record s { pushback = bs })

-- `_read_unit`
unfoldable pub read_unit : Reader → Option ℕ × Reader
unfolding read_pushback
read_unit s = read_pushback s.pushback s

-- `_rewind`
unfoldable pub rewind : Bytes → Reader → Reader
rewind bs s = record s { pushback = bs ++ s.pushback }

-- `_valid_hmtl_header`
unfoldable pub valid_hmtl_header : MsgHdr → Bool
valid_hmtl_header h =
    (h.version == protocol_version) && (leb msg_base_len h.length && leb h.length max_hmtl_msg_len)

-- `_frame_complete`
unfoldable pub frame_complete : Bytes → Option MsgHdr → Bool
frame_complete bs none = false
frame_complete bs (some h) = leb h.length (length bs)

-- The local variables of `_read_item`.
pub record Scan : Type 0 where
  pub bytes : Bytes
  pub is_hmtl : Bool
  pub hdr : Option MsgHdr
  pub empty_reads : ℕ

abbrev pub fresh : Scan
fresh = record { bytes = []; is_hmtl = false; hdr = none; empty_reads = 0 }

-- How one round of the loop ends: `continue` (or the end of the body), `break`, `return None`, or
-- an exception.
pub data Next : Type 0 where
  again leave : Scan → Next
  give_up : Next
  raised : Error → Next

-- `if hdr: if len(data) >= hdr.length: break`
unfoldable pub end_of_message : Scan → Next
unfolding frame_complete
end_of_message d = if frame_complete d.bytes d.hdr then leave d else again d

-- A header has been parsed out of the first eight bytes.
unfoldable pub check_header : Scan → Result MsgHdr → Reader → Next × Reader
unfolding valid_hmtl_header end_of_message rewind
check_header d (err e) s = (raised e, s)
check_header d (ok h) s =
    if valid_hmtl_header h
    then (end_of_message (record d { hdr = some h }), s)
    else (again fresh, rewind (drop 1 d.bytes) s)

-- A byte of a message.
unfoldable pub on_message_byte : ℕ → Scan → Reader → Next × Reader
unfolding check_header end_of_message
on_message_byte c d s =
    let d' : Scan = record d { bytes = d.bytes ++ (c ∷ []) } in
    if length d'.bytes == msg_base_len
    then check_header d' (MsgHdr.from_data d'.bytes) s
    else (end_of_message d', s)

-- A byte of text.
unfoldable pub on_text_byte : ℕ → Scan → Next
on_text_byte c d =
    if c == b'\r'
    then again d
    else (if c == b'\n' then leave d else again (record d { bytes = d.bytes ++ (c ∷ []) }))

-- A start code outside a message: text before it is emitted first.
unfoldable pub on_start_code : ℕ → Scan → Reader → Next × Reader
unfolding on_message_byte rewind
on_start_code c d s = elim d.bytes [
  | [] ↦ on_message_byte c (record d { is_hmtl = true }) s
  | b ∷ bs ↦ (leave d, rewind (c ∷ []) s)
]

unfoldable pub on_byte : ℕ → Scan → Reader → Next × Reader
unfolding on_start_code on_message_byte on_text_byte
on_byte c d s =
    if d.is_hmtl
    then on_message_byte c d s
    else (if c == start_code then on_start_code c d s else (on_text_byte c d, s))

-- The source ran dry: a partial message is waited for, then given up but for its first byte.
unfoldable pub on_empty : Scan → Reader → Next × Reader
unfolding rewind frame_complete
on_empty d s =
    if d.is_hmtl && not (frame_complete d.bytes d.hdr)
    then (if leb (d.empty_reads + 1) max_partial_frame_reads
        then (again (record d { empty_reads = d.empty_reads + 1 }), s)
        else (give_up, rewind (drop 1 d.bytes) s))
    else (leave d, s)

-- One round of the `while` loop of `_read_item`.
unfoldable pub on_read : Option ℕ → Scan → Reader → Next × Reader
unfolding on_empty on_byte
on_read none d s = on_empty d s
on_read (some c) d s = on_byte c (record d { empty_reads = 0 }) s

unfoldable pub step : Scan → Reader → Next × Reader
unfolding on_read read_unit
step d s = let (c, s') = read_unit s in on_read c d s'

-- What `_read_item` returns. `stuck` is no Python value: the model's loop ran out of fuel.
pub data Outcome : Type 0 where
  item : InputItem → Outcome
  nothing : Outcome
  raises : Error → Outcome
  stuck : Outcome

emit_item : ℕ → Result InputItem → Reader → Outcome × Reader
emit_item now (err e) s = (raises e, record s { last_received = now })
emit_item now (ok i) s =
    (item i, record s { last_received = now; buff = CircularBuffer.put i s.buff })

-- Behind the loop: an item is queued if there is data.
unfoldable pub emit : ℕ → Scan → Reader → Outcome × Reader
unfolding emit_item new_item
emit now d s = elim d.bytes [
  | [] ↦ (nothing, s)
  | b ∷ bs ↦ emit_item now (new_item d.bytes now d.is_hmtl) s
]

-- What follows a round: `next` is the rest of the loop.
unfoldable pub resume : (Scan → Reader → Outcome × Reader) → ℕ → Next × Reader → Outcome × Reader
resume next now (again d, s) = next d s
resume next now (leave d, s) = emit now d s
resume next now (give_up, s) = (nothing, s)
resume next now (raised e, s) = (raises e, s)

unfoldable pub loop : ℕ → ℕ → Scan → Reader → Outcome × Reader
unfolding resume
loop zero now d s = (stuck, s)
loop (suc fuel) now d s = resume (loop fuel now) now (step d s)

-- What is still to be read, pushed-back bytes included.
abbrev pub unread : Reader → ℕ
unread s = length s.pushback + length s.source

-- Every round lowers this: see InputBuffer/Total.
abbrev pub measure : Scan → Reader → ℕ
measure d s = 63 * unread s + 56 * length d.bytes + (6 - d.empty_reads)

-- `_read_item`
unfoldable pub read_item : ℕ → Reader → Outcome × Reader
read_item now s = loop (suc (measure fresh s)) now fresh s

-- What follows an item in `run`: an exception of `_read_item` ends the thread.
unfoldable pub on_outcome :
    (Reader → Option Error × Reader) → Outcome × Reader → Option Error × Reader
on_outcome next (item i, s) = next s
on_outcome next (nothing, s) = next s
on_outcome next (raises e, s) = (some e, s)
on_outcome next (stuck, s) = (none, s)

-- The loop of `run`, for the clock's reading in each round, with the exception that ended it.
unfoldable pub run : List ℕ → Reader → Option Error × Reader
unfolding on_outcome read_item
run [] s = (none, s)
run (now ∷ times) s = on_outcome (run times) (read_item now s)
