-- ===== src/InputBuffer/Tests.antt =====
-- Runs of `_read_item` on concrete bytes, and the theorems about it at such inputs.
use hmtl.Prelude.{ℕ, ◌≡◌, refl, List, [], ◌∷◌, ◌++◌, Bytes, map, none, some, ok, arith}
use hmtl.CircularBuffer
use hmtl.Protocol.MsgHdr.{MsgHdr, from_data}
use hmtl.Protocol.MsgHdr.Parse.{hdr_of}
use hmtl.Protocol.Messages.{get_poll_msg}
use hmtl.Protocol.Frame.{Request, build, IsFrame, build-IsFrame}
use hmtl.InputBuffer.{
  Reader, InputItem, item, emit, read_item, loop, step, rewind, valid_hmtl_header,
}
use hmtl.InputBuffer.Total.{Finishes, read_item-Finishes}
use hmtl.InputBuffer.Rounds.{reading, spread}
use hmtl.InputBuffer.Frames.{message_item, queued, read_item-build}
use hmtl.InputBuffer.Lines.{Supplies-unread}
use hmtl.InputBuffer.Resync.{ready_line, ready_hdr, read_item-false_start}
use hmtl.InputBuffer.Stream.{Piece, message, line, stream, HasRead, items, run-items}
use hmtl.InputBuffer.{run}
use hmtl.Prelude.{last_n}

abbrev idle : Reader
idle = record {
  pushback = [];
  source = [];
  total_received = 0;
  last_received = 0;
  buff = CircularBuffer.new 1000;
}

-- get_poll_msg(72), cut in two by three empty reads.
abbrev poll_bytes : Bytes
poll_bytes = 0xFC ∷ 0 ∷ 2 ∷ 8 ∷ 2 ∷ 2 ∷ 72 ∷ 0 ∷ []

abbrev poll_rest : List (ℕ × ℕ)
poll_rest = (0, 0) ∷ (0, 2) ∷ (3, 8) ∷ (0, 2) ∷ (0, 2) ∷ (5, 72) ∷ (0, 0) ∷ []

poll_built : build (Request.poll 72) ≡ ok poll_bytes
unfolding build get_poll_msg
poll_built = refl

abbrev poll_item : InputItem
poll_item = message_item 5 poll_bytes (hdr_of 0xFC 0 2 8 2 2 72 0)

-- A run of the whole model on the bytes of that message.
run_poll : (read_item 5 (reading idle (some 0xFC ∷ spread poll_rest []) 0)).0 ≡ item poll_item
unfolding read_item loop step emit from_data CircularBuffer.put
run_poll = refl

poll-IsFrame : IsFrame poll_bytes
poll-IsFrame = build-IsFrame (Request.poll 72) poll_bytes poll_built

build-IsFrame_example : IsFrame poll_bytes
build-IsFrame_example = build-IsFrame (Request.poll 72) poll_bytes poll_built

read_item-Finishes_example :
    Finishes 3
      (CircularBuffer.new 1000)
      (read_item 5 (reading idle (some 0xFC ∷ none ∷ some 7 ∷ []) 0))
read_item-Finishes_example = read_item-Finishes 5 (reading idle (some 0xFC ∷ none ∷ some 7 ∷ []) 0)

read_item-build_example :
    (h : MsgHdr) × (from_data poll_bytes ≡ ok h)
    × (read_item 5 (reading idle (some 0xFC ∷ spread poll_rest []) 0) ≡ (
      item (message_item 5 poll_bytes h),
      queued 5 (message_item 5 poll_bytes h) (reading idle [] 8),
    ))
read_item-build_example =
    read_item-build (Request.poll 72) 5 0 idle poll_bytes poll_rest [] poll_built (omega arith) refl

read_item-false_start_example :
    read_item 5 (reading idle (map some (0xFC ∷ ready_line) ++ []) 0)
    ≡ read_item 5 (rewind ready_line (reading idle [] 8))
unfolding from_data valid_hmtl_header
read_item-false_start_example =
    read_item-false_start 5 b'\n' (b'r' ∷ b'e' ∷ b'a' ∷ b'd' ∷ b'y' ∷ b'\r' ∷ []) _ _ ready_hdr refl
      (Supplies-unread [] (0xFC ∷ ready_line) idle [] 0) refl refl

-- A line, a message in two pieces, and a line with nothing on it, for a queue of one place.
abbrev arriving : List (ℕ × Piece)
arriving =
    (1, line (b'o' ∷ b'k' ∷ b'\r' ∷ []))
    ∷ (2, message poll_bytes poll-IsFrame poll_rest)
    ∷ (3, line (b'\r' ∷ []))
    ∷ []

abbrev small : Reader
small = record {
  pushback = [];
  source = [];
  total_received = 0;
  last_received = 0;
  buff = CircularBuffer.new 1;
}

run-items_example :
    ((run
        (1 ∷ 2 ∷ 3 ∷ [])
        (reading small (stream (map (λ (p : ℕ × Piece). p.1) arriving) (some 7 ∷ [])) 0)).0
      ≡ none)
    × HasRead
        (some 7 ∷ [])
        (record { limit = 1; items = last_n 1 (items arriving) })
        (run
          (1 ∷ 2 ∷ 3 ∷ [])
          (reading small (stream (map (λ (p : ℕ × Piece). p.1) arriving) (some 7 ∷ [])) 0)).1
run-items_example =
    run-items arriving 0 1 small (some 7 ∷ []) (omega arith) refl
      (omega arith, ((omega arith, refl), omega arith))
