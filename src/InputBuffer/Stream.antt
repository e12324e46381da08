-- ===== src/InputBuffer/Stream.antt =====
-- The thread of the reader on a whole stream: `run` of python/hmtl/InputBuffer.py over messages and
-- text lines, one behind the other.
use hmtl.Prelude.{
  ℕ, ◌+◌, ◌≡◌, ◌∙◌, refl, ap, List, [], ◌∷◌, ◌++◌, Bytes, length, map, last_n, All, Option, none,
  some, false, Error, ◌<◌,
}
use hmtl.CircularBuffer
use hmtl.CircularBuffer.{CircularBuffer}
use hmtl.CircularBuffer.History.{put_all, put_all-new_buffer}
use hmtl.Protocol.Frame.{IsFrame}
use hmtl.InputBuffer.{Reader, InputItem, new_item, emit, on_outcome, run}
use hmtl.InputBuffer.Rounds.{reading, spread}
use hmtl.InputBuffer.Frames.{FewGaps, bytes_of, message_item, queued, header_of, read_item-frame}
use hmtl.InputBuffer.Lines.{IsPlain, strip, text, read_item-line, Supplies-unread}

-- A part of the stream: a message, whose bytes behind the first arrive each behind a number of empty
-- reads, or a line, without its newline.
pub data Piece : Type 0 where
  message : (bs : Bytes) → IsFrame bs → List (ℕ × ℕ) → Piece
  line : Bytes → Piece

-- Few empty reads in a row, and the bytes are the message's; no start code and no newline.
abbrev pub IsPiece : Piece → Type 0
IsPiece (message bs f rest) = FewGaps rest × (0xFC ∷ bytes_of rest ≡ bs)
IsPiece (line l) = All IsPlain l

-- What the reader's source returns, piece by piece.
abbrev pub stream : List Piece → List (Option ℕ) → List (Option ℕ)
stream [] more = more
stream (message bs f rest ∷ ps) more = some 0xFC ∷ spread rest (stream ps more)
stream (line l ∷ ps) more = map some (l ++ (b'\n' ∷ [])) ++ stream ps more

abbrev pub line_items : ℕ → Bytes → List InputItem
line_items now [] = []
line_items now (b ∷ bs) =
    record { bytes = b ∷ bs; timestamp = now; is_hmtl = false; hdr = none } ∷ []

-- The items that the pieces are: a message under its header, and a line without its carriage
-- returns, if anything is left.
abbrev pub items : List (ℕ × Piece) → List InputItem
items [] = []
items ((now, message bs f rest) ∷ ps) = message_item now bs (header_of f) ∷ items ps
items ((now, line l) ∷ ps) = line_items now (strip l) ++ items ps

abbrev pub pieces : List (ℕ × Piece) → List Piece
pieces = map (λ (p : ℕ × Piece). p.1)

abbrev pub times : List (ℕ × Piece) → List ℕ
times = map (λ (p : ℕ × Piece). p.0)

-- The reader behind the stream: what is left, and the queue.
pub record HasRead (more : List (Option ℕ)) (q : CircularBuffer InputItem) (s : Reader)
    : Type 0 where
  pub no_pushback : s.pushback ≡ []
  pub source_left : s.source ≡ more
  pub queue : s.buff ≡ q

abbrev Reads : List (Option ℕ) → CircularBuffer InputItem → Option Error × Reader → Type 0
Reads more q out = (out.0 ≡ none) × HasRead more q out.1

run-message :
    (now t : ℕ) (rest_times : List ℕ) (s : Reader) (bs : Bytes) (f : IsFrame bs)
    (rest : List (ℕ × ℕ)) (more : List (Option ℕ))
    → FewGaps rest
    → 0xFC ∷ bytes_of rest ≡ bs
    → run (now ∷ rest_times) (reading s (some 0xFC ∷ spread rest more) t)
      ≡ run rest_times
          (reading (queued now (message_item now bs (header_of f)) s) more (t + length bs))
unfolding run
run-message now t rest_times s bs f rest more few e =
    ap (on_outcome (run rest_times)) (read_item-frame now t s bs f rest more few e)
    ∙ unfold on_outcome in refl

-- The reader behind a line whose text is `bs`.
abbrev lined : ℕ → Bytes → Reader → Reader
lined now [] s = s
lined now (b ∷ bs) s = record s {
  last_received = now;
  buff = put_all (line_items now (b ∷ bs)) s.buff;
}

lined-buff :
    (now : ℕ) (bs : Bytes) (s : Reader) → (lined now bs s).buff ≡ put_all (line_items now bs) s.buff
lined-buff now [] s = refl
lined-buff now (b ∷ bs) s = refl

on_emit :
    (now t : ℕ) (bs : Bytes) (next : Reader → Option Error × Reader) (s : Reader)
    (more : List (Option ℕ))
    → on_outcome next (emit now (text bs 0) (reading s more t))
      ≡ next (reading (lined now bs s) more t)
unfolding on_outcome emit new_item
on_emit now t [] next s more = refl
on_emit now t (b ∷ bs) next s more = refl

run-line :
    (now t : ℕ) (rest_times : List ℕ) (s : Reader) (l : Bytes) (more : List (Option ℕ))
    → All IsPlain l
    → run (now ∷ rest_times) (reading s (map some (l ++ (b'\n' ∷ [])) ++ more) t)
      ≡ run rest_times (reading (lined now (strip l) s) more (t + length (l ++ (b'\n' ∷ []))))
unfolding run
run-line now t rest_times s l more plain =
    let ended : Bytes = l ++ (b'\n' ∷ []) in
    ap (on_outcome (run rest_times)) (
      read_item-line now l _ (reading s more (t + length ended)) plain
        (Supplies-unread [] ended s more t))
    ∙ on_emit now (t + length ended) (strip l) (run rest_times) s more

put_all-append :
    (xs ys : List InputItem) (q : CircularBuffer InputItem)
    → put_all (xs ++ ys) q ≡ put_all ys (put_all xs q)
put_all-append [] ys q = refl
put_all-append (x ∷ xs) ys q = put_all-append xs ys (CircularBuffer.put x q)

run-Reads :
    (ps : List (ℕ × Piece)) (t : ℕ) (s : Reader) (more : List (Option ℕ))
    → All IsPiece (pieces ps)
    → Reads more
        (put_all (items ps) s.buff)
        (run (times ps) (reading s (stream (pieces ps) more) t))
run-Reads [] t s more h =
    unfold run in (refl, record { no_pushback = refl; source_left = refl; queue = refl })
run-Reads ((now, message bs f rest) ∷ ps) t s more h =
    rw (run-message now t (times ps) s bs f rest (stream (pieces ps) more) h.0.0 h.0.1)
      (run-Reads ps (t + length bs) (queued now (message_item now bs (header_of f)) s) more h.1)
run-Reads ((now, line l) ∷ ps) t s more h =
    let s' : Reader = lined now (strip l) s in
    rw
      (
        run-line now t (times ps) s l (stream (pieces ps) more) h.0,
        put_all-append (line_items now (strip l)) (items ps) s.buff,
        ← lined-buff now (strip l) s,
      )
      (run-Reads ps (t + length (l ++ (b'\n' ∷ []))) s' more h.1)

-- A reader with an empty queue of at least one place, and nothing pushed back, on a stream of
-- messages and lines: `run` raises nothing in the rounds for them and takes exactly their bytes, and
-- the queue then holds the last items of the stream, as many as it has places: a message whole
-- under its header, a line without its carriage returns, and nothing for an empty line. At most
-- five reads in a row are empty inside a message, and none inside a line, which has no start code.
pub run-items :
    (ps : List (ℕ × Piece)) (t limit : ℕ) (s : Reader) (more : List (Option ℕ))
    → 0 < limit
    → s.buff ≡ CircularBuffer.new limit
    → All IsPiece (pieces ps)
    → ((run (times ps) (reading s (stream (pieces ps) more) t)).0 ≡ none)
      × HasRead more
          (record { limit = limit; items = last_n limit (items ps) })
          (run (times ps) (reading s (stream (pieces ps) more) t)).1
run-items ps t limit s more room empty h =
    let (fine, read) = run-Reads ps t s more h in
    (
      fine,
      record {
        no_pushback = read.no_pushback;
        source_left = read.source_left;
        queue =
            read.queue ∙ ap (put_all (items ps)) empty ∙ put_all-new_buffer limit (items ps) room;
      },
    )
