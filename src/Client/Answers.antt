-- ===== src/Client/Answers.antt =====
-- Single answers of python/hmtl/server.py that Client/Exchange puts together: a request that is
-- parsed, and the message that `get_data_msg` returns.
use hmtl.Prelude.{
  ℕ, ◌≡◌, refl, List, [], ◌∷◌, ◌++◌, Bytes, Option, none, some, Bool, true, inl, inr, Bool-cases,
  All, ok,
}
use hmtl.InputBuffer.{InputItem, new_item}
use hmtl.InputBuffer.Frames.{message_item}
use hmtl.Protocol.MsgHdr
use hmtl.Protocol.MsgHdr.{MsgHdr, more_data}
use hmtl.Replies.{ReplyHdr, msg_to_headers}
use hmtl.Serial.{Poll, HmtlSerial, get_message}
use hmtl.Server.{Ended, returned, bytes_item, item, data_check, decode_data, data_loop, leave_with}

-- Nothing that ends the loop of `get_data_msg`: no message, and not late.
abbrev pub IsQuiet : (Bytes → Bool) → ℕ → Poll → Type 0
IsQuiet utf8 limit p = data_check utf8 limit p.got p.checked_at ≡ none

pub data_loop-first :
    (utf8 : Bytes → Bool) (limit : ℕ) (before : List Poll) (p : Poll) (rest : List Poll)
    (out : Ended (Option InputItem)) (s : HmtlSerial)
    → All (IsQuiet utf8 limit) before
    → data_check utf8 limit p.got p.checked_at ≡ some out
    → (data_loop utf8 limit (before ++ (p ∷ rest)) s).0 ≡ out
unfolding data_loop leave_with
data_loop-first utf8 limit [] p rest out s all d = rw (d, data_loop) refl
data_loop-first utf8 limit (q ∷ before) p rest out s (this, all) d =
    rw (this, data_loop)
      (data_loop-first utf8 limit before p rest out (get_message q (before ++ (p ∷ rest)) s) all d)

pub data_check_message :
    (utf8 : Bytes → Bool) (limit : ℕ) (got : Option InputItem) (i : InputItem) (now : ℕ)
    → got ≡ some i
    → i.is_hmtl ≡ true
    → decode_data utf8 i.bytes ≡ ok tt
    → data_check utf8 limit got now ≡ some (returned (some i))
unfolding data_check
data_check_message utf8 limit got i now g m d = rw g (rw (m, d) refl)

pub decode_data-ok :
    (utf8 : Bytes → Bool) (bs : Bytes) (h : MsgHdr × ReplyHdr)
    → msg_to_headers bs ≡ ok h
    → decode_data utf8 bs ≡ ok tt
unfolding decode_data
decode_data-ok utf8 bs h e = elim (Bool-cases (utf8 bs)) [
  | inl u ↦ rw u refl
  | inr u ↦ rw (u, e) refl
]

pub bytes_item_message :
    (now : ℕ) (bs tail : Bytes) (h : MsgHdr)
    → bs ≡ 0xFC ∷ tail
    → MsgHdr.from_data bs ≡ ok h
    → bytes_item bs now ≡ ok (some (item (message_item now bs h)))
unfolding bytes_item new_item
bytes_item_message now bs tail h e p =
    let p' : MsgHdr.from_data (0xFC ∷ tail) ≡ ok h = rw (← e) p in rw e (rw p' refl)
