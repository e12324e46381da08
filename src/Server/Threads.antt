-- ===== src/Server/Threads.antt =====
-- The two threads of python/hmtl/server.py on the serial port: the loop of `listen` and the
-- `DeviceScanner`. Each calls `send_data` and `get_data_msg`, whose blocks hold `serial_cv`; a
-- step is one that no other thread can come into: to take the lock, to write, or a round of a loop
-- with the message that the port returned.
pub mod Whole
pub mod Atomic
pub mod Progress
mod Tests
use hmtl.Prelude.{
  ℕ, ◌+◌, ◌≡◌, List, [], ◌∷◌, ◌++◌, Bytes, Option, none, some, Bool, false, Result, ok, err, Error,
}
use hmtl.InputBuffer.{InputItem}
use hmtl.Serial.{Value, Poll, HmtlSerial, Confirmed, get_message, confirm_check}
use hmtl.Server.{Ended, failed, of_confirmed, data_check}

pub data Thread : Type 0 where
  listener scanner : Thread

-- `send_data(data)` or `get_data_msg(timeout)`
pub data Job : Type 0 where
  send_call : Value → Job
  data_call : ℕ → Job

-- What such a call returned or raised.
pub data Outcome : Type 0 where
  sent : Ended (Unit {0}) → Outcome
  asked : Ended (Option InputItem) → Outcome

-- A loop in the block: the one of `send_and_confirm` or the one of `get_data_msg`, with the clock
-- at its start.
pub data Loop : Type 0 where
  confirming : Value → ℕ → Loop
  asking : ℕ → ℕ → Loop

-- Where a thread stands: outside of the calls, before `with self.serial_cv`, or in the block,
-- before the write or in a loop.
pub data Place : Type 0 where
  outside : Place
  queued : Job → Place
  writing : Value → ℕ → Place
  reading : Loop → Place

-- A call that ended, with the clock of its loop.
pub record Call : Type 0 where
  pub thread : Thread
  pub job : Job
  pub start : ℕ
  pub outcome : Outcome

-- `log` has, for the record, the calls that ended, the newest first.
pub record Shared : Type 0 where
  pub lock : Option Thread
  pub at_listener : Place
  pub at_scanner : Place
  pub ser : HmtlSerial
  pub log : List Call

abbrev pub fresh : HmtlSerial → Shared
fresh ser = record { lock = none; at_listener = outside; at_scanner = outside; ser = ser; log = [] }

abbrev of_thread : Thread → Place → Place → Place
of_thread listener p q = p
of_thread scanner p q = q

abbrev pub place : Thread → Shared → Place
place t s = of_thread t s.at_listener s.at_scanner

-- Another place for one of them.
unfoldable pub move : Thread → Place → Shared → Shared
move t p s = record s {
  at_listener = of_thread t p s.at_listener;
  at_scanner = of_thread t s.at_scanner p;
}

-- The first statement of the block.
abbrev pub enter : Job → ℕ → Place
enter (send_call v) start = writing v start
enter (data_call timeout) start = reading (asking timeout start)

abbrev pub job_of : Loop → Job
job_of (confirming v start) = send_call v
job_of (asking timeout start) = data_call timeout

abbrev pub start_of : Loop → ℕ
start_of (confirming v start) = start
start_of (asking timeout start) = start

-- The end of the block, by a return or an exception: `with` gives the lock up.
unfoldable pub leave : Thread → Job → ℕ → Outcome → HmtlSerial → Shared → Shared
unfolding move
leave t j start out ser s = record (move t outside s) {
  lock = none;
  ser = ser;
  log = record { thread = t; job = j; start = start; outcome = out } ∷ s.log;
}

abbrev on_confirmed : Option Confirmed → Option Outcome
on_confirmed none = none
on_confirmed (some c) = some (sent (of_confirmed c))

abbrev on_asked : Option (Ended (Option InputItem)) → Option Outcome
on_asked none = none
on_asked (some out) = some (asked out)

-- A round of a loop with what `get_message` returned, if it ends the call.
unfoldable pub check : (Bytes → Bool) → Loop → Poll → Option Outcome
unfolding confirm_check data_check of_confirmed
check utf8 (confirming v start) p = on_confirmed (confirm_check start 10000 p.got p.checked_at)
check utf8 (asking timeout start) p =
    on_asked (data_check utf8 (start + timeout) p.got p.checked_at)

module _ (write : Value → Result (Unit {0})) (utf8 : Bytes → Bool) where
  pub data Step : Shared → Shared → Type 0 where
    call : (t : Thread) (j : Job) (s : Shared) → place t s ≡ outside → Step s (move t (queued j) s)
    acquire :
        (t : Thread) (j : Job) (start : ℕ) (s : Shared)
        → place t s ≡ queued j
        → s.lock ≡ none
        → Step s (record (move t (enter j start) s) { lock = some t })
    written :
        (t : Thread) (v : Value) (start : ℕ) (s : Shared)
        → place t s ≡ writing v start
        → write v ≡ ok tt
        → Step s (record (move t (reading (confirming v start)) s) {
          ser = record s.ser { written = s.ser.written ++ (v ∷ []) };
        })
    refused :
        (t : Thread) (v : Value) (start : ℕ) (e : Error) (s : Shared)
        → place t s ≡ writing v start
        → write v ≡ err e
        → Step s (leave t (send_call v) start (sent (failed e)) s.ser s)
    again :
        (t : Thread) (l : Loop) (p : Poll) (ps : List Poll) (s : Shared)
        → place t s ≡ reading l
        → s.ser.incoming ≡ p ∷ ps
        → check utf8 l p ≡ none
        → Step s (record s { ser = get_message p ps s.ser })
    leaves :
        (t : Thread) (l : Loop) (out : Outcome) (p : Poll) (ps : List Poll) (s : Shared)
        → place t s ≡ reading l
        → s.ser.incoming ≡ p ∷ ps
        → check utf8 l p ≡ some out
        → Step s (leave t (job_of l) (start_of l) out (get_message p ps s.ser) s)

  pub data Reach (s : Shared) : Shared → Type 0 where
    here : Reach s s
    next : {t u : Shared} → Reach s t → Step t u → Reach s u
