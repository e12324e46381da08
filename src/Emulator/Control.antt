-- ===== src/Emulator/Control.antt =====
-- The control port and the message port of python/hmtl/emulator/emulator.py.
use hmtl.Prelude.{ℕ, List, [], ◌∷◌, Bytes, Option, none, some, Result, ok, err, Error}
use hmtl.Serial.{Value, bytes, str, nothing}
use hmtl.Emulator.Outputs.{OutputState}
use hmtl.Emulator.Device.{Emulator}
use hmtl.Emulator.Handle.{handle_bytes}
use hmtl.Emulator.Ticks.{advance, get_state, reset}

-- A command as `json.loads` gives it. `bytes.fromhex(cmd["data"])` and `int(cmd["ms"])` are
-- Python's: the value, or what they raise. `unknown` is any other name, or none.
pub data Command : Type 0 where
  send_hmtl : Result Bytes → Command
  advance_by : Result ℕ → Command
  get : Command
  reset_all : Command
  unknown : Command

-- The dict that is sent back: `"ok"` is true in the first two.
pub data Response : Type 0 where
  done : Response
  snapshot : ℕ → List OutputState → Response
  failed : Response

-- `_handle_control_cmd`, with the exceptions that `_control_client_handler` turns into an answer.
unfoldable pub handle_control_cmd : Command → Emulator → Response × Emulator
handle_control_cmd (send_hmtl (err e)) em = (failed, em)
handle_control_cmd (send_hmtl (ok raw)) em = elim (handle_bytes raw em) [
  | ok em' ↦ (done, em')
  | err e ↦ (failed, em)
]
handle_control_cmd (advance_by (err e)) em = (failed, em)
handle_control_cmd (advance_by (ok ms)) em =
    let (r, em') = advance ms em in elim r [ ok u ↦ (done, em') | err e ↦ (failed, em') ]
handle_control_cmd get em = let (address, outputs) = get_state em in (snapshot address outputs, em)
handle_control_cmd reset_all em = (done, reset em)
handle_control_cmd unknown em = (failed, em)

-- A session on the control port: the commands in turn, and the answers.
unfoldable pub session : List Command → Emulator → List Response × Emulator
session [] em = ([], em)
session (c ∷ cs) em =
    let (r, em') = handle_control_cmd c em in let (rs, em'') = session cs em' in (r ∷ rs, em'')

-- What `handle_bytes` comes to in `_hmtl_client_handler`: the rest of the loop, or its end.
unfoldable pub on_handled :
    (Emulator → Option Error × Emulator) → Emulator → Result Emulator → Option Error × Emulator
on_handled next em (err e) = (some e, em)
on_handled next em (ok em') = next em'

-- `_hmtl_client_handler`, for what is received until the end of the connection, with the exception
-- that ended it before.
unfoldable pub client_handler : List Value → Emulator → Option Error × Emulator
unfolding on_handled handle_bytes
client_handler [] em = (none, em)
client_handler (bytes bs ∷ more) em = on_handled (client_handler more) em (handle_bytes bs em)
client_handler (str w ∷ more) em = client_handler more em
client_handler (nothing ∷ more) em = client_handler more em
