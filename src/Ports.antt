-- ===== src/Ports.antt =====
-- The opening of a serial port in python/hmtl/SerialBuffer.py, and the choice of one in
-- python/hmtl/portscan.py. pyserial, termios, regular expressions and `int` are parameters.
pub mod Opening
pub mod Choosing
mod Tests
use hmtl.Prelude.{
  ℕ, zero, suc, ◌+◌, ◌-◌, List, [], ◌∷◌, ◌++◌, Bytes, length, get_elem?, Option, none, some, Bool,
  true, false, not, ◌&&◌, ◌||◌, ltb, leb, ◌==◌, if◌then◌else◌, Result, ok, err, Error, ◌>>=◌,
}
use Prim.Native.String.{String}
use text.Mathlib.Text.{◌==◌ as str_eq}

-- The modem lines of a port; `true` is asserted.
pub record Lines : Type 0 where
  pub dtr : Bool
  pub rts : Bool

-- The attributes of `serial.Serial` that `_open_port` sets.
pub record Port : Type 0 where
  pub device : String
  pub baudrate : ℕ
  pub timeout : ℕ
  pub dsrdtr : Bool
  pub dtr : Bool
  pub rts : Bool

-- `serial.Serial()`, with pyserial's defaults for the lines, and then the first three assignments.
abbrev pub new_port : String → ℕ → ℕ → Port
new_port device baud timeout = record {
  device = device;
  baudrate = baud;
  timeout = timeout;
  dsrdtr = false;
  dtr = true;
  rts = true;
}

-- What an assignment to `dtr` of an open port raises, if it raises an OSError.
pub data Errno : Type 0 where
  einval enotty other : Errno

-- The lines one after the other, from the call of `open()` on.
abbrev pub Trace : Type 0
Trace = List Lines

-- The lines as they are last.
abbrev pub last_lines : Lines → Trace → Lines
last_lines l [] = l
last_lines l (m ∷ t) = last_lines m t

abbrev low : Lines
low = record { dtr = false; rts = false }

-- `open_port` is `serial.Serial.open()`, with the lines that it goes through; `dtr_error` is what the
-- assignment behind it raises.
module _ (open_port : Port → Result Trace) (dtr_error : Option Errno) where
  -- `conn.dtr = False`, with the handler of `OSError`.
  unfoldable pub lower_dtr : Trace → Result Trace
  lower_dtr t = elim dtr_error [
    | none ↦ ok (t ++ (record { dtr = false; rts = (last_lines low t).rts } ∷ []))
    | some e ↦ elim e [ einval ↦ ok t | enotty ↦ ok t | other ↦ err Error.os_error ]
  ]

  -- `SerialBuffer._open_port`; `posix` is `termios is not None`. To clear HUPCL moves no line.
  unfoldable pub connect : Bool → Bool → String → ℕ → ℕ → Result Trace
  unfolding lower_dtr
  connect posix reset_on_open device baud timeout =
      let conn : Port = new_port device baud timeout in
      if reset_on_open
      then open_port conn
      else (if posix
          then (open_port (record conn { dsrdtr = true; rts = false }) >>= lower_dtr)
          else open_port (record conn { dtr = false; rts = false }))

-- `SerialBuffer.read`: the bytes, or None after a SerialException, which is an OSError.
unfoldable pub read : Result Bytes → Result (Option Bytes)
read (ok bs) = ok (some bs)
read (err Error.os_error) = ok none
read (err e) = err e

-- How `choose_port` ends: it returns a port or None, it raises, or it waits for a line.
pub data Chosen : Type 0 where
  port : String → Chosen
  no_port waits : Chosen
  raised : Error → Chosen

chosen_at : Option String → Chosen
chosen_at none = raised Error.index_error
chosen_at (some p) = port p

-- `ports[useport - 1]`, for a number from 1 on.
unfoldable pub select : List String → ℕ → Chosen
unfolding chosen_at
select ports useport = chosen_at (get_elem? ports (useport - 1))

-- `search p s` is `re.search(p, s) != None`; `int` gives the numbers that are not negative, and
-- none where `int` raises too.
module _ (search : String → String → Bool) (int : String → Option ℕ) where
  -- The `for` loop: the last port that looks like a board, counted from 1.
  unfoldable pub guess : ℕ → ℕ → List String → ℕ
  guess i default [] = default
  guess i default (p ∷ ps) =
      guess (i + 1)
        (if search "(.*usbserial.*)" p || (search "(.*usbmodem.*)" p || search "(.*USBtoUART.*)" p)
          then i + 1
          else default)
        ps

  unfoldable pub on_number : List String → Option ℕ → Chosen → Chosen
  unfolding select
  on_number ports none rest = rest
  on_number ports (some num) rest =
      if ltb 0 num && leb num (length ports) then select ports num else rest

  -- The `while` loop, on the lines that are typed in; `none` stands for the end of the input.
  unfoldable pub ask : List String → ℕ → List (Option String) → Chosen
  unfolding on_number
  ask ports default [] = waits
  ask ports default (none ∷ more) = no_port
  ask ports default (some val ∷ more) =
      let rest : Chosen = ask ports default more in
      if str_eq val "" then select ports default else on_number ports (int val) rest

  -- `choose_port`
  unfoldable pub choose_port : List String → List (Option String) → Chosen
  unfolding guess ask select
  choose_port [] typed = no_port
  choose_port (p ∷ []) typed = select (p ∷ []) 1
  choose_port (p ∷ q ∷ ps) typed = ask (p ∷ q ∷ ps) (guess 0 1 (p ∷ q ∷ ps)) typed
