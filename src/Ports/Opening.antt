-- ===== src/Ports/Opening.antt =====
-- The lines of a port while `SerialBuffer._open_port` of python/hmtl/SerialBuffer.py opens it.
use hmtl.Prelude.{
  ℕ, ◌≡◌, refl, [], ◌∷◌, ◌++◌, true, false, Option, none, some, All, Result, ok, if◌then◌else◌,
  >>=-eq-ok,
}
use mathlib.Core.Path.{subst}
use Prim.Native.String.{String}
use hmtl.Ports.{
  Lines, Port, Errno, einval, enotty, other, Trace, last_lines, low, lower_dtr, connect, new_port,
}

-- The state in which the circuit of an ESP32 holds the module in reset: DTR low, RTS high.
abbrev pub IsReset : Lines → Type 0
IsReset l = (l.dtr ≡ false) × (l.rts ≡ true)

-- The line states of pyserial's `open()` on POSIX: the kernel raises both lines, `open()` writes DTR
-- where `dsrdtr` is off, and then RTS.
abbrev pub opened : Port → Trace
opened p =
    record { dtr = true; rts = true }
    ∷ (if p.dsrdtr
        then record { dtr = true; rts = p.rts } ∷ []
        else record { dtr = p.dtr; rts = true } ∷ record { dtr = p.dtr; rts = p.rts } ∷ [])

abbrev pub IsPyserial : (Port → Result Trace) → Type 0
IsPyserial open_port = (p : Port) (t : Trace) → open_port p ≡ ok t → t ≡ opened p

-- RTS is low in the end, and DTR too unless its assignment raised an error that is let pass.
abbrev pub EndsLow : Option Errno → Trace → Type 0
EndsLow dtr_error t =
    ((last_lines low t).rts ≡ false) × ((dtr_error ≡ none) → (last_lines low t).dtr ≡ false)

-- Both lines up, and then RTS down.
abbrev rts_down : Trace
rts_down = record { dtr = true; rts = true } ∷ record { dtr = true; rts = false } ∷ []

abbrev both_down : Trace
both_down = rts_down ++ (record { dtr = false; rts = false } ∷ [])

abbrev pub IsSafe : Option Errno → Trace → Type 0
IsSafe dtr_error t = All (λ l. ¬ IsReset l) t × EndsLow dtr_error t

rts_down-IsSafe : (e : Errno) → IsSafe (some e) rts_down
rts_down-IsSafe e = (((λ h. cc), ((λ h. cc), tt)), (refl, λ h. cc))

both_down-IsSafe : IsSafe none both_down
both_down-IsSafe = (((λ h. cc), ((λ h. cc), ((λ h. cc), tt))), (refl, λ h. refl))

lower_dtr-IsSafe :
    (open_port : Port → Result Trace) (dtr_error : Option Errno) (t : Trace)
    → lower_dtr open_port dtr_error rts_down ≡ ok t
    → IsSafe dtr_error t
unfolding lower_dtr
lower_dtr-IsSafe open_port none t e =
    let q : both_down ≡ t = cc in subst (λ (u : Trace). IsSafe none u) q both_down-IsSafe
lower_dtr-IsSafe open_port (some einval) t e =
    let q : rts_down ≡ t = cc in
    subst (λ (u : Trace). IsSafe (some einval) u) q (rts_down-IsSafe einval)
lower_dtr-IsSafe open_port (some enotty) t e =
    let q : rts_down ≡ t = cc in
    subst (λ (u : Trace). IsSafe (some enotty) u) q (rts_down-IsSafe enotty)
lower_dtr-IsSafe open_port (some other) t e = cc

-- On POSIX, a port that is opened without a reset never has DTR low while RTS is high, which would
-- hold an ESP32 in reset, and both lines are low in the end (DTR, unless its assignment raised EINVAL
-- or ENOTTY), given that pyserial's `open()` goes through the states that it documents.
pub connect-IsSafe :
    (open_port : Port → Result Trace) (dtr_error : Option Errno) (device : String)
    (baud timeout : ℕ) (t : Trace)
    → IsPyserial open_port
    → connect open_port dtr_error true false device baud timeout ≡ ok t
    → IsSafe dtr_error t
unfolding connect
connect-IsSafe open_port dtr_error device baud timeout t pyserial e =
    let conn : Port = record (new_port device baud timeout) { dsrdtr = true; rts = false } in
    let (u, o, l) = >>=-eq-ok (open_port conn) (lower_dtr open_port dtr_error) e in
    lower_dtr-IsSafe open_port dtr_error t
      (subst (λ (v : Trace). lower_dtr open_port dtr_error v ≡ ok t) (pyserial conn u o) l)
