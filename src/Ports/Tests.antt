-- ===== src/Ports/Tests.antt =====
-- A port as pyserial opens it, and a choice among three.
use hmtl.Prelude.{
  ℕ, ◌≡◌, refl, [], ◌∷◌, List, Option, none, some, Bool, true, false, if◌then◌else◌, Result, ok,
}
use Prim.Native.String.{String}
use text.Mathlib.Text.{◌==◌ as str_eq}
use hmtl.Ports.{Port, Trace, connect, port, choose_port}
use hmtl.Ports.Opening.{opened, IsSafe, connect-IsSafe}

abbrev opens : Port → Result Trace
opens p = ok (opened p)

abbrev lowered : Trace
lowered =
    record { dtr = true; rts = true }
    ∷ record { dtr = true; rts = false }
    ∷ record { dtr = false; rts = false }
    ∷ []

connect-IsSafe_example : IsSafe none lowered
unfolding connect
connect-IsSafe_example =
    connect-IsSafe opens none "/dev/ttyUSB0" 115200 100 lowered (λ p t e. cc) refl

-- Stand-ins for `re.search` and `int`.
abbrev search : String → String → Bool
search pattern text = str_eq text "/dev/cu.usbmodem1"

abbrev int : String → Option ℕ
int text = if str_eq text "3" then some 3 else none

abbrev ports : List String
ports = "/dev/ttyS0" ∷ "/dev/cu.usbmodem1" ∷ "/dev/ttyS1" ∷ []

run_default : choose_port search int ports (some "x" ∷ some "" ∷ []) ≡ port "/dev/cu.usbmodem1"
unfolding choose_port
run_default = refl
