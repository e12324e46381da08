-- ===== src/Bootstrap/Tests.antt =====
-- The bootstrap of a device whose configuration is refused.
use hmtl.Prelude.{ℕ, ◌≡◌, List, [], ◌∷◌, none, some, Bool, true, false, Result, ok, err, Error}
use Prim.Native.String.{String}
use text.Mathlib.Text.{◌==◌ as str_eq}
use hmtl.Prelude.{if◌then◌else◌}
use hmtl.Bootstrap.{
  Options, Action, change_dir, platformio, configure, exited, config_sketch, main, parse_stages,
  contains, choose_address, ending,
}
use hmtl.Bootstrap.Plan.{main-carry_out}

-- The stages 3, 1 and 2, and a text that is no number.
abbrev split : String → List String
split stages = "3" ∷ "1" ∷ "2" ∷ []

abbrev int : String → Result ℕ
int x =
    if str_eq x "1"
    then ok 1
    else (if str_eq x "2" then ok 2 else (if str_eq x "3" then ok 3 else err Error.value_error))

abbrev call : List Action → Action → Result ℕ
call done (change_dir sketch) = ok 0
call done (platformio kind) = ok 0
call done (configure file id address port) = ok 256

abbrev options : Options
options = record {
  config = "a.json";
  device = some "/dev/ttyUSB0";
  deviceid = "72";
  address = none;
  kind = "nano";
  stages = "3,1,2";
  is_module = false;
}

abbrev there : String → Bool
there path = true

abbrev same_path : String → String
same_path path = path

main-carry_out_example : main there same_path split int (λ done sketch. ok tt) call options ≡ (
  exited,
  change_dir config_sketch
      ∷ platformio "nano"
      ∷ configure "a.json" "72" "72" (some "/dev/ttyUSB0")
      ∷ [],
)
unfolding parse_stages contains choose_address ending
main-carry_out_example =
    main-carry_out there same_path split int (λ done sketch. ok tt) call options
