-- ===== src/Bootstrap.antt =====
-- python/Bootstrap.py: uploads a configuration sketch to a new device, then the configuration, and
-- then its first sketch. argparse, the file system, `str.split` and `int`, and the commands that
-- are called are parameters; printing is left out.
pub mod Plan
mod Tests
use hmtl.Prelude.{
  ℕ, List, [], ◌∷◌, ◌++◌, Option, none, some, Bool, true, false, not, ◌==◌, if◌then◌else◌, Result,
  ok, err, Error, ◌>>=◌,
}
use Prim.Native.String.{String}
use text.Mathlib.Text.{◌==◌ as str_eq}

-- What argparse returns; `deviceid` and `config` are required.
pub record Options : Type 0 where
  pub config : String
  pub device : Option String
  pub deviceid : String
  pub address : Option String
  pub kind : String
  pub stages : String
  pub is_module : Bool

-- What the script does outside itself: `os.chdir`, the upload by platformio for a type of device,
-- and HMTLConfig for a file, a device id, an address and a port, which can be None.
pub data Action : Type 0 where
  change_dir : String → Action
  platformio : String → Action
  configure : String → String → String → Option String → Action

-- How the script ends, or a part of it: it goes on, it calls `sys.exit(1)`, or it raises.
pub data Ending : Type 0 where
  finished : Ending
  exited : Ending
  raised : Error → Ending

-- The directories of the sketches.
abbrev pub config_sketch : String
config_sketch = "/Users/amp/Dropbox/Arduino/HMTL/platformio/HMTLPythonConfig"

abbrev pub module_sketch : String
module_sketch = "/Users/amp/Dropbox/Arduino/HMTL/platformio/HMTL_Module"

abbrev pub bringup_sketch : String
bringup_sketch = "/Users/amp/Dropbox/Arduino/HMTL/platformio/HMTL_Bringup"

-- `k in stages`
unfoldable pub contains : ℕ → List ℕ → Bool
contains k [] = false
contains k (x ∷ xs) = let rest = contains k xs in if x == k then true else rest

-- `if not options.address: options.address = options.deviceid`
unfoldable pub choose_address : Options → String
choose_address o = elim o.address [
  | none ↦ o.deviceid
  | some a ↦ (if str_eq a "" then o.deviceid else a)
]

-- The last statements of `parse_args`; `port` is what `portscan.choose_port()` returns.
unfoldable pub with_device : Option String → Options → Options
with_device port o = elim o.device [ none ↦ record o { device = port } | some d ↦ o ]

-- `exists` and `abspath` are those of `os.path`. `split` is that by a comma, and `int` is Python's
-- on what is a number below zero or no number of a stage too. `chdir` and `call`, the exit status,
-- know what was done before.
module _ (exists : String → Bool) (abspath : String → String) (split : String → List String)
    (int : String → Result ℕ) (chdir : List Action → String → Result (Unit {0}))
    (call : List Action → Action → Result ℕ) where
  -- `[int(x) for x in options.stages.split(",")]`
  unfoldable pub parse_stages : List String → Result (List ℕ)
  parse_stages [] = ok []
  parse_stages (x ∷ xs) = do n ← int x; ns ← parse_stages xs; ok (n ∷ ns)

  ending : Result ℕ → Ending
  ending (err e) = raised e
  ending (ok ret) = if ret == 0 then finished else exited

  -- A call, and the exit where its status is not 0.
  unfoldable pub call_or_exit : Action → List Action → Ending × List Action
  unfolding ending
  call_or_exit a done = (ending (call done a), done ++ (a ∷ []))

  call_in : String → Action → List Action → Result (Unit {0}) → Ending × List Action
  unfolding call_or_exit
  call_in sketch a done (err e) = (raised e, done ++ (change_dir sketch ∷ []))
  call_in sketch a done (ok u) = call_or_exit a (done ++ (change_dir sketch ∷ []))

  -- `os.chdir(sketch)`, and the upload from there.
  unfoldable pub upload : String → String → List Action → Ending × List Action
  unfolding call_in
  upload sketch kind done = call_in sketch (platformio kind) done (chdir done sketch)

  -- `if k in stages: …`
  unfoldable pub stage :
      ℕ → List ℕ → (List Action → Ending × List Action) → List Action → Ending × List Action
  unfolding contains
  stage k stages body done = if contains k stages then body done else (finished, done)

  unfoldable pub and_then :
      Ending × List Action → (List Action → Ending × List Action) → Ending × List Action
  and_then (finished, done) next = next done
  and_then (exited, done) next = (exited, done)
  and_then (raised e, done) next = (raised e, done)

  -- The three stages.
  unfoldable pub run_stages : List ℕ → Options → Ending × List Action
  unfolding stage upload and_then call_or_exit choose_address
  run_stages stages o = and_then (stage 1 stages (upload config_sketch o.kind) []) (λ one.
      and_then
        (stage 2 stages
          (call_or_exit (configure (abspath o.config) o.deviceid (choose_address o) o.device)) one)
        (stage 3 stages (upload (if o.is_module then module_sketch else bringup_sketch) o.kind)))

  with_stages : Result (List ℕ) → Options → Ending × List Action
  unfolding run_stages
  with_stages (err e) o = (raised e, [])
  with_stages (ok stages) o = run_stages stages o

  -- `main`, behind `parse_args`.
  unfoldable pub main : Options → Ending × List Action
  unfolding with_stages parse_stages
  main o =
      if not (exists o.config)
      then (exited, [])
      else (if str_eq o.deviceid ""
          then (exited, [])
          else with_stages (parse_stages (split o.stages)) o)
