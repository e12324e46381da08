-- ===== src/Bootstrap/Plan.antt =====
-- The plan that python/Bootstrap.py carries out: its stages as one list of actions.
use hmtl.Prelude.{
  ℕ, ◌≡◌, refl, ◌∙◌, sym, List, [], ◌∷◌, ◌++◌, Bool, Bool-cases, inl, inr, not, ◌&&◌, if◌then◌else◌,
  Result, ok, err,
}
use mathlib.Core.Path.{fun_ext}
use Prim.Native.String.{String}
use text.Mathlib.Text.{◌==◌ as str_eq}
use hmtl.Bootstrap.{
  Options, Action, change_dir, platformio, configure, Ending, finished, exited, raised, contains,
  choose_address, config_sketch, module_sketch, bringup_sketch, main, parse_stages, upload, call_in,
  call_or_exit, ending, stage, and_then, run_stages, with_stages,
}

-- The actions of the stages that are named, whichever way: in the order 1, 2, 3, each once.
abbrev pub plan : (String → String) → List ℕ → Options → List Action
plan abspath stages o =
    (if contains 1 stages then change_dir config_sketch ∷ platformio o.kind ∷ [] else [])
    ++ ((if contains 2 stages
          then configure (abspath o.config) o.deviceid (choose_address o) o.device ∷ []
          else [])
        ++ (if contains 3 stages
            then change_dir (if o.is_module then module_sketch else bringup_sketch)
              ∷ platformio o.kind
              ∷ []
            else []))

module _ (exists : String → Bool) (abspath : String → String) (split : String → List String)
    (int : String → Result ℕ) (chdir : List Action → String → Result (Unit {0}))
    (call : List Action → Action → Result ℕ) where
  -- How one action ends behind those that were done.
  abbrev pub perform : List Action → Action → Ending
  unfolding ending
  perform done (change_dir sketch) = elim (chdir done sketch) [ ok u ↦ finished | err e ↦ raised e ]
  perform done (platformio kind) =
      ending exists abspath split int chdir call (call done (platformio kind))
  perform done (configure file id address port) =
      ending exists abspath split int chdir call (call done (configure file id address port))

  -- The actions one after the other, up to the first that does not end well.
  abbrev pub go_on : Ending → List Action → Ending × List Action → Ending × List Action
  go_on finished done rest = rest
  go_on exited done rest = (exited, done)
  go_on (raised e) done rest = (raised e, done)

  abbrev pub carry_out : List Action → List Action → Ending × List Action
  carry_out done [] = (finished, done)
  carry_out done (a ∷ acts) =
      let done' = done ++ (a ∷ []) in go_on (perform done a) done' (carry_out done' acts)

  abbrev pub carry_out_stages : Result (List ℕ) → Options → Ending × List Action
  carry_out_stages (err e) o = (raised e, [])
  carry_out_stages (ok stages) o = carry_out [] (plan abspath stages o)

  go_on-append :
      (x : Ending) (done : List Action) (r r' : Ending × List Action)
      → (next : List Action → Ending × List Action)
      → r' ≡ and_then exists abspath split int chdir call r next
      → go_on x done r' ≡ and_then exists abspath split int chdir call (go_on x done r) next
  unfolding and_then
  go_on-append finished done r r' next e = e
  go_on-append exited done r r' next e = refl
  go_on-append (raised x) done r r' next e = refl

  carry_out-append :
      (acts more done : List Action)
      → carry_out done (acts ++ more)
        ≡ and_then exists abspath split int chdir call (carry_out done acts) (λ d. carry_out d more)
  unfolding and_then
  carry_out-append [] more done = refl
  carry_out-append (a ∷ acts) more done =
      go_on-append (perform done a) (done ++ (a ∷ [])) (carry_out (done ++ (a ∷ [])) acts) _
        (λ d. carry_out d more) (carry_out-append acts more (done ++ (a ∷ [])))

  go_on_self : (x : Ending) (done : List Action) → go_on x done (finished, done) ≡ (x, done)
  go_on_self finished done = refl
  go_on_self exited done = refl
  go_on_self (raised e) done = refl

  call_or_exit_lem :
      (a : Action) (done : List Action)
      → perform done a ≡ ending exists abspath split int chdir call (call done a)
      → call_or_exit exists abspath split int chdir call a done ≡ carry_out done (a ∷ [])
  unfolding call_or_exit
  call_or_exit_lem a done e = rw e (sym (go_on_self _ _))

  call_in_lem :
      (sketch : String) (a : Action) (done : List Action) (r : Result (Unit {0}))
      → perform (done ++ (change_dir sketch ∷ [])) a
        ≡ ending exists abspath split int chdir call (call (done ++ (change_dir sketch ∷ [])) a)
      → call_in exists abspath split int chdir call sketch a done r
        ≡ go_on
            (elim r [ ok u ↦ finished | err e ↦ raised e ])
            (done ++ (change_dir sketch ∷ []))
            (carry_out (done ++ (change_dir sketch ∷ [])) (a ∷ []))
  unfolding call_in
  call_in_lem sketch a done (err e) h = refl
  call_in_lem sketch a done (ok u) h = call_or_exit_lem a (done ++ (change_dir sketch ∷ [])) h

  -- The upload of a sketch is two actions.
  upload_lem :
      (sketch kind : String) (done : List Action)
      → upload exists abspath split int chdir call sketch kind done
        ≡ carry_out done (change_dir sketch ∷ platformio kind ∷ [])
  unfolding upload ending
  upload_lem sketch kind done = call_in_lem sketch (platformio kind) done (chdir done sketch) refl

  stage_lem :
      (k : ℕ) (stages : List ℕ) (body : List Action → Ending × List Action) (acts : List Action)
      → ((done : List Action) → body done ≡ carry_out done acts)
      → (done : List Action)
      → stage exists abspath split int chdir call k stages body done
        ≡ carry_out done (if contains k stages then acts else [])
  unfolding stage
  stage_lem k stages body acts h done = elim (Bool-cases (contains k stages)) [
    | inl e ↦ rw e (h done)
    | inr e ↦ rw e refl
  ]

  -- One list behind another.
  and_then_lem :
      (acts more done : List Action) (first : Ending × List Action)
      → (next : List Action → Ending × List Action) → first ≡ carry_out done acts
      → ((d : List Action) → next d ≡ carry_out d more)
      → and_then exists abspath split int chdir call first next ≡ carry_out done (acts ++ more)
  and_then_lem acts more done first next e f =
      (λ i. and_then exists abspath split int chdir call (e i) (fun_ext f i))
      ∙ sym (carry_out-append acts more done)

  run_stages_lem :
      (stages : List ℕ) (o : Options)
      → run_stages exists abspath split int chdir call stages o
        ≡ carry_out [] (plan abspath stages o)
  unfolding run_stages
  run_stages_lem stages o =
      let sketch : String = if o.is_module then module_sketch else bringup_sketch in
      let config : Action = configure (abspath o.config) o.deviceid (choose_address o) o.device in
      let one =
        stage_lem 1 stages (upload exists abspath split int chdir call config_sketch o.kind) _
          (upload_lem config_sketch o.kind) in
      let two =
        stage_lem 2 stages (call_or_exit exists abspath split int chdir call config) (config ∷ [])
          (λ d. call_or_exit_lem config d refl) in
      let three =
        stage_lem 3 stages (upload exists abspath split int chdir call sketch o.kind) _
          (upload_lem sketch o.kind) in
      and_then_lem _ _ [] _ _ (one []) (λ d. and_then_lem _ _ d _ _ (two d) three)

  with_stages_lem :
      (stages : Result (List ℕ)) (o : Options)
      → with_stages exists abspath split int chdir call stages o ≡ carry_out_stages stages o
  unfolding with_stages
  with_stages_lem (err e) o = refl
  with_stages_lem (ok stages) o = run_stages_lem stages o

  -- The script, whatever its commands come to, does what carrying out one list does: the actions of
  -- the stages that are named, in the order 1, 2, 3 and each stage once, whichever order and however
  -- often they are named, up to the first that raises or whose status is not 0, where it exits. It
  -- does nothing where the file is missing, the device id is empty, or a stage is no number.
  pub main-carry_out :
      (o : Options)
      → main exists abspath split int chdir call o ≡ (
          if exists o.config && not (str_eq o.deviceid "")
          then carry_out_stages
              (parse_stages exists abspath split int chdir call (split o.stages))
              o
          else (exited, []))
  unfolding main
  main-carry_out o = elim (Bool-cases (exists o.config)) [
    | inr e ↦ rw e refl
    | inl e ↦ elim (Bool-cases (str_eq o.deviceid "")) [
      | inl f ↦ rw (e, f) refl
      | inr f ↦
          rw (e, f)
            (with_stages_lem (parse_stages exists abspath split int chdir call (split o.stages)) o)
    ]
  ]
