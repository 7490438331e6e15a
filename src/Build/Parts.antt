-- ===== src/Build/Parts.antt =====
-- What each part of build.rs does where it succeeds, and parts in a row.
use net_device_mapping.Build
use net_device_mapping.Build.{
  Action, create_dir, run, eprintln, println, Output, System, Build, ◌>>=◌, pure, panic, unwrap,
  expect, ◌>>◌, say, join, is_success, eprint_hints, check_tool, run_command, ebpf_src,
  ebpf_out_dir, bin_dir, ebpf_out_obj, dump_command, compile_command, clang_hints, bpftool_hints,
  main,
}
use net_device_mapping.Path.{Str, codes}
use net_device_mapping.Prelude.{
  ◌≡◌, refl, sym, ◌∙◌, ◌↔◌, true, List, [], ◌∷◌, ◌++◌, ok, returns, arith, inl, inr, Bool-cases,
  Result-cases, Outcome-cases,
}
use mathlib.Core.List.{append_assoc, append-nil}

-- An action succeeds after those before it. A message of an error is a failure.
abbrev pub Succeeds : System → List Action → Action → Type 0
Succeeds sys before (create_dir path) = sys.create_dir_all before path ≡ ok tt
Succeeds sys before (run command) = is_success (sys.output before command) ≡ true
Succeeds sys before (eprintln text) = ⊥
Succeeds sys before (println text) = Unit

abbrev pub AllSucceed : System → List Action → List Action → Type 0
AllSucceed sys before [] = Unit
AllSucceed sys before (action ∷ actions) =
    Succeeds sys before action × AllSucceed sys (before ++ action ∷ []) actions

abbrev pub version : Str → Action
version tool = run (tool ∷ codes "--version" ∷ [])

abbrev pub shell : Str → Action
shell command = run (codes "sh" ∷ codes "-c" ∷ command ∷ [])

module _ {A B : Type 0} (m : Build A) (f : A → Build B) (before : List Action) where
  bind-returns :
      {b : B} {after : List Action}
      → (m >>= f) before ≡ (returns b, after)
      → (a : A) × (mid : List Action) × (m before ≡ (returns a, mid))
        × (f a mid ≡ (returns b, after))
  bind-returns e = elim (Outcome-cases (m before).0) [
    | inl (a, first) ↦ (a, (m before).1, ground arith, ground arith)
    | inr panicked ↦ absurd (ground arith)
  ]

-- The hints for an installation are written, and nothing else happens.
eprint_hints_lem :
    (hints : List Str) (before : List Action)
    → (after : List Action) × (eprint_hints hints before ≡ (returns tt, after))
eprint_hints_lem [] before = (before, refl)
eprint_hints_lem (hint ∷ hints) before = eprint_hints_lem hints _

module _ (sys : System) (before : List Action) where
  check_tool_lem :
      (tool : Str) (hints : List Str)
      → is_success (sys.output before (tool ∷ codes "--version" ∷ [])) ≡ true
      → check_tool sys tool hints before ≡ (returns tt, before ++ version tool ∷ [])
  unfolding check_tool
  check_tool_lem tool hints e = rw e refl

  check_tool-returns :
      (tool : Str) (hints : List Str) {u : Unit {0}} {after : List Action}
      → check_tool sys tool hints before ≡ (returns u, after)
      → Succeeds sys before (version tool) × (after ≡ before ++ version tool ∷ [])
  unfolding check_tool
  check_tool-returns tool hints e =
      let said =
        before
        ++ version tool ∷ eprintln (codes "Error: " ++ tool ++ codes " is not installed.") ∷ [] in
      let (after, hinted) = eprint_hints_lem hints said in
      elim (Bool-cases (is_success (sys.output before (tool ∷ codes "--version" ∷ [])))) [
        | inl works ↦ (works, ground arith)
        | inr missing ↦ absurd (ground arith)
      ]

  run_command_lem :
      (cmd msg : Str)
      → is_success (sys.output before (codes "sh" ∷ codes "-c" ∷ cmd ∷ [])) ≡ true
      → run_command sys cmd msg before ≡ (returns tt, before ++ shell cmd ∷ [])
  unfolding run_command
  run_command_lem cmd msg e =
      elim (Result-cases (sys.output before (codes "sh" ∷ codes "-c" ∷ cmd ∷ []))) [
        | inl (answer, ran) ↦ ground arith
        | inr (error, failed) ↦ absurd (ground arith)
      ]

  run_command-returns :
      (cmd msg : Str) {u : Unit {0}} {after : List Action}
      → run_command sys cmd msg before ≡ (returns u, after)
      → Succeeds sys before (shell cmd) × (after ≡ before ++ shell cmd ∷ [])
  unfolding run_command
  run_command-returns cmd msg e =
      elim (Result-cases (sys.output before (codes "sh" ∷ codes "-c" ∷ cmd ∷ []))) [
        | inl (answer, ran) ↦ ground arith
        | inr (error, failed) ↦ absurd (ground arith)
      ]

-- A part that does one action: it returns where the action succeeds, and only there.
module _ (sys : System) (m : Build (Unit {0})) (action : Action) (before : List Action) where
  abbrev pub Does : Type 0
  Does =
      ((u : Unit {0}) (after : List Action)
        → m before ≡ (returns u, after)
        → Succeeds sys before action × (after ≡ before ++ action ∷ []))
      × (Succeeds sys before action → m before ≡ (returns tt, before ++ action ∷ []))

  then_iff :
      (rest : Build (Unit {0})) {log : List Action}
      → Does
      → ((m >>= λ _. rest) before ≡ (returns tt, log))
        ↔ (Succeeds sys before action × (rest (before ++ action ∷ []) ≡ (returns tt, log)))
  then_iff rest does = (
    λ e.
        let (u, mid, first, second) = bind-returns m (λ _. rest) before e in
        let (succeeds, same) = does.0 u mid first in (succeeds, rw (← same) second),
    λ h. rw (◌>>=◌, does.1 h.0, does.1 h.0) h.1,
  )

module _ (sys : System) (before : List Action) where
  pub create_dir-Does :
      (path : Str) → Does sys (Build.create_dir_all sys path) (create_dir path) before
  create_dir-Does path = (
    λ u after e. elim (Result-cases (sys.create_dir_all before path)) [
      | inl (tt, made) ↦ ground arith
      | inr (error, failed) ↦ absurd (ground arith)
    ],
    λ made. rw made refl,
  )

  pub check_tool-Does :
      (tool : Str) (hints : List Str) → Does sys (check_tool sys tool hints) (version tool) before
  check_tool-Does tool hints =
      (λ u after. check_tool-returns sys before tool hints, check_tool_lem sys before tool hints)

  pub run_command-Does : (cmd msg : Str) → Does sys (run_command sys cmd msg) (shell cmd) before
  run_command-Does cmd msg =
      (λ u after. run_command-returns sys before cmd msg, run_command_lem sys before cmd msg)

-- Parts in a row.
abbrev pub perform : List (Build (Unit {0})) → Build (Unit {0})
perform [] = pure tt
perform (m ∷ ms) = m >>= λ _. perform ms

abbrev pub AllDo : System → List (Build (Unit {0})) → List Action → Type 0
AllDo sys [] [] = Unit
AllDo sys (m ∷ ms) (action ∷ actions) =
    ((before : List Action) → Does sys m action before) × AllDo sys ms actions
AllDo sys [] (_ ∷ _) = ⊥
AllDo sys (_ ∷ _) [] = ⊥

pub perform_iff :
    (sys : System) (ms : List (Build (Unit {0}))) (actions before : List Action) {log : List Action}
    → AllDo sys ms actions
    → (perform ms before ≡ (returns tt, log))
      ↔ (AllSucceed sys before actions × (log ≡ before ++ actions))
perform_iff sys [] [] before does =
    (λ e. (tt, ground (arith, append-nil before)), λ h. ground (arith, append-nil before))
perform_iff sys [] (action ∷ actions) before does = absurd does
perform_iff sys (m ∷ ms) [] before does = absurd does
perform_iff sys (m ∷ ms) (action ∷ actions) before (does, rest) =
    let first = then_iff sys m action before (perform ms) (does before) in
    let later = perform_iff sys ms actions (before ++ action ∷ []) rest in
    (
      λ e.
          let (succeeds, goes_on) = first.0 e in
          let (all, same) = later.0 goes_on in
          ((succeeds, all), same ∙ append_assoc before (action ∷ []) actions),
      λ h. first.1 (h.0.0, later.1 (h.0.1, h.1 ∙ sym (append_assoc before (action ∷ []) actions))),
    )

pub say-Does :
    (sys : System) (text : Str) (before : List Action)
    → Does sys (say (println text)) (println text) before
say-Does sys text before = (λ u after e. ground arith, λ _. refl)
