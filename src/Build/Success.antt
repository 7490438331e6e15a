-- ===== src/Build/Success.antt =====
-- When build.rs succeeds.
use net_device_mapping.Build
use net_device_mapping.Build.{
  Action, create_dir, run, eprintln, println, Output, System, Build, ◌>>=◌, pure, panic, unwrap,
  expect, ◌>>◌, say, join, is_success, eprint_hints, check_tool, run_command, ebpf_src,
  ebpf_out_dir, bin_dir, ebpf_out_obj, dump_command, compile_command, clang_hints, bpftool_hints,
  main,
}
use net_device_mapping.Build.Parts.{
  AllSucceed, version, shell, perform, AllDo, perform_iff, say-Does, create_dir-Does,
  check_tool-Does, run_command-Does,
}
use net_device_mapping.Path.{Str, codes}
use net_device_mapping.Prelude.{
  ◌≡◌, refl, sym, ◌∙◌, ◌↔◌, List, [], ◌∷◌, ◌++◌, some, returns, arith, inl, inr, Option-cases,
}

-- What the script is to do, in order.
abbrev pub steps : Str → Str → Str → List Action
steps out_dir target_directory profile =
    let out = ebpf_out_dir out_dir in
    let bin = bin_dir target_directory profile in
    create_dir out
    ∷ version (codes "clang")
    ∷ version (codes "bpftool")
    ∷ shell (dump_command (join out (codes "vmlinux.h")))
    ∷ create_dir (join bin (codes "ebpf"))
    ∷ shell (compile_command (ebpf_out_obj bin) out)
    ∷ println (codes "cargo:rerun-if-changed=" ++ ebpf_src)
    ∷ []

-- What follows the three answers of the environment and of cargo.
abbrev parts : System → Str → Str → Str → List (Build (Unit {0}))
parts sys out_dir target_directory profile =
    let out = ebpf_out_dir out_dir in
    let bin = bin_dir target_directory profile in
    Build.create_dir_all sys out
    ∷ check_tool sys (codes "clang") clang_hints
    ∷ check_tool sys (codes "bpftool") bpftool_hints
    ∷ run_command sys (dump_command (join out (codes "vmlinux.h")))
        (codes "Failed to generate vmlinux.h")
    ∷ Build.create_dir_all sys (join bin (codes "ebpf"))
    ∷ run_command sys (compile_command (ebpf_out_obj bin) out)
        (codes "Failed to compile eBPF program")
    ∷ say (println (codes "cargo:rerun-if-changed=" ++ ebpf_src))
    ∷ []

parts-AllDo :
    (sys : System) (out_dir target_directory profile : Str)
    → AllDo sys
        (parts sys out_dir target_directory profile)
        (steps out_dir target_directory profile)
parts-AllDo sys out_dir target_directory profile = (
  (λ before. create_dir-Does sys before _),
  (
    (λ before. check_tool-Does sys before _ _),
    (
      (λ before. check_tool-Does sys before _ _),
      (
        (λ before. run_command-Does sys before _ _),
        (
          (λ before. create_dir-Does sys before _),
          ((λ before. run_command-Does sys before _ _), ((λ before. say-Does sys _ before), tt)),
        ),
      ),
    ),
  ),
)

-- The answers that name the script's paths.
pub record Answers (sys : System) (out_dir target_directory profile : Str) : Type 0 where
  pub out : sys.var (codes "OUT_DIR") ≡ some out_dir
  pub target : sys.target_directory ≡ some target_directory
  pub built : sys.var (codes "PROFILE") ≡ some profile

main-perform :
    (sys : System) (out_dir target_directory profile : Str)
    → Answers sys out_dir target_directory profile
    → main sys [] ≡ perform (parts sys out_dir target_directory profile) []
unfolding main
main-perform sys out_dir target_directory profile a = rw (a.out, a.target, a.built) refl

-- The answers that name the paths are there where the script returns.
main-Answers :
    (sys : System) (log : List Action)
    → main sys [] ≡ (returns tt, log)
    → (out_dir : Str) × (target_directory : Str) × (profile : Str) × Answers sys out_dir
        target_directory profile
unfolding main
main-Answers sys log e = elim (Option-cases (sys.var (codes "OUT_DIR"))) [
  | inl unset ↦ absurd (ground arith)
  | inr (out_dir, set) ↦ elim (Option-cases sys.target_directory) [
    | inl unknown ↦ absurd (ground arith)
    | inr (target_directory, known) ↦ elim (Option-cases (sys.var (codes "PROFILE"))) [
      | inl unset ↦ absurd (ground arith)
      | inr (profile, given) ↦
          (out_dir, target_directory, profile, record { out = set; target = known; built = given })
    ]
  ]
]

-- The build script returns exactly where the environment and cargo name its paths and every step succeeds
-- after those before it: the directory for vmlinux.h, both tools, the dump of vmlinux.h, the directory for
-- the object, and the compiler that writes the object. It has then done these steps, in that order and no
-- others.
pub main-AllSucceed :
    (sys : System) (log : List Action)
    → (main sys [] ≡ (returns tt, log)) ↔ (
        (out_dir : Str) × (target_directory : Str) × (profile : Str) × Answers sys out_dir
          target_directory profile
        × AllSucceed sys [] (steps out_dir target_directory profile)
        × (log ≡ steps out_dir target_directory profile))
main-AllSucceed sys log = (
  λ e.
      let (out_dir, target_directory, profile, answers) = main-Answers sys log e in
      let e' = sym (main-perform sys out_dir target_directory profile answers) ∙ e in
      let done =
        (perform_iff sys (parts sys out_dir target_directory profile) _ []
            (parts-AllDo sys out_dir target_directory profile)).0
          e' in
      (out_dir, target_directory, profile, answers, done.0, done.1),
  λ h.
      let (out_dir, target_directory, profile, answers, succeed, same) = h in
      main-perform sys out_dir target_directory profile answers
      ∙ (perform_iff sys (parts sys out_dir target_directory profile) _ []
            (parts-AllDo sys out_dir target_directory profile)).1
          (succeed, same),
)
