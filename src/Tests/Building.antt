-- ===== src/Tests/Building.antt =====
-- build.rs on a machine with the tools and on one without bpftool.
use net_device_mapping.Build.{
  Action, create_dir, run, eprintln, System, join, check_tool, run_command, ebpf_out_dir, bin_dir,
  ebpf_out_obj, main,
}
use net_device_mapping.Build.Object.{get_object_path-ebpf_out_obj}
use net_device_mapping.Build.Parts.{AllSucceed}
use net_device_mapping.Build.Success.{Answers, steps, main-AllSucceed}
use net_device_mapping.Path.{Str, root_dir, codes}
use net_device_mapping.Path.Equality.{OsString-discrete}
use net_device_mapping.Path.Parse.{from_text, IsName, to_text, normals}
use net_device_mapping.Prelude.{
  ◌≡◌, ◌↔◌, refl, Bool, true, false, List, [], ◌∷◌, none, some, ok, returns, panics, ite,
  ℕ_discrete,
}
use net_device_mapping.SyscallMonitor.Load.{Environment, get_object_path}

program : Unit {0}
unfolding main join check_tool run_command ebpf_out_dir bin_dir ebpf_out_obj OsString-discrete
    ℕ_discrete
program = tt

-- `bpftool` says whether that tool is there.
abbrev machine : Bool → System
machine bpftool = record {
  var = λ name.
      ite (OsString-discrete name (codes "OUT_DIR")) (some (codes "/t/out/"))
        (ite (OsString-discrete name (codes "PROFILE")) (some (codes "debug")) none);
  target_directory = some (codes "/t");
  create_dir_all = λ before path. ok tt;
  output = λ before command. elim command [
    | tool ∷ args ↦
        ite (OsString-discrete tool (codes "bpftool"))
          (ok (record { success = bpftool; stderr = [] }))
          (ok (record { success = true; stderr = [] }))
    | [] ↦ ok (record { success = true; stderr = [] })
  ];
}

abbrev all_steps : List Action
all_steps = steps (codes "/t/out/") (codes "/t") (codes "debug")

built : main (machine true) [] ≡ (returns tt, all_steps)
unfolding program
built = refl

object_of_build :
    ebpf_out_obj (bin_dir (codes "/t") (codes "debug")) ≡ codes "/t/debug/ebpf/fork_monitor.bpf.o"
unfolding program
object_of_build = refl

-- Without bpftool nothing is compiled.
stopped_early : main (machine false) [] ≡ (
  panics,
  create_dir (codes "/t/out/ebpf")
      ∷ run (codes "clang" ∷ codes "--version" ∷ [])
      ∷ run (codes "bpftool" ∷ codes "--version" ∷ [])
      ∷ eprintln (codes "Error: bpftool is not installed.")
      ∷ eprintln (codes "  Hint: Ubuntu: sudo apt-get install linux-tools-common")
      ∷ eprintln (codes "  Hint: Fedora: sudo dnf install bpftool")
      ∷ eprintln (codes "  Hint: Arch: sudo pacman -S bpf")
      ∷ [],
)
unfolding program
stopped_early = refl

main-AllSucceed_example : (main (machine true) [] ≡ (returns tt, all_steps)) ↔ (
    (out_dir : Str) × (target_directory : Str) × (profile : Str) × Answers
      (machine true)
      out_dir
      target_directory
      profile
    × AllSucceed (machine true) [] (steps out_dir target_directory profile)
    × (all_steps ≡ steps out_dir target_directory profile))
main-AllSucceed_example = main-AllSucceed (machine true) all_steps

abbrev environment : Environment
environment = record {
  ebpf_object_dir = none;
  current_exe = ok (root_dir ∷ normals (codes "t" ∷ codes "debug" ∷ codes "list_all" ∷ []));
  current_dir = ok [];
}

t-IsName : IsName (codes "t")
t-IsName = ((λ e. cc), (λ e. cc), (λ e. cc), (refl, tt))

debug-IsName : IsName (codes "debug")
debug-IsName = ((λ e. cc), (λ e. cc), (λ e. cc), (refl, (refl, (refl, (refl, (refl, tt))))))

get_object_path-ebpf_out_obj_example :
    get_object_path environment
    ≡ returns (ok (from_text (ebpf_out_obj (bin_dir (to_text (codes "t" ∷ [])) (codes "debug")))))
get_object_path-ebpf_out_obj_example =
    get_object_path-ebpf_out_obj environment (codes "t") [] (codes "debug") (codes "list_all")
      (t-IsName, tt) debug-IsName refl refl
