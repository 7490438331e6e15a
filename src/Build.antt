-- ===== src/Build.antt =====
-- build.rs: the tools that it checks, the commands that it runs and the directories that it makes. The
-- environment, cargo's metadata, the file system and the commands are a parameter, whose answers may
-- depend on all that the script did before.
pub mod Object
pub mod Parts
pub mod Success
use net_device_mapping.Host.{IoError}
use net_device_mapping.Path.{Str, codes, concat}
use net_device_mapping.Path.Lossy.{from_utf8_lossy}
use net_device_mapping.Prelude.{
  ℕ, Bool, true, false, not, List, [], ◌∷◌, ◌++◌, Option, none, some, Result, ok, err, Outcome,
  returns, panics, if◌then◌else◌, ◌==◌,
}

-- What the script does, in order: a program is run with its arguments.
pub data Action : Type 0 where
  create_dir : Str → Action
  run : List Str → Action
  eprintln println : Str → Action

-- `std::process::Output`, as far as it is read.
pub record Output : Type 0 where
  pub success : Bool
  pub stderr : List ℕ

pub record System : Type 0 where
  pub var : Str → Option Str
  -- `target_directory` of cargo's metadata; `none` if that could not be asked.
  pub target_directory : Option Str
  pub create_dir_all : List Action → Str → Result IoError (Unit {0})
  pub output : List Action → List Str → Result IoError Output

-- A part of the script: it returns or panics, behind what was done before.
abbrev pub Build : Type 0 → Type 0
Build A = List Action → Outcome A × List Action

infixl 5 ◌>>=◌ ◌>>◌
abbrev pub ◌>>=◌ : {A B : Type 0} → Build A → (A → Build B) → Build B
◌>>=◌ m f before =
    let (outcome, after) = m before in
    elim outcome [ returns a ↦ f a after | panics ↦ (panics, after) ]

abbrev pub ◌>>◌ : {B : Type 0} → Build (Unit {0}) → Build B → Build B
m >> k = m >>= λ _. k

abbrev pub pure : {A : Type 0} → A → Build A
pure a before = (returns a, before)

abbrev pub panic : {A : Type 0} → Build A
panic before = (panics, before)

-- `unwrap` and `expect`.
abbrev pub unwrap : {A : Type 0} → Option A → Build A
unwrap (some a) = pure a
unwrap none = panic

abbrev pub expect : {A : Type 0} → Result IoError A → Build A
expect (ok a) = pure a
expect (err e) = panic

abbrev pub say : Action → Build (Unit {0})
say action before = (returns tt, before ++ action ∷ [])

-- Whether a separator is due: the text neither is empty nor ends with a slash.
abbrev pub need_sep : Str → Bool
need_sep [] = false
need_sep (c ∷ []) = not (c == b'/')
need_sep (c ∷ d ∷ s) = need_sep (d ∷ s)

abbrev pub is_rooted : Str → Bool
is_rooted [] = false
is_rooted (c ∷ s) = c == b'/'

-- `Path::join` on the text of the paths.
unfoldable pub join : Str → Str → Str
join path name =
    if is_rooted name then name else if need_sep path then path ++ b'/' ∷ name else path ++ name

abbrev pub is_success : Result IoError Output → Bool
is_success (ok output) = output.success
is_success (err e) = false

abbrev pub eprint_hints : List Str → Build (Unit {0})
eprint_hints [] = pure tt
eprint_hints (hint ∷ hints) = do say (eprintln (codes "  Hint: " ++ hint)); eprint_hints hints

module _ (sys : System) where
  abbrev pub create_dir_all : Str → Build (Unit {0})
  create_dir_all path before =
      expect (sys.create_dir_all before path) (before ++ create_dir path ∷ [])

  abbrev pub output : List Str → Build (Result IoError Output)
  output command before = (returns (sys.output before command), before ++ run command ∷ [])

  unfoldable pub check_tool : Str → List Str → Build (Unit {0})
  check_tool tool install_hints = do
    answer ← output (tool ∷ codes "--version" ∷ [])
    if is_success answer then pure tt else do
      say (eprintln (codes "Error: " ++ tool ++ codes " is not installed."))
      eprint_hints install_hints
      panic

  unfoldable pub run_command : Str → Str → Build (Unit {0})
  unfolding from_utf8_lossy
  run_command cmd error_msg = do
    answer ← output (codes "sh" ∷ codes "-c" ∷ cmd ∷ [])
    answer ← expect answer
    if answer.success
        then pure tt
        else do say (eprintln (error_msg ++ codes ": " ++ from_utf8_lossy answer.stderr)); panic

abbrev pub ebpf_src : Str
ebpf_src = codes "ebpf/fork_monitor.bpf.c"

-- What the paths are named after: the three answers of the environment and of cargo.
unfoldable pub ebpf_out_dir : Str → Str
unfolding join
ebpf_out_dir out_dir = join out_dir (codes "ebpf")

unfoldable pub bin_dir : Str → Str → Str
unfolding join
bin_dir target_directory profile = join target_directory profile

unfoldable pub ebpf_out_obj : Str → Str
unfolding join
ebpf_out_obj bin_dir = join (join bin_dir (codes "ebpf")) (codes "fork_monitor.bpf.o")

abbrev pub dump_command : Str → Str
dump_command vmlinux_h =
    codes "bpftool btf dump file /sys/kernel/btf/vmlinux format c > " ++ vmlinux_h

abbrev pub compile_command : Str → Str → Str
compile_command ebpf_out_obj ebpf_out_dir = concat (
    codes "clang -O2 -target bpf -g -c "
    ∷ ebpf_src
    ∷ codes " -o "
    ∷ ebpf_out_obj
    ∷ codes " -I"
    ∷ ebpf_out_dir
    ∷ codes " -Wall -Wextra"
    ∷ [])

abbrev pub clang_hints : List Str
clang_hints =
    codes "Ubuntu: sudo apt-get install clang"
    ∷ codes "Fedora: sudo dnf install clang"
    ∷ codes "Arch: sudo pacman -S clang"
    ∷ []

abbrev pub bpftool_hints : List Str
bpftool_hints =
    codes "Ubuntu: sudo apt-get install linux-tools-common"
    ∷ codes "Fedora: sudo dnf install bpftool"
    ∷ codes "Arch: sudo pacman -S bpf"
    ∷ []

-- A path of the environment is Unicode, so `display` shows it as it is. `parent` of the object's path is
-- the path that its name was joined to.
unfoldable pub main : System → Build (Unit {0})
unfolding check_tool run_command ebpf_out_dir bin_dir ebpf_out_obj
main sys = do
  out_dir ← unwrap (sys.var (codes "OUT_DIR"))
  let out = ebpf_out_dir out_dir
  let vmlinux_h = join out (codes "vmlinux.h")
  target_directory ← unwrap sys.target_directory
  profile ← unwrap (sys.var (codes "PROFILE"))
  let bin = bin_dir target_directory profile
  create_dir_all sys out
  check_tool sys (codes "clang") clang_hints
  check_tool sys (codes "bpftool") bpftool_hints
  run_command sys (dump_command vmlinux_h) (codes "Failed to generate vmlinux.h")
  create_dir_all sys (join bin (codes "ebpf"))
  run_command sys (compile_command (ebpf_out_obj bin) out) (codes "Failed to compile eBPF program")
  say (println (codes "cargo:rerun-if-changed=" ++ ebpf_src))
