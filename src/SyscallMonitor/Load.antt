-- ===== src/SyscallMonitor/Load.antt =====
-- `get_object_path` and the set-up of `monitor_syscalls` in src/syscall_monitor.rs. The environment and
-- the aya crate are parameters.
use net_device_mapping.Host.{IoError}
use net_device_mapping.Path.{Str, PathBuf, root_dir, codes, join}
use net_device_mapping.Path.Equality.{OsString-discrete}
use net_device_mapping.Path.Parse.{from_text}
use net_device_mapping.Prelude.{
  ℕ, ◌≡◌, ◌∙◌, List, [], ◌∷◌, ◌++◌, Option, none, some, Result, ok, err, ◌>>=◌, map_err, Outcome,
  returns, panics, ite, arith, inl, inr, Option-cases, Result-cases, Outcome-cases, All,
}
use mathlib.Core.List.{append_assoc, append-nil}

-- What the process can ask of its environment; the variable is `none` if it is not set or not Unicode.
pub record Environment : Type 0 where
  pub ebpf_object_dir : Option Str
  pub current_exe : Result IoError PathBuf
  pub current_dir : Result IoError PathBuf

-- `Path::parent`: the path without its last component, unless that is the root or there is none.
unfoldable pub parent : PathBuf → Option PathBuf
parent [] = none
parent (root_dir ∷ []) = none
parent (c ∷ []) = some []
parent (c ∷ d ∷ p) = elim (parent (d ∷ p)) [ some q ↦ some (c ∷ q) | none ↦ none ]

-- `parent().unwrap().join("ebpf")`
abbrev beside : Option PathBuf → Outcome (Result IoError PathBuf)
beside none = panics
beside (some dir) = returns (ok (join (join dir (codes "ebpf")) (codes "fork_monitor.bpf.o")))

unfoldable pub beside_exe : Environment → Outcome (Result IoError PathBuf)
beside_exe env = elim env.current_exe [ ok exe ↦ beside (parent exe) | err e ↦ returns (err e) ]

unfoldable pub get_object_path : Environment → Outcome (Result IoError PathBuf)
get_object_path env = elim env.ebpf_object_dir [
  | some other ↦ ite (OsString-discrete other (codes "EXE_DIR")) (beside_exe env) (
      ite (OsString-discrete other (codes "CUR_DIR"))
        (returns (do
          dir ← env.current_dir
          ok (join (join dir (codes "ebpf")) (codes "fork_monitor.bpf.o"))))
        (returns (ok (join (from_text other) (codes "fork_monitor.bpf.o")))))
  | none ↦ beside_exe env
]

-- The errors of the aya crate, as codes.
pub data Error : Type 0 where
  io ebpf program : ℕ → Error

-- A loaded object: its programs by name, where `none` is a name that it does not have. A program may be
-- no tracepoint, or refuse to be loaded or attached.
pub record Ebpf : Type 0 where
  pub program_mut : Str → Option (Result ℕ (Unit {0}))
  pub load : Str → Result ℕ (Unit {0})
  pub attach : Str × Str × Str → Result ℕ (Unit {0})

abbrev pub attachments : List (Str × Str × Str)
attachments =
    (codes "trace_sched_process_fork", codes "sched", codes "sched_process_fork")
    ∷ (codes "trace_exec", codes "syscalls", codes "sys_enter_execve")
    ∷ (codes "trace_exit", codes "sched", codes "sched_process_exit")
    ∷ (codes "trace_clone", codes "syscalls", codes "sys_enter_clone")
    ∷ (codes "trace_unshare", codes "syscalls", codes "sys_enter_unshare")
    ∷ (codes "trace_setns", codes "syscalls", codes "sys_enter_setns")
    ∷ []

-- One round of the loop, for a program that the object has.
unfoldable pub attach_one : Ebpf → Str × Str × Str → Result ℕ (Unit {0}) → Result Error (Unit {0})
attach_one bpf attachment tracepoint =
    map_err program (do _ ← tracepoint; _ ← bpf.load attachment.0; bpf.attach attachment)

-- The loop, with what has been attached so far; a program that is not there panics.
unfoldable pub attach_all :
    Ebpf
    → List (Str × Str × Str)
    → List (Str × Str × Str)
    → Outcome (Result Error (List (Str × Str × Str)))
attach_all bpf [] attached = returns (ok attached)
attach_all bpf (x ∷ xs) attached = elim (bpf.program_mut x.0) [
  | none ↦ panics
  | some tracepoint ↦ elim (attach_one bpf x tracepoint) [
    | ok _ ↦ attach_all bpf xs (attached ++ x ∷ [])
    | err e ↦ returns (err e)
  ]
]

-- What stays attached to the object that the returned future owns.
unfoldable pub monitor_syscalls :
    Environment → (PathBuf → Result ℕ Ebpf) → Outcome (Result Error (List (Str × Str × Str)))
monitor_syscalls env load_file = elim (get_object_path env) [
  | panics ↦ panics
  | returns (err e) ↦ returns (err (io e))
  | returns (ok path) ↦ elim (load_file path) [
    | err e ↦ returns (err (ebpf e))
    | ok bpf ↦ attach_all bpf attachments []
  ]
]

-- The object has the program as a tracepoint, and it was loaded and attached without an error.
abbrev pub IsAttached : Ebpf → Str × Str × Str → Type 0
IsAttached bpf x =
    (bpf.program_mut x.0 ≡ some (ok tt)) × (bpf.load x.0 ≡ ok tt) × (bpf.attach x ≡ ok tt)

attach_one_lem :
    (bpf : Ebpf) (x : Str × Str × Str) (tracepoint : Result ℕ (Unit {0})) {u : Unit {0}}
    → bpf.program_mut x.0 ≡ some tracepoint
    → attach_one bpf x tracepoint ≡ ok u
    → IsAttached bpf x
unfolding attach_one
attach_one_lem bpf x tracepoint found e = elim (Result-cases (bpf.load x.0)) [
  | inl (tt, loaded) ↦ elim (Result-cases (bpf.attach x)) [
    | inl (tt, done) ↦ (ground arith, loaded, done)
    | inr (error, failed) ↦ absurd (ground arith)
  ]
  | inr (error, failed) ↦ absurd (ground arith)
]

attach_all_lem :
    (bpf : Ebpf) (xs attached : List (Str × Str × Str)) {all : List (Str × Str × Str)}
    → attach_all bpf xs attached ≡ returns (ok all)
    → (all ≡ attached ++ xs) × All (IsAttached bpf) xs
unfolding attach_all
attach_all_lem bpf [] attached e = (ground (arith, append-nil attached), tt)
attach_all_lem bpf (x ∷ xs) attached e = elim (Option-cases (bpf.program_mut x.0)) [
  | inl missing ↦ absurd (ground arith)
  | inr (tracepoint, found) ↦ elim (Result-cases (attach_one bpf x tracepoint)) [
    | inl (_, done) ↦
        let (order, rest) = attach_all_lem bpf xs (attached ++ x ∷ []) (ground arith) in
        (
          order ∙ append_assoc attached (x ∷ []) xs,
          (attach_one_lem bpf x tracepoint found done, rest),
        )
    | inr (error, failed) ↦ absurd (ground arith)
  ]
]

-- Where the set-up succeeds, the object at the path of `get_object_path` was loaded, and all six
-- programs were found in it, loaded and attached, each to its own tracepoint and in order: no step was
-- skipped and no error was passed over.
pub monitor_syscalls-IsAttached :
    (env : Environment) (load_file : PathBuf → Result ℕ Ebpf) {attached : List (Str × Str × Str)}
    → monitor_syscalls env load_file ≡ returns (ok attached)
    → (path : PathBuf) × (bpf : Ebpf) × (get_object_path env ≡ returns (ok path))
      × (load_file path ≡ ok bpf)
      × (attached ≡ attachments)
      × All (IsAttached bpf) attachments
unfolding monitor_syscalls
monitor_syscalls-IsAttached env load_file e = elim (Outcome-cases (get_object_path env)) [
  | inr panicked ↦ absurd (ground arith)
  | inl (err error, failed) ↦ absurd (ground arith)
  | inl (ok path, found) ↦ elim (Result-cases (load_file path)) [
    | inr (error, failed) ↦ absurd (ground arith)
    | inl (bpf, loaded) ↦
        let (order, done) = attach_all_lem bpf attachments [] (ground arith) in
        (path, bpf, found, loaded, order, done)
  ]
]
