-- ===== src/Netns/Procfs.antt =====
-- `parse_procfs_path_start` of src/netns.rs.
pub mod Paths
use net_device_mapping.Decimal.{ParseIntError, parse_u64}
use net_device_mapping.Path.{Str, codes, OsString, to_str, root_dir, normal, PathBuf, is_absolute}
use net_device_mapping.Path.Equality.{OsString-discrete}
use net_device_mapping.Prelude.{
  ℕ, ◌∷◌, none, some, Result, ok, err, map_err, ◌>>=◌, ite, if◌then◌else◌,
}

pub data ParseProcfsError : Type 0 where
  not_absolute doesnt_start_with_root non_proc no_tgid no_pid : ParseProcfsError
  erroneous_os_tgid erroneous_os_pid : OsString → ParseProcfsError
  not_a_tgid not_a_pid : Str → ParseIntError → ParseProcfsError

-- The next component must be `/`.
unfoldable pub root_component : PathBuf → Result ParseProcfsError PathBuf
root_component (root_dir ∷ rest) = ok rest
root_component _ = err doesnt_start_with_root

-- The next component must be this name.
unfoldable pub named_component : Str → PathBuf → Result ParseProcfsError PathBuf
named_component name (normal x ∷ rest) = ite (OsString-discrete x name) (ok rest) (err non_proc)
named_component name _ = err non_proc

-- The next component must be a name that parses as a u64. The errors are for a missing component, a
-- name that is not text, and a text that is no number.
unfoldable pub numeric_component :
    ParseProcfsError
    → (OsString → ParseProcfsError)
    → (Str → ParseIntError → ParseProcfsError)
    → PathBuf
    → Result ParseProcfsError (ℕ × PathBuf)
numeric_component missing erroneous not_a_number (normal x ∷ rest) = elim (to_str x) [
  | none ↦ err (erroneous x)
  | some s ↦ map_err (not_a_number s) (parse_u64 s) >>= λ n. ok (n, rest)
]
numeric_component missing erroneous not_a_number _ = err missing

unfoldable pub parse_procfs_path_start : PathBuf → Result ParseProcfsError ℕ
parse_procfs_path_start path =
    if is_absolute path
    then (do
      after_root ← root_component path
      after_proc ← named_component (codes "proc") after_root
      (_, after_tgid) ← numeric_component no_tgid erroneous_os_tgid not_a_tgid after_proc
      after_task ← named_component (codes "task") after_tgid
      (pid, _) ← numeric_component no_pid erroneous_os_pid not_a_pid after_task
      ok pid)
    else err not_absolute
