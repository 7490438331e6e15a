-- ===== src/Netns/Procfs/Paths.antt =====
-- Which process a path under /proc names: `parse_procfs_path_start` on the paths that the kernel shows.
use net_device_mapping.Decimal.{ParseIntError, u64_max, digits, to_string}
use net_device_mapping.Decimal.Roundtrip.{parse_u64-to_string}
use net_device_mapping.Netns.Procfs.{
  ParseProcfsError, parse_procfs_path_start, root_component, named_component, numeric_component,
}
use net_device_mapping.Path.{
  Str, OsString, PathBuf, codes, root_dir, normal, IsAscii, IsAscii-is_utf8, is_absolute,
}
use net_device_mapping.Path.Equality.{OsString-discrete}
use net_device_mapping.Prelude.{
  ℕ, zero, suc, ◌+◌, ◌/◌, ◌%◌, ◌≤◌, ◌≡◌, refl, [], ◌∷◌, ok, arith, Bool-cases, inl, inr, ◌==◌,
  ℕ_discrete,
}

digits-IsAscii : (f n : ℕ) (out : Str) → IsAscii out → IsAscii (digits f n out)
unfolding digits
digits-IsAscii zero n out a = a
digits-IsAscii (suc f) n out a = elim (Bool-cases (n / 10 == 0)) [
  | inl last ↦ rw last (omega arith, a)
  | inr more ↦ rw more (digits-IsAscii f (n / 10) ((48 + n % 10) ∷ out) (omega arith, a))
]

to_string-IsAscii : (n : ℕ) → IsAscii (to_string n)
unfolding to_string
to_string-IsAscii n = digits-IsAscii (suc n) n [] tt

numeric_component-to_string :
    (missing : ParseProcfsError) (erroneous : OsString → ParseProcfsError)
    (not_a_number : Str → ParseIntError → ParseProcfsError) (n : ℕ) (rest : PathBuf)
    → n ≤ u64_max
    → numeric_component missing erroneous not_a_number (normal (to_string n) ∷ rest) ≡ ok (n, rest)
unfolding numeric_component
numeric_component-to_string missing erroneous not_a_number n rest h =
    ground (arith, IsAscii-is_utf8 (to_string n) (to_string-IsAscii n), parse_u64-to_string n h)

-- The start of a path `/proc/<tgid>/task/<pid>`, with the numbers in decimal, parses to `pid`, whatever
-- follows, where both numbers fit in a u64.
pub parse_procfs_path_start-task :
    (tgid pid : ℕ) (rest : PathBuf)
    → tgid ≤ u64_max
    → pid ≤ u64_max
    → parse_procfs_path_start (
        root_dir
        ∷ normal (codes "proc")
        ∷ normal (to_string tgid)
        ∷ normal (codes "task")
        ∷ normal (to_string pid)
        ∷ rest)
      ≡ ok pid
unfolding parse_procfs_path_start root_component named_component is_absolute OsString-discrete
    ℕ_discrete
parse_procfs_path_start-task tgid pid rest h k =
    rw (numeric_component-to_string _ _ _ tgid _ h, numeric_component-to_string _ _ _ pid rest k)
      refl
