-- ===== src/Tests/Parsing.antt =====
-- The number and path parsers that src/netns.rs uses.
use net_device_mapping.Decimal.{
  to_string, parse_u64, invalid_digit, pos_overflow, digits, scan, from_plus,
}
use net_device_mapping.Decimal.Roundtrip.{parse_u64-to_string}
use net_device_mapping.Netns.Procfs.{
  parse_procfs_path_start, root_component, named_component, numeric_component, not_absolute,
  non_proc,
}
use net_device_mapping.Netns.Procfs.Paths.{parse_procfs_path_start-task}
use net_device_mapping.Path.{PathBuf, codes, root_dir, normal, is_absolute, is_utf8}
use net_device_mapping.Path.Equality.{OsString-discrete}
use net_device_mapping.Prelude.{◌≡◌, refl, [], ◌∷◌, ok, err, arith, ℕ_discrete}

program : Unit {0}
unfolding to_string parse_u64 digits scan from_plus parse_procfs_path_start root_component
    named_component numeric_component is_absolute is_utf8 OsString-discrete ℕ_discrete
program = tt

parse_u64-to_string_example : parse_u64 (to_string 4026) ≡ ok 4026
parse_u64-to_string_example = parse_u64-to_string 4026 (omega arith)

malformed :
    (parse_u64 (codes "self") ≡ err invalid_digit)
    × (parse_u64 (codes "18446744073709551616") ≡ err pos_overflow)
    × (parse_u64 (codes "+7") ≡ ok 7)
unfolding program
malformed = (refl, refl, refl)

abbrev rest : PathBuf
rest = normal (codes "ns") ∷ normal (codes "net") ∷ []

parse_procfs_path_start-task_example :
    parse_procfs_path_start (
      root_dir
      ∷ normal (codes "proc")
      ∷ normal (to_string 70)
      ∷ normal (codes "task")
      ∷ normal (to_string 71)
      ∷ rest)
    ≡ ok 71
parse_procfs_path_start-task_example =
    parse_procfs_path_start-task 70 71 rest (omega arith) (omega arith)

other_paths :
    (parse_procfs_path_start rest ≡ err not_absolute)
    × (parse_procfs_path_start (root_dir ∷ rest) ≡ err non_proc)
unfolding program
other_paths = (refl, refl)
