-- ===== src/SyscallMonitor/Show.antt =====
-- The `Debug` implementations of src/syscall_monitor.rs, by which an event is printed. `debug_str` is how
-- std's `Debug` shows a text.
use net_device_mapping.Decimal.{to_string}
use net_device_mapping.Path.{Str, codes, concat}
use net_device_mapping.Prelude.{List, [], ◌∷◌, ◌++◌}
use net_device_mapping.SyscallMonitor.{
  EventType, EbpfEvent, fork, exec, exit, clone, unshare, setns,
}
use net_device_mapping.SyscallMonitor.Command.{command_as_string}

unfoldable pub debug_kind : EventType → Str
debug_kind fork = codes "Fork"
debug_kind exec = codes "Exec"
debug_kind exit = codes "Exit"
debug_kind clone = codes "Clone"
debug_kind unshare = codes "Unshare"
debug_kind setns = codes "Setns"

-- `debug_struct` with its fields, as `{:?}` shows them.
abbrev pub field : Str → Str → Str
field name value = name ++ codes ": " ++ value

abbrev pub fields : List (Str × Str) → Str
fields [] = []
fields ((name, value) ∷ []) = field name value
fields ((name, value) ∷ x ∷ xs) = concat (field name value ∷ codes ", " ∷ fields (x ∷ xs) ∷ [])

abbrev pub debug_struct : Str → List (Str × Str) → Str
debug_struct name xs = concat (name ∷ codes " { " ∷ fields xs ∷ codes " }" ∷ [])

unfoldable pub debug_event : (Str → Str) → EbpfEvent → Str
unfolding debug_kind command_as_string
debug_event debug_str e = debug_struct (codes "EbpfEvent") (
    (codes "kind", debug_kind e.kind)
    ∷ (codes "pid", to_string e.pid)
    ∷ (codes "tid", to_string e.tid)
    ∷ (codes "uid", to_string e.uid)
    ∷ (codes "gid", to_string e.gid)
    ∷ (codes "parent_pid", to_string e.parent_pid)
    ∷ (codes "command", debug_str (command_as_string e))
    ∷ [])
