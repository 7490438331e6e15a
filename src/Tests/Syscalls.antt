-- ===== src/Tests/Syscalls.antt =====
-- The syscall monitor on concrete events: src/syscall_monitor.rs and ebpf/fork_monitor.bpf.c.
use net_device_mapping.Channel.{Sender}
use net_device_mapping.Path.{PathBuf, codes, root_dir, normal, is_utf8, join}
use net_device_mapping.Path.Equality.{OsString-discrete}
use net_device_mapping.Path.Lossy.{from_utf8_lossy}
use net_device_mapping.Path.Parse.{from_text}
use net_device_mapping.Prelude.{
  false, ℕ, ◌+◌, ◌*◌, ◌^◌, ◌≡◌, ◌≢◌, refl, true, List, [], ◌∷◌, ◌++◌, map, none, some, Result, ok,
  err, returns, panics, arith, All, inr, ℕ_discrete,
}
use net_device_mapping.SyscallMonitor.{EbpfEvent, exec, exit, fork}
use net_device_mapping.SyscallMonitor.Command.{command_as_string, command_as_string-name}
use net_device_mapping.SyscallMonitor.Delivery.{Hit, wake_of, events, poll_messages-sent}
use net_device_mapping.SyscallMonitor.Kernel.{
  Task, trace, traced_event, user_event, decode-trace, generic_event, fork_event, event_bytes,
}
use net_device_mapping.SyscallMonitor.Layout.{
  decode, read_u32, read_bytes, event_type, u32_bytes, short_read, no_such_kind,
}
use net_device_mapping.SyscallMonitor.Load.{
  Environment, Ebpf, get_object_path, beside_exe, parent, monitor_syscalls, attach_all, attach_one,
  attachments, IsAttached, monitor_syscalls-IsAttached,
}
use net_device_mapping.SyscallMonitor.Poll.{waiting, poll_messages, send_items}

program : Unit {0}
unfolding command_as_string from_utf8_lossy is_utf8 decode read_u32 read_bytes event_type trace
    traced_event generic_event fork_event event_bytes u32_bytes get_object_path beside_exe parent
    monitor_syscalls attach_all attach_one join from_text OsString-discrete ℕ_discrete poll_messages
    send_items
program = tt

abbrev padding : List ℕ
padding = 0 ∷ 7 ∷ 0 ∷ 0 ∷ 0 ∷ 0 ∷ 0 ∷ 0 ∷ 0 ∷ 0 ∷ 0 ∷ 0 ∷ []

abbrev task : Task
task = record {
  pid_tgid = 70 * 2 ^ 32 + 71;
  uid_gid = 1000;
  real_parent_tgid = 1;
  comm = codes "bash" ++ padding;
}

abbrev exec_event : EbpfEvent
exec_event = user_event exec (traced_event exec 0 task)

-- Bytes that are no UTF-8: a lone continuation byte.
abbrev broken : EbpfEvent
broken = record exec_event { command = 98 ∷ 0xb0 ∷ 97 ∷ padding ++ 0 ∷ [] }

replaced : command_as_string broken ≡ 98 ∷ 0xef ∷ 0xbf ∷ 0xbd ∷ 97 ∷ []
unfolding program
replaced = refl

bash_valid : is_utf8 (codes "bash") ≡ true
unfolding program
bash_valid = refl

bash_named : All (λ b. b ≢ 0) (codes "bash")
bash_named = (omega arith, (omega arith, (omega arith, (omega arith, tt))))

command_as_string-name_example :
    command_as_string (record broken { command = codes "bash" ++ padding }) ≡ codes "bash"
command_as_string-name_example =
    command_as_string-name (record broken { command = codes "bash" ++ padding }) (codes "bash")
      padding bash_valid bash_named (inr (_, refl)) refl

decode-trace_example :
    (item : List ℕ) × (trace true exec 0 task [] ≡ item ∷ [])
    × (decode item ≡ ok (user_event exec (traced_event exec 0 task)))
    × (trace false exec 0 task [] ≡ [])
decode-trace_example = decode-trace exec 0 task [] refl

exec_decoded : user_event exec (traced_event exec 0 task) ≡ exec_event
unfolding program
exec_decoded = refl

misread :
    (decode (1 ∷ 0 ∷ 0 ∷ []) ≡ err short_read)
    × (decode (u32_bytes 6 ++ codes "0123456789") ≡ err no_such_kind)
unfolding program
misread = (refl, refl)

abbrev quiet : Sender EbpfEvent
quiet = record { sent = []; listening = λ n. true }

abbrev batches : List (List Hit)
batches =
    (record { kind = fork; parent_pid = 70; task = task; fits = true } ∷ [])
    ∷ []
    ∷ (record { kind = exec; parent_pid = 0; task = task; fits = false }
        ∷ record { kind = exit; parent_pid = 0; task = task; fits = true }
        ∷ [])
    ∷ []

poll_messages-sent_example :
    poll_messages (map wake_of batches) quiet
    ≡ ok (waiting (record quiet { sent = events batches }))
poll_messages-sent_example =
    poll_messages-sent batches quiet ((refl, tt), (tt, ((refl, (refl, tt)), tt))) (λ n. refl)

abbrev installed : Environment
installed = record {
  ebpf_object_dir = none;
  current_exe = ok (root_dir ∷ normal (codes "bin") ∷ normal (codes "tracker") ∷ []);
  current_dir = err 2;
}

abbrev complete : Ebpf
complete = record {
  program_mut = λ name. some (ok tt);
  load = λ name. ok tt;
  attach = λ attachment. ok tt;
}

abbrev object_path : PathBuf
object_path =
    root_dir
    ∷ normal (codes "bin")
    ∷ normal (codes "ebpf")
    ∷ normal (codes "fork_monitor.bpf.o")
    ∷ []

all_attached : monitor_syscalls installed (λ path. ok complete) ≡ returns (ok attachments)
unfolding program
all_attached = refl

monitor_syscalls-IsAttached_example :
    (path : PathBuf) × (bpf : Ebpf) × (get_object_path installed ≡ returns (ok path))
    × (◌≡◌ {A = Result ℕ Ebpf} (ok complete) (ok bpf))
    × (attachments ≡ attachments)
    × All (IsAttached bpf) attachments
monitor_syscalls-IsAttached_example =
    monitor_syscalls-IsAttached installed (λ path. ok complete) all_attached

object_paths :
    (get_object_path installed ≡ returns (ok object_path))
    × (get_object_path (record installed { ebpf_object_dir = some (codes "CUR_DIR") })
        ≡ returns (err 2))
    × (get_object_path (record installed { ebpf_object_dir = some (codes "/opt/x") })
        ≡ returns (
            ok (
              root_dir
              ∷ normal (codes "opt")
              ∷ normal (codes "x")
              ∷ normal (codes "fork_monitor.bpf.o")
              ∷ [])))
    × (get_object_path (record installed { current_exe = ok (root_dir ∷ []) }) ≡ panics)
unfolding program
object_paths = (refl, refl, refl, refl)
