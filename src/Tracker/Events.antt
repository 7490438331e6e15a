-- ===== src/Tracker/Events.antt =====
-- The events of src/netns_tracker.rs: `process_event`, the filter in front of it and the loop
-- around it. Every event is handled against the system as it is at that time.
use net_device_mapping.Channel.{Sender, send}
use net_device_mapping.HashMap
use net_device_mapping.HashSet
use net_device_mapping.Host.{Host, INode, IoError}
use net_device_mapping.MountMonitor
use net_device_mapping.MountMonitor.{MountPoint, MountChange, Uuid, fstype_key}
use net_device_mapping.Netns
use net_device_mapping.Netns.{NetworkNamespace}
use net_device_mapping.NsidMonitor
use net_device_mapping.NsidMonitor.{NetnsIdEvent}
use net_device_mapping.Path.{PathBuf, codes}
use net_device_mapping.Path.Equality.{path_key}
use net_device_mapping.Prelude.{
  ℕ, Bool, true, false, not, ◌&&◌, List, [], ◌∷◌, Option, none, some, Result, ok, err, map_err,
  ◌>>=◌, ◌==◌, if◌then◌else◌, length, nat_key, key_eq,
}
use net_device_mapping.SyscallMonitor.{
  EventType, EbpfEvent, fork, exec, exit, clone, unshare, setns,
}
use net_device_mapping.Tracker.MountState.{MountState, on_event, get_path}
use net_device_mapping.Tracker.Search.{find_netns_id_addition}
use net_device_mapping.Tracker.State.{
  ShallowNamespace, State, current_state, ensure_namespace, write_namespace, write_ensured,
  namespace_by_id, namespace_by_path, remove_namespace, does_namespace_has_pids, process_netns_path,
}

pub data Error : Type 0 where
  io_error : IoError → Error
  netns_error : Netns.Error → Error

pub data Event : Type 0 where
  netns_id_event : NetnsIdEvent → Event
  mount_change : MountChange → Event
  syscall : EbpfEvent → Event
  state_requested : Event

-- Only mounts of nsfs matter. A removal does not say what was mounted, so it always passes.
unfoldable pub is_relevant : MountChange → Bool
is_relevant (MountMonitor.added _ mount_point) =
    key_eq mount_point.fstype (MountMonitor.other (codes "nsfs"))
is_relevant (MountMonitor.removed _) = true
is_relevant (MountMonitor.modified _ mount_point) =
    key_eq mount_point.fstype (MountMonitor.other (codes "nsfs"))

abbrev pub set_id : ℕ → ShallowNamespace → ShallowNamespace
set_id id netns = record netns { id = some id }

abbrev pub add_path : PathBuf → ShallowNamespace → ShallowNamespace
add_path path netns = record netns { fs_path = HashSet.insert path netns.fs_path }

abbrev pub drop_path : PathBuf → ShallowNamespace → ShallowNamespace
drop_path path netns = record netns { fs_path = HashSet.remove path netns.fs_path }

unfoldable pub on_netns_id : Host → NetnsIdEvent → State → Result Error State
on_netns_id h (NsidMonitor.added id) s = do
  found ← map_err io_error (find_netns_id_addition h s id)
  elim found [ some inode ↦ ok (write_ensured inode (set_id id) s) | none ↦ ok s ]
-- Losing an id means that the namespace is removed.
on_netns_id h (NsidMonitor.removed id) s = elim (namespace_by_id id s) [
  | some (inode, _) ↦ ok (remove_namespace inode s).0
  | none ↦ ok s
]

-- No processes and no bound path: the namespace is deleted.
unfoldable pub unbind : PathBuf → INode → ShallowNamespace → State → State
unbind path inode netns s =
    let s' = write_namespace inode (drop_path path) s in
    if length (HashSet.remove path netns.fs_path) == 0 && not (does_namespace_has_pids inode s')
    then (remove_namespace inode s').0
    else s'

-- The path under which a mount was known, with the namespace that is bound to it.
abbrev pub bound_namespace : Uuid → MountState → State → Option (PathBuf × INode × ShallowNamespace)
bound_namespace uuid mounts s = elim (get_path uuid mounts) [
  | some path ↦ elim (namespace_by_path path s) [
    | some (inode, netns) ↦ some (path, inode, netns)
    | none ↦ none
  ]
  | none ↦ none
]

unfoldable pub on_mount_change : Host → MountChange → MountState → State → State
on_mount_change h (MountMonitor.added _ mount_point) mounts s = elim (h.metadata mount_point.path) [
  | ok inode ↦ write_ensured inode (add_path mount_point.path) s
  | err _ ↦ s
]
on_mount_change h (MountMonitor.removed uuid) mounts s = elim (bound_namespace uuid mounts s) [
  | some (path, inode, netns) ↦ unbind path inode netns s
  | none ↦ s
]
on_mount_change h (MountMonitor.modified uuid mount_point) mounts s =
    elim (bound_namespace uuid mounts s) [
      | some (old_path, inode, netns) ↦
          write_namespace inode (λ n. add_path mount_point.path (drop_path old_path n)) s
      | none ↦ s
    ]

-- Where the process is now: it may be new, or may have changed its namespace.
unfoldable pub check_process : Host → ℕ → State → State
check_process h pid s = elim (h.metadata (process_netns_path pid)) [
  | ok inode ↦
      let s' = ensure_namespace inode s in record s' { pids = HashMap.insert pid inode s'.pids }
  | err _ ↦ s
]

unfoldable pub on_syscall : Host → EventType → ℕ → State → State
on_syscall h fork pid s = check_process h pid s
on_syscall h clone pid s = check_process h pid s
on_syscall h unshare pid s = check_process h pid s
on_syscall h setns pid s = check_process h pid s
on_syscall h exit pid s = record s { pids = HashMap.remove pid s.pids }
on_syscall h exec pid s = s

-- What the tracker's future owns.
pub record Tracker : Type 0 where
  pub state : State
  pub mount_state : MountState
  pub responses : Sender (List NetworkNamespace)

-- The tracker afterwards, and whether it should quit.
unfoldable pub process_event : Host → Event → Tracker → Result Error (Tracker × Bool)
process_event h (netns_id_event event) t = do
  s ← on_netns_id h event t.state
  ok (record t { state = s }, false)
process_event h (mount_change change) t = ok (
  record t {
    state = on_mount_change h change t.mount_state t.state;
    mount_state = on_event change t.mount_state;
  },
  false,
)
process_event h (syscall event) t =
    ok (record t { state = on_syscall h event.kind event.pid t.state }, false)
process_event h state_requested t =
    let (responses, sent) = send (current_state t.state) t.responses in
    ok (record t { responses = responses }, not sent)

-- What wakes the loop: no receiver of states is left, an event, or the end of all the streams.
pub data Wake : Type 0 where
  closed : Wake
  event : Host → Event → Wake
  no_event : Wake

-- The loop of the tracker's future, over what wakes it. A wake without an event changes nothing. The value is
-- the tracker after these wakes, where the loop has ended by then or waits for more, or the error by which
-- the future ended.
unfoldable pub track : List Wake → Tracker → Result Error Tracker
track [] t = ok t
track (closed ∷ wakes) t = ok t
track (no_event ∷ wakes) t = track wakes t
track (event h e ∷ wakes) t = do
  (t', should_quit) ← process_event h e t
  if should_quit then ok t' else track wakes t'
