-- ===== src/Tests/Tracking.antt =====
-- The tracker of src/netns_tracker.rs on a system with two namespaces.
use Prim.Native.String.{String}
use mathlib.Core.Option
use net_device_mapping.Channel.{Sender, send}
use net_device_mapping.Decimal.{to_string, digits, scan, from_plus, parse_u64}
use net_device_mapping.HashMap
use net_device_mapping.HashSet
use net_device_mapping.Host.{Host}
use net_device_mapping.MountMonitor
use net_device_mapping.MountMonitor.{MountPoint}
use net_device_mapping.MountMonitor.Convert.{
  from_mount_point, from_options, from_read_write, from_fs_type,
}
use net_device_mapping.Mountinfo
use net_device_mapping.Netlink.{
  inner_message, new_nsid, del_nsid, other_message, id, pos, negsuc, as_u32, NetlinkPayload,
}
use net_device_mapping.Netns.{NetworkNamespace, proc_ns_path, files, any_file}
use net_device_mapping.Netns.MountsIterator
use net_device_mapping.Netns.NsidQuery.{
  assigned_id, read_responses, id_by_file_descriptor, id_by_file, id_by_path,
}
use net_device_mapping.Netns.PidsIterator
use net_device_mapping.Netns.Procfs.{
  parse_procfs_path_start, root_component, named_component, numeric_component,
}
use net_device_mapping.Netns.Lookup.{
  pids_in, mounts_of, gather, with_id, unless_unused, by_inode, by_path,
}
use net_device_mapping.Netns.Scan.{
  add_pid, scan_pids, add_mount, scan_mounts, query_id_at, query_id, query_ids, all,
}
use net_device_mapping.Netns.Scan.Agreement.{all-by_inode}
use net_device_mapping.Netns.Scan.View.{pids_at, paths_at}
use net_device_mapping.NsidMonitor
use net_device_mapping.NsidMonitor.{
  NetnsIdEvent, extract_nsid_from_attrs, event_of, handle_message, monitor_netns_ids,
}
use net_device_mapping.NsidMonitor.Delivery.{monitor_netns_ids-sent}
use net_device_mapping.NsidMonitor.Messages.{Announce}
use net_device_mapping.Path.{PathBuf, codes, root_dir, normal, join, is_absolute, is_utf8}
use net_device_mapping.Path.Equality.{
  OsString-discrete, Component-discrete, PathBuf-discrete, path_key,
}
use net_device_mapping.Prelude.{
  All, find?, ◌==◌, ℕ, ◌≡◌, refl, true, false, List, [], ◌∷◌, map, filter_map, none, some, ok, err,
  returns, nat_key, option_nat_key, ℕ_discrete, key_eq, if◌then◌else◌,
}
use net_device_mapping.SyscallMonitor.{EbpfEvent, EventType, fork, exit}
use net_device_mapping.Tracker.Events.{
  Event, mount_change, syscall, on_netns_id, unbind, on_mount_change, check_process, on_syscall,
  Tracker, process_event, Wake, closed, event, no_event, track,
}
use net_device_mapping.Tracker.Invariant.{IsWellFormed}
use net_device_mapping.Tracker.Invariant.Events.{track-IsWellFormed}
use net_device_mapping.Tracker.Invariant.Load.{new-IsWellFormed}
use net_device_mapping.Tracker.MountState.{on_event, get_path}
use net_device_mapping.Tracker.Placement.{on_syscall-pids, place_after}
use net_device_mapping.Tracker.Report.{describe, pids_of, current_state-describe}
use net_device_mapping.Tracker.Report.Reload.{load-current_state}
use net_device_mapping.Tracker.Search.{find_netns_id_addition, has_id, search_known}
use net_device_mapping.Tracker.Search.Soundness.{HasId, IsCurrent, find_netns_id_addition-HasId}
use net_device_mapping.Tracker.State.{
  namespace_any_file, namespace_files, State, empty, insert_pids, load, new, group_pids, rebuild,
  current_state, ensure_namespace, write_namespace, write_ensured, namespace_by_id,
  namespace_by_path, remove_namespace, does_namespace_has_pids, process_netns_path,
}

unfoldable pub program : Unit {0}
unfolding send to_string digits scan from_plus parse_u64 HashMap.get HashMap.insert HashMap.remove
    HashSet.contains HashSet.insert HashSet.remove proc_ns_path files any_file MountsIterator.new
    MountsIterator.next Mountinfo.FsType-discrete assigned_id read_responses id_by_file_descriptor
    id_by_file id_by_path PidsIterator.new PidsIterator.next parse_procfs_path_start root_component
    named_component numeric_component pids_in mounts_of gather with_id unless_unused by_inode
    by_path add_pid scan_pids add_mount scan_mounts query_id_at query_id query_ids all join
    is_absolute is_utf8 as_u32 filter_map extract_nsid_from_attrs event_of handle_message
    monitor_netns_ids from_mount_point from_options from_read_write from_fs_type OsString-discrete
    Component-discrete PathBuf-discrete ℕ_discrete on_netns_id unbind on_mount_change check_process
    on_syscall process_event track on_event get_path pids_of insert_pids load new group_pids rebuild
    current_state ensure_namespace write_namespace write_ensured namespace_by_id namespace_by_path
    remove_namespace does_namespace_has_pids process_netns_path
program = tt

abbrev at : List String → PathBuf
at names = root_dir ∷ map (λ x. normal (codes x)) names

abbrev pub red_path : PathBuf
red_path = at ("run" ∷ "red" ∷ [])

abbrev red : Mountinfo.MountPoint
red = record {
  id = some 41;
  parent_id = some 1;
  root = none;
  what = codes "nsfs";
  path = red_path;
  fstype = Mountinfo.other (codes "nsfs");
  options = record { read_write = Mountinfo.read_write; others = [] };
}

abbrev task : PathBuf
task = at ("proc" ∷ "7" ∷ "task" ∷ "7" ∷ "ns" ∷ "net" ∷ [])

abbrev process : PathBuf
process = at ("proc" ∷ "7" ∷ "ns" ∷ "net" ∷ [])

-- Process 7 is in namespace 500, and namespace 400 is bound to `red_path` and has the id 3.
abbrev pub host : Host
host = record {
  glob = λ pattern. some task ∷ none ∷ [];
  metadata = λ path.
      if key_eq path task
      then ok 500
      else if key_eq path process
      then ok 500
      else if key_eq path red_path
      then ok 400
      else err 2;
  mountinfo = ok (red ∷ []);
  new_connection = ok tt;
  open_file = λ path. if key_eq path red_path then ok 9 else ok 8;
  file_metadata = λ file. err 9;
  request = λ r. ok (inner_message (new_nsid (id (pos 3) ∷ [])) ∷ []);
}

abbrev pub found : List NetworkNamespace
found =
    record { inode = 500; id = some 3; fs_path = []; pids = 7 ∷ [] }
    ∷ record { inode = 400; id = some 3; fs_path = red_path ∷ []; pids = [] }
    ∷ []

abbrev pub started : State
started = record {
  namespaces =
      (500, record { id = some 3; fs_path = [] })
      ∷ (400, record { id = some 3; fs_path = red_path ∷ [] })
      ∷ [];
  pids = (7, 500) ∷ [];
}

pub scan_of_host : all host ≡ ok found
unfolding program
scan_of_host = refl

start_of_host : new host ≡ ok started
unfolding program
start_of_host = refl

by_inode_found :
    by_inode host 500
    ≡ returns (ok (some (record { inode = 500; id = some 3; fs_path = []; pids = 7 ∷ [] })))
unfolding program
by_inode_found = refl

all-by_inode_example :
    (pids_at (find? (λ n. n.inode == 500) found)
      ≡ pids_at (some (record { inode = 500; id = some 3; fs_path = []; pids = 7 ∷ [] })))
    × (paths_at (find? (λ n. n.inode == 500) found)
        ≡ paths_at (some (record { inode = 500; id = some 3; fs_path = []; pids = 7 ∷ [] })))
all-by_inode_example = all-by_inode host 500 scan_of_host by_inode_found

abbrev tracker : State → Tracker
tracker s = record {
  state = s;
  mount_state = (1001, from_mount_point red) ∷ [];
  responses = record { sent = []; listening = λ n. true };
}

abbrev of_process : EventType → ℕ → EbpfEvent
of_process kind pid = record {
  kind = kind;
  pid = pid;
  tid = pid;
  uid = 0;
  gid = 0;
  parent_pid = 1;
  command = [];
}

-- Before the process is known.
abbrev unaware : State
unaware = record started { pids = [] }

abbrev forked : Event
forked = syscall (of_process fork 7)

fork_places : process_event host forked (tracker unaware) ≡ ok (tracker started, false)
unfolding program
fork_places = refl

new-IsWellFormed_example : IsWellFormed started
new-IsWellFormed_example = new-IsWellFormed host start_of_host

started-IsWellFormed : IsWellFormed started
started-IsWellFormed = new-IsWellFormed host start_of_host

unaware-IsWellFormed : IsWellFormed unaware
unfolding HashMap.get
unaware-IsWellFormed = record {
  namespaces_map = started-IsWellFormed.namespaces_map;
  pids_map = tt;
  placed = λ p i located. cc;
}

-- The mount goes, then the process: the first namespace is forgotten, the second stays.
abbrev wakes : List Wake
wakes =
    event host forked
    ∷ no_event
    ∷ event host (mount_change (MountMonitor.removed 1001))
    ∷ event host (syscall (of_process exit 7))
    ∷ closed
    ∷ []

abbrev ended : Tracker
ended = record {
  state = record { namespaces = (500, record { id = some 3; fs_path = [] }) ∷ []; pids = [] };
  mount_state = [];
  responses = record { sent = []; listening = λ n. true };
}

end_of_wakes : track wakes (tracker unaware) ≡ ok ended
unfolding program
end_of_wakes = refl

track-IsWellFormed_example : IsWellFormed ended.state
track-IsWellFormed_example =
    track-IsWellFormed wakes (tracker unaware) unaware-IsWellFormed end_of_wakes

current_state-describe_example :
    current_state started ≡ map (describe started.pids) started.namespaces
current_state-describe_example = current_state-describe started started-IsWellFormed.namespaces_map

load-current_state_example :
    (HashMap.get 400 (load (current_state started) empty).namespaces
      ≡ HashMap.get 400 started.namespaces)
    × (HashMap.get 7 (load (current_state started) empty).pids ≡ HashMap.get 7 started.pids)
load-current_state_example = load-current_state started 400 7 started-IsWellFormed

on_syscall-pids_example : HashMap.get 7 (on_syscall host fork 7 unaware).pids ≡ (
    if key_eq {K = ℕ} 7 7
    then place_after fork (host.metadata (process_netns_path 7)) (HashMap.get 7 unaware.pids)
    else HashMap.get 7 unaware.pids)
on_syscall-pids_example = on_syscall-pids host fork 7 7 unaware

-- The kernel announces an id, something else, and the loss of the id.
abbrev messages : List NetlinkPayload
messages =
    inner_message (new_nsid (id (pos 3) ∷ []))
    ∷ inner_message other_message
    ∷ inner_message (del_nsid (id (pos 3) ∷ []))
    ∷ []

abbrev nobody_yet : Sender NetnsIdEvent
nobody_yet = record { sent = []; listening = λ n. true }

monitor_netns_ids-sent_example :
    (events : List NetnsIdEvent) × Announce messages events
    × ((monitor_netns_ids messages nobody_yet).sent ≡ events)
monitor_netns_ids-sent_example = monitor_netns_ids-sent messages nobody_yet (λ n. refl)

ids_sent : filter_map event_of messages ≡ NsidMonitor.added 3 ∷ NsidMonitor.removed 3 ∷ []
unfolding program
ids_sent = refl

-- A namespace without an id: the attribute -1 is read as an id here, where src/netns.rs skips it.
unassigned :
    (extract_nsid_from_attrs (id (negsuc 0) ∷ []) ≡ some 4294967295)
    × (assigned_id (id (negsuc 0) ∷ []) ≡ none)
unfolding program
unassigned = (refl, refl)

-- The tracker has lost the id of the namespace that is bound to `red_path`.
abbrev pub nameless : State
nameless = record {
  namespaces = (400, record { id = none; fs_path = red_path ∷ [] }) ∷ [];
  pids = [];
}

id_search : find_netns_id_addition host nameless 3 ≡ ok (some 400)
unfolding program find_netns_id_addition search_known has_id namespace_files namespace_any_file
    Option.bind
id_search = refl

nameless-IsCurrent : All (IsCurrent host) (namespace_files nameless)
unfolding program namespace_files namespace_any_file Option.bind
nameless-IsCurrent = (refl, tt)

find_netns_id_addition-HasId_example : HasId host 3 400
find_netns_id_addition-HasId_example =
    find_netns_id_addition-HasId host nameless 3 nameless-IsCurrent id_search

-- The file of `red_path` belongs to another namespace by now, which has the id: the search still returns the
-- namespace that the tracker has the file for.
abbrev stale : State
stale = record { namespaces = (999, record { id = none; fs_path = red_path ∷ [] }) ∷ []; pids = [] }

stale_search :
    (find_netns_id_addition host stale 3 ≡ ok (some 999)) × (host.metadata red_path ≡ ok 400)
unfolding program find_netns_id_addition search_known has_id namespace_files namespace_any_file
    Option.bind
stale_search = (refl, refl)
