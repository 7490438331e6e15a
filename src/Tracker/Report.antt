-- ===== src/Tracker/Report.antt =====
-- What `current_state` reports, against a direct description: each namespace once, with the processes
-- that are in it.
pub mod Reload
use mathlib.Core.List.{append-nil, append_assoc}
use mathlib.Core.Option
use net_device_mapping.HashMap
use net_device_mapping.HashMap.{HashMap, IsMap}
use net_device_mapping.HashMap.Laws.{get-insert, get-remove}
use net_device_mapping.Host.{INode, Pid}
use net_device_mapping.Netns.{NetworkNamespace}
use net_device_mapping.Prelude.{
  ◌≡◌, refl, sym, ap₂, true, List, [], ◌∷◌, ◌++◌, map, arith, nat_key, key_eq, if◌then◌else◌,
}
use net_device_mapping.Tracker.State.{ShallowNamespace, State, group_pids, rebuild, current_state}

-- The processes in a namespace, in the order of the map's entries.
unfoldable pub pids_of : INode → HashMap Pid INode → List Pid
pids_of inode [] = []
pids_of inode ((pid, i) ∷ pids) =
    if key_eq i inode then pid ∷ pids_of inode pids else pids_of inode pids

abbrev pub describe : HashMap Pid INode → INode × ShallowNamespace → NetworkNamespace
describe pids (inode, netns) = record {
  inode = inode;
  id = netns.id;
  fs_path = netns.fs_path;
  pids = pids_of inode pids;
}

abbrev group : INode → HashMap INode (List Pid) → List Pid
group inode groups = Option.get_or (HashMap.get inode groups) []

group-group_pids :
    (inode : INode) (pids : HashMap Pid INode) (groups : HashMap INode (List Pid))
    → group inode (group_pids pids groups) ≡ group inode groups ++ pids_of inode pids
unfolding group_pids pids_of
group-group_pids inode [] groups = sym (append-nil _)
group-group_pids inode ((pid, i) ∷ pids) groups = ground (
  arith,
  group-group_pids inode pids (HashMap.insert i (group i groups ++ pid ∷ []) groups),
  get-insert i inode (group i groups ++ pid ∷ []) groups,
  append_assoc (group inode groups) (pid ∷ []) (pids_of inode pids),
)

rebuild-describe :
    (pids : HashMap Pid INode) (namespaces : HashMap INode ShallowNamespace)
    (groups : HashMap INode (List Pid))
    → IsMap namespaces
    → ((i : INode) → HashMap.contains_key i namespaces ≡ true → group i groups ≡ pids_of i pids)
    → rebuild namespaces groups ≡ map (describe pids) namespaces
unfolding rebuild HashMap.get
rebuild-describe pids [] groups m h = refl
rebuild-describe pids ((inode, netns) ∷ namespaces) groups (fresh, m) h =
    ap₂
      (λ ps rest.
        record { inode = inode; id = netns.id; fs_path = netns.fs_path; pids = ps } ∷ rest)
      (h inode (ground arith))
      (rebuild-describe pids namespaces (HashMap.remove inode groups) m
        (λ i there. ground (arith, get-remove inode i groups, h i)))

-- `current_state` lists every namespace once, in the order of the map, and with it exactly the
-- processes that the tracker has in it.
pub current_state-describe :
    (s : State) → IsMap s.namespaces → current_state s ≡ map (describe s.pids) s.namespaces
unfolding current_state HashMap.get
current_state-describe s m =
    rebuild-describe s.pids s.namespaces (group_pids s.pids []) m
      (λ i there. group-group_pids i s.pids [])
