-- ===== src/Tracker/State.antt =====
-- `State` of src/netns_tracker.rs, with one function for each method. A method that returns
-- `&mut ShallowNamespace` returns what it found here, and the caller's write is `write_namespace`.
use mathlib.Core.Option
use net_device_mapping.Decimal.{to_string}
use net_device_mapping.HashMap
use net_device_mapping.HashMap.{HashMap}
use net_device_mapping.HashSet
use net_device_mapping.HashSet.{HashSet}
use net_device_mapping.Host.{Host, INode, Pid, NsId}
use net_device_mapping.Netns
use net_device_mapping.Netns.{NetworkNamespace}
use net_device_mapping.Netns.Scan.{all}
use net_device_mapping.Path.{PathBuf, codes, join, root_dir}
use net_device_mapping.Path.Equality.{path_key}
use net_device_mapping.Prelude.{
  Bool, true, false, not, List, [], ◌∷◌, ◌++◌, Option, none, some, Result, ok, ◌>>=◌, if◌then◌else◌,
  filter, any, find?, head?, nat_key, option_nat_key, key_eq, filter_map,
}

pub record ShallowNamespace : Type 0 where
  pub id : Option NsId
  pub fs_path : HashSet PathBuf

pub record State : Type 0 where
  pub namespaces : HashMap INode ShallowNamespace
  pub pids : HashMap Pid INode

abbrev pub empty : State
empty = record { namespaces = []; pids = [] }

unfoldable pub insert_pids : INode → List Pid → HashMap Pid INode → HashMap Pid INode
insert_pids inode [] pids = pids
insert_pids inode (pid ∷ netns_pids) pids =
    insert_pids inode netns_pids (HashMap.insert pid inode pids)

-- The loop of `State::new`.
unfoldable pub load : List NetworkNamespace → State → State
load [] s = s
load (netns ∷ all) s = load all (record {
  namespaces =
      HashMap.insert netns.inode (record { id = netns.id; fs_path = netns.fs_path }) s.namespaces;
  pids = insert_pids netns.inode netns.pids s.pids;
})

unfoldable pub new : Host → Result Netns.Error State
new h = do namespaces ← all h; ok (load namespaces empty)

-- `into_group_map`: for each inode its processes, in the order of the entries.
unfoldable pub group_pids : HashMap Pid INode → HashMap INode (List Pid) → HashMap INode (List Pid)
group_pids [] groups = groups
group_pids ((pid, inode) ∷ pids) groups =
    group_pids pids
      (HashMap.insert inode (Option.get_or (HashMap.get inode groups) [] ++ pid ∷ []) groups)

-- Each namespace takes its group out of the map.
unfoldable pub rebuild :
    HashMap INode ShallowNamespace → HashMap INode (List Pid) → List NetworkNamespace
rebuild [] groups = []
rebuild ((inode, netns) ∷ namespaces) groups =
    record {
      inode = inode;
      id = netns.id;
      fs_path = netns.fs_path;
      pids = Option.get_or (HashMap.get inode groups) [];
    }
    ∷ rebuild namespaces (HashMap.remove inode groups)

unfoldable pub current_state : State → List NetworkNamespace
current_state s = rebuild s.namespaces (group_pids s.pids [])

unfoldable pub ensure_namespace : INode → State → State
ensure_namespace inode s =
    if not (HashMap.contains_key inode s.namespaces)
    then record s {
      namespaces = HashMap.insert inode (record { id = none; fs_path = [] }) s.namespaces;
    }
    else s

unfoldable pub namespace_mut : INode → State → Option ShallowNamespace
namespace_mut inode s = HashMap.get inode s.namespaces

-- A write through `&mut ShallowNamespace`.
unfoldable pub write_namespace : INode → (ShallowNamespace → ShallowNamespace) → State → State
write_namespace inode change s = elim (HashMap.get inode s.namespaces) [
  | some netns ↦ record s { namespaces = HashMap.insert inode (change netns) s.namespaces }
  | none ↦ s
]

-- `*state.ensure_namespace_mut(inode)` and a write to it.
unfoldable pub write_ensured : INode → (ShallowNamespace → ShallowNamespace) → State → State
write_ensured inode change s = write_namespace inode change (ensure_namespace inode s)

unfoldable pub namespace_by_id : NsId → State → Option (INode × ShallowNamespace)
namespace_by_id id s = find? (λ e. key_eq e.1.id (some id)) s.namespaces

unfoldable pub namespace_by_path : PathBuf → State → Option (INode × ShallowNamespace)
namespace_by_path path s = find? (λ e. HashSet.contains path e.1.fs_path) s.namespaces

-- A namespace that is there already is given back.
unfoldable pub add_namespace : NetworkNamespace → State → State × Option NetworkNamespace
add_namespace netns s = if HashMap.contains_key netns.inode s.namespaces then (s, some netns) else (
  record {
    namespaces =
        HashMap.insert netns.inode (record { id = netns.id; fs_path = netns.fs_path }) s.namespaces;
    pids = insert_pids netns.inode netns.pids s.pids;
  },
  none,
)

-- With the namespace go its processes.
unfoldable pub remove_namespace : INode → State → State × Bool
remove_namespace inode s = elim (HashMap.get inode s.namespaces) [
  | some _ ↦ (
    record {
      namespaces = HashMap.remove inode s.namespaces;
      pids = filter (λ e. not (key_eq e.1 inode)) s.pids;
    },
    true,
  )
  | none ↦ (s, false)
]

unfoldable pub does_namespace_has_pids : INode → State → Bool
does_namespace_has_pids inode s = any (λ e. key_eq e.1 inode) s.pids

unfoldable pub process_netns_path : Pid → PathBuf
process_netns_path pid =
    join (join (join (join (root_dir ∷ []) (codes "proc")) (to_string pid)) (codes "ns"))
      (codes "net")

abbrev pub path_if_in : INode → Pid × INode → Option PathBuf
path_if_in namespace (pid, inode) =
    if key_eq inode namespace then some (process_netns_path pid) else none

-- A file that the namespace is bound to, or else that of a process in it.
unfoldable pub namespace_any_file : INode → State → Option PathBuf
namespace_any_file namespace s =
    elim (Option.bind (HashMap.get namespace s.namespaces) (λ netns. head? netns.fs_path)) [
      | some path ↦ some path
      | none ↦ head? (filter_map (path_if_in namespace) s.pids)
    ]

abbrev pub with_file : State → INode × ShallowNamespace → Option (INode × PathBuf)
with_file s (inode, _) = Option.map (λ x. (inode, x)) (namespace_any_file inode s)

unfoldable pub namespace_files : State → List (INode × PathBuf)
namespace_files s = filter_map (with_file s) s.namespaces
