-- ===== src/Tracker/Invariant/Load.antt =====
-- The tracker starts well formed, and `add_namespace` keeps it so.
use net_device_mapping.HashMap
use net_device_mapping.HashMap.Laws.{get-insert_self}
use net_device_mapping.Host.{Host, INode, Pid}
use net_device_mapping.Netns.{NetworkNamespace}
use net_device_mapping.Netns.Scan.{all}
use net_device_mapping.Prelude.{
  ◌≡◌, inl, inr, true, List, [], ◌∷◌, ok, arith, nat_key, Bool-cases, Result-cases, subst,
}
use net_device_mapping.Tracker.Invariant.{IsWellFormed}
use net_device_mapping.Tracker.Invariant.Methods.{insert_namespace-IsWellFormed, place-IsWellFormed}
use net_device_mapping.Tracker.State.{
  ShallowNamespace, State, empty, insert_pids, load, new, add_namespace,
}

insert_pids-IsWellFormed :
    (inode : INode) (pids : List Pid) (s : State)
    → IsWellFormed s
    → HashMap.contains_key inode s.namespaces ≡ true
    → IsWellFormed (record s { pids = insert_pids inode pids s.pids })
unfolding insert_pids
insert_pids-IsWellFormed inode [] s w there = w
insert_pids-IsWellFormed inode (pid ∷ pids) s w there =
    insert_pids-IsWellFormed inode pids (record s { pids = HashMap.insert pid inode s.pids })
      (place-IsWellFormed pid inode s w there) there

-- A namespace with its processes.
enter-IsWellFormed :
    (netns : NetworkNamespace) (s : State)
    → IsWellFormed s
    → IsWellFormed (record {
      namespaces =
          HashMap.insert netns.inode
            (record { id = netns.id; fs_path = netns.fs_path })
            s.namespaces;
      pids = insert_pids netns.inode netns.pids s.pids;
    })
enter-IsWellFormed netns s w =
    let entry : ShallowNamespace = record { id = netns.id; fs_path = netns.fs_path } in
    insert_pids-IsWellFormed netns.inode netns.pids
      (record s { namespaces = HashMap.insert netns.inode entry s.namespaces })
      (insert_namespace-IsWellFormed netns.inode entry s w) (rw get-insert_self)

load-IsWellFormed :
    (all : List NetworkNamespace) (s : State) → IsWellFormed s → IsWellFormed (load all s)
unfolding load
load-IsWellFormed [] s w = w
load-IsWellFormed (netns ∷ all) s w = load-IsWellFormed all _ (enter-IsWellFormed netns s w)

pub empty-IsWellFormed : IsWellFormed empty
unfolding HashMap.get
empty-IsWellFormed = record { namespaces_map = tt; pids_map = tt; placed = λ p i found. cc }

-- Whatever the system shows at the start, `State::new` makes a well-formed state of it, if it returns
-- one.
pub new-IsWellFormed : (h : Host) {s : State} → new h ≡ ok s → IsWellFormed s
unfolding new
new-IsWellFormed h {s} e = elim (Result-cases (all h)) [
  | inl (namespaces, found) ↦
      subst IsWellFormed (ground arith) (load-IsWellFormed namespaces empty empty-IsWellFormed)
  | inr (error, failed) ↦ absurd (ground arith)
]

pub add_namespace-IsWellFormed :
    (netns : NetworkNamespace) (s : State) → IsWellFormed s → IsWellFormed (add_namespace netns s).0
unfolding add_namespace
add_namespace-IsWellFormed netns s w =
    elim (Bool-cases (HashMap.contains_key netns.inode s.namespaces)) [
      | inl there ↦ rw there w
      | inr new ↦ rw new (enter-IsWellFormed netns s w)
    ]
