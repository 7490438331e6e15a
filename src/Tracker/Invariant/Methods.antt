-- ===== src/Tracker/Invariant/Methods.antt =====
-- The methods of the tracker's `State` keep it well formed.
use net_device_mapping.HashMap
use net_device_mapping.HashMap.{HashMap, IsMap}
use net_device_mapping.HashMap.Iterate.{filter-IsMap, get-filter}
use net_device_mapping.HashMap.Laws.{
  get-insert, get-insert_self, get-remove, insert-IsMap, remove-IsMap,
}
use net_device_mapping.Host.{INode, Pid}
use net_device_mapping.Prelude.{
  ◌≡◌, inl, inr, true, not, ◌||◌, arith, nat_key, key_eq, Option-cases, Bool-cases, subst,
}
use net_device_mapping.Tracker.Invariant.{IsWellFormed}
use net_device_mapping.Tracker.State.{
  ShallowNamespace, State, ensure_namespace, write_namespace, write_ensured, remove_namespace,
}

-- A namespace that is inserted does not hide another.
contains_key-insert :
    (i j : INode) (netns : ShallowNamespace) (m : HashMap INode ShallowNamespace)
    → HashMap.contains_key j (HashMap.insert i netns m) ≡ (key_eq i j || HashMap.contains_key j m)
contains_key-insert i j netns m = ground (arith, get-insert i j netns m)

pub insert_namespace-IsWellFormed :
    (inode : INode) (netns : ShallowNamespace) (s : State)
    → IsWellFormed s
    → IsWellFormed (record s { namespaces = HashMap.insert inode netns s.namespaces })
insert_namespace-IsWellFormed inode netns s w = record {
  namespaces_map = insert-IsMap inode netns s.namespaces w.namespaces_map;
  pids_map = w.pids_map;
  placed = λ pid i found.
      ground (arith, contains_key-insert inode i netns s.namespaces, w.placed pid i found);
}

pub ensure_namespace-IsWellFormed :
    (inode : INode) (s : State) → IsWellFormed s → IsWellFormed (ensure_namespace inode s)
unfolding ensure_namespace
ensure_namespace-IsWellFormed inode s w =
    elim (Bool-cases (HashMap.contains_key inode s.namespaces)) [
      | inl there ↦ rw there w
      | inr new ↦ rw new (insert_namespace-IsWellFormed inode _ s w)
    ]

pub ensure_namespace-contains :
    (inode : INode) (s : State)
    → HashMap.contains_key inode (ensure_namespace inode s).namespaces ≡ true
unfolding ensure_namespace
ensure_namespace-contains inode s = elim (Bool-cases (HashMap.contains_key inode s.namespaces)) [
  | inl there ↦ rw (there, there)
  | inr new ↦ rw new (rw get-insert_self)
]

pub write_namespace-IsWellFormed :
    (inode : INode) (change : ShallowNamespace → ShallowNamespace) (s : State)
    → IsWellFormed s
    → IsWellFormed (write_namespace inode change s)
unfolding write_namespace
write_namespace-IsWellFormed inode change s w =
    elim (Option-cases (HashMap.get inode s.namespaces)) [
      | inl absent ↦ rw (absent, write_namespace) w
      | inr (netns, found) ↦
          rw (found, write_namespace) (insert_namespace-IsWellFormed inode (change netns) s w)
    ]

pub write_ensured-IsWellFormed :
    (inode : INode) (change : ShallowNamespace → ShallowNamespace) (s : State)
    → IsWellFormed s
    → IsWellFormed (write_ensured inode change s)
unfolding write_ensured
write_ensured-IsWellFormed inode change s w =
    write_namespace-IsWellFormed inode change (ensure_namespace inode s)
      (ensure_namespace-IsWellFormed inode s w)

-- A process is put into a namespace that is there.
pub place-IsWellFormed :
    (pid : Pid) (inode : INode) (s : State)
    → IsWellFormed s
    → HashMap.contains_key inode s.namespaces ≡ true
    → IsWellFormed (record s { pids = HashMap.insert pid inode s.pids })
place-IsWellFormed pid inode s w there = record {
  namespaces_map = w.namespaces_map;
  pids_map = insert-IsMap pid inode s.pids w.pids_map;
  placed = λ p i found. elim (nat_key.dec pid p) [
    | yes same ↦
        subst (λ j. HashMap.contains_key j s.namespaces ≡ true)
          (ground (arith, get-insert pid p inode s.pids)) there
    | no other ↦ w.placed p i (ground (arith, get-insert pid p inode s.pids))
  ];
}

pub forget-IsWellFormed :
    (pid : Pid) (s : State)
    → IsWellFormed s
    → IsWellFormed (record s { pids = HashMap.remove pid s.pids })
forget-IsWellFormed pid s w = record {
  namespaces_map = w.namespaces_map;
  pids_map = remove-IsMap pid s.pids w.pids_map;
  placed = λ p i found. w.placed p i (ground (arith, get-remove pid p s.pids));
}

pub remove_namespace-IsWellFormed :
    (inode : INode) (s : State) → IsWellFormed s → IsWellFormed (remove_namespace inode s).0
unfolding remove_namespace
remove_namespace-IsWellFormed inode s w = elim (Option-cases (HashMap.get inode s.namespaces)) [
  | inl absent ↦ rw (absent, remove_namespace) w
  | inr (netns, found) ↦
      rw (found, remove_namespace)
        (record {
          namespaces_map = remove-IsMap inode s.namespaces w.namespaces_map;
          pids_map = filter-IsMap _ s.pids w.pids_map;
          placed = λ p i f. ground (
            arith,
            get-filter p (λ e. not (key_eq e.1 inode)) s.pids w.pids_map,
            get-remove inode i s.namespaces,
            w.placed p i,
          );
        })
]
