-- ===== src/Tracker/Report/Reload.antt =====
-- A report loses nothing: `State::new` over it gives the same state, up to the order of the processes.
use net_device_mapping.HashMap
use net_device_mapping.HashMap.{HashMap, IsMap}
use net_device_mapping.HashMap.Laws.{get-insert}
use net_device_mapping.Host.{INode, Pid}
use net_device_mapping.Prelude.{
  ◌≡◌, refl, ◌∙◌, Bool, true, false, List, [], ◌∷◌, map, Option, none, some, arith, nat_key, key_eq,
  any, if◌then◌else◌,
}
use net_device_mapping.Tracker.Invariant.{IsWellFormed}
use net_device_mapping.Tracker.Report.{pids_of, describe, current_state-describe}
use net_device_mapping.Tracker.State.{
  ShallowNamespace, State, empty, insert_pids, load, current_state,
}

abbrev listed : Pid → List Pid → Bool
listed pid pids = any (λ q. key_eq q pid) pids

abbrev is_in : INode → Option INode → Bool
is_in inode none = false
is_in inode (some i) = key_eq i inode

listed-fresh :
    (pid : Pid) (inode : INode) (pids : HashMap Pid INode)
    → HashMap.get pid pids ≡ none
    → listed pid (pids_of inode pids) ≡ false
unfolding pids_of HashMap.get
listed-fresh pid inode [] h = refl
listed-fresh pid inode ((q, i) ∷ pids) h = ground (arith, listed-fresh pid inode pids)

listed-pids_of :
    (pid : Pid) (inode : INode) (pids : HashMap Pid INode)
    → IsMap pids
    → listed pid (pids_of inode pids) ≡ is_in inode (HashMap.get pid pids)
unfolding pids_of HashMap.get
listed-pids_of pid inode [] m = refl
listed-pids_of pid inode ((q, i) ∷ pids) (fresh, m) =
    ground (arith, listed-pids_of pid inode pids m, listed-fresh pid inode pids)

get-insert_pids :
    (pid : Pid) (inode : INode) (ps : List Pid) (pids : HashMap Pid INode)
    → HashMap.get pid (insert_pids inode ps pids)
      ≡ (if listed pid ps then some inode else HashMap.get pid pids)
unfolding insert_pids
get-insert_pids pid inode [] pids = refl
get-insert_pids pid inode (q ∷ ps) pids =
    ground (
      arith,
      get-insert_pids pid inode ps (HashMap.insert q inode pids),
      get-insert q pid inode pids,
    )

-- Where a process is after loading these namespaces with their processes.
abbrev reloaded : Option INode → HashMap INode ShallowNamespace → Option INode → Option INode
reloaded none namespaces before = before
reloaded (some i) namespaces before = if HashMap.contains_key i namespaces then some i else before

load-pids :
    (pid : Pid) (pids : HashMap Pid INode) (namespaces : HashMap INode ShallowNamespace) (s : State)
    → IsMap pids
    → HashMap.get pid (load (map (describe pids) namespaces) s).pids
      ≡ reloaded (HashMap.get pid pids) namespaces (HashMap.get pid s.pids)
unfolding load HashMap.get
load-pids pid pids [] s m = ground arith
load-pids pid pids ((inode, netns) ∷ namespaces) s m = ground (
  arith,
  load-pids pid pids namespaces
      (record {
        namespaces = HashMap.insert inode netns s.namespaces;
        pids = insert_pids inode (pids_of inode pids) s.pids;
      })
      m,
  get-insert_pids pid inode (pids_of inode pids) s.pids,
  listed-pids_of pid inode pids m,
)

reloaded-placed :
    (o : Option INode) (namespaces : HashMap INode ShallowNamespace)
    → ((i : INode) → o ≡ some i → HashMap.contains_key i namespaces ≡ true)
    → reloaded o namespaces none ≡ o
reloaded-placed none namespaces h = refl
reloaded-placed (some i) namespaces h = rw (h i refl)

abbrev or_else : Option ShallowNamespace → Option ShallowNamespace → Option ShallowNamespace
or_else (some netns) before = some netns
or_else none before = before

load-namespaces :
    (i : INode) (pids : HashMap Pid INode) (namespaces : HashMap INode ShallowNamespace) (s : State)
    → IsMap namespaces
    → HashMap.get i (load (map (describe pids) namespaces) s).namespaces
      ≡ or_else (HashMap.get i namespaces) (HashMap.get i s.namespaces)
unfolding load HashMap.get
load-namespaces i pids [] s m = refl
load-namespaces i pids ((inode, netns) ∷ namespaces) s (fresh, m) = ground (
  arith,
  load-namespaces i pids namespaces
      (record {
        namespaces = HashMap.insert inode netns s.namespaces;
        pids = insert_pids inode (pids_of inode pids) s.pids;
      })
      m,
  get-insert inode i netns s.namespaces,
)

-- Loading the reported state of a well-formed tracker into an empty one gives every namespace as it
-- was, and every process in the namespace that it was in.
pub load-current_state :
    (s : State) (inode : INode) (pid : Pid)
    → IsWellFormed s
    → (HashMap.get inode (load (current_state s) empty).namespaces ≡ HashMap.get inode s.namespaces)
      × (HashMap.get pid (load (current_state s) empty).pids ≡ HashMap.get pid s.pids)
unfolding HashMap.get
load-current_state s inode pid w = rw (current_state-describe s w.namespaces_map) (
  ground (arith, load-namespaces inode s.pids s.namespaces empty w.namespaces_map),
  load-pids pid s.pids s.namespaces empty w.pids_map
      ∙ reloaded-placed (HashMap.get pid s.pids) s.namespaces (w.placed pid),
)
