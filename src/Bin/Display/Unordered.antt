-- ===== src/Bin/Display/Unordered.antt =====
-- A state comes from a hash map, so its namespaces stand in no particular order.
use mathlib.Core.List.{Permᴰ}
use net_device_mapping.Bin.Display.{inode_of, frame, list_all}
use net_device_mapping.HashMap
use net_device_mapping.HashMap.{HashMap, IsMap}
use net_device_mapping.HashSet.{HashSet}
use net_device_mapping.Host.{INode, Pid}
use net_device_mapping.Netns.{NetworkNamespace}
use net_device_mapping.Path.{Str, PathBuf}
use net_device_mapping.Prelude.{
  ◌≡◌, ◌≢◌, refl, sym, ◌∙◌, ap, suc, subst, List, [], ◌∷◌, map, none, All, arith, length, nat_key,
}
use net_device_mapping.Sorting.Order.{HaveOwnKeys, sort_by_key-Permᴰ}
use net_device_mapping.Tracker.Report.{describe, current_state-describe}
use net_device_mapping.Tracker.State.{State, ShallowNamespace, current_state}

length-Permᴰ {ℓ} : {A : Type ℓ} {xs ys : List A} → Permᴰ xs ys → length xs ≡ length ys
length-Permᴰ Permᴰ.nil = refl
length-Permᴰ (Permᴰ.cons e p) = ap suc (length-Permᴰ p)
length-Permᴰ (Permᴰ.swap e f) = refl
length-Permᴰ (Permᴰ.trans p q) = length-Permᴰ p ∙ length-Permᴰ q

described-fresh :
    (pids : HashMap Pid INode) (i : INode) (namespaces : HashMap INode ShallowNamespace)
    → HashMap.get i namespaces ≡ none
    → All (λ n. inode_of n ≢ i) (map (describe pids) namespaces)
unfolding HashMap.get
described-fresh pids i [] e = tt
described-fresh pids i ((j, n) ∷ namespaces) e =
    ((λ same. ground arith), described-fresh pids i namespaces (ground arith))

described-HaveOwnKeys :
    (pids : HashMap Pid INode) (namespaces : HashMap INode ShallowNamespace)
    → IsMap namespaces
    → HaveOwnKeys inode_of (map (describe pids) namespaces)
described-HaveOwnKeys pids [] h = tt
described-HaveOwnKeys pids ((j, n) ∷ namespaces) (fresh, h) =
    (described-fresh pids j namespaces fresh, described-HaveOwnKeys pids namespaces h)

module _ (debug : HashSet PathBuf → Str) (debug_pids : List Pid → Str) where
  -- In whatever order the namespaces of a tracker's state are handed over, the display shows the same,
  -- and so does the listing of them. No inode has two entries in the state.
  pub current_state-display :
      (s : State) (namespaces : List NetworkNamespace)
      → IsMap s.namespaces
      → Permᴰ (current_state s) namespaces
      → (frame debug namespaces ≡ frame debug (current_state s))
        × (list_all debug debug_pids namespaces ≡ list_all debug debug_pids (current_state s))
  unfolding frame list_all
  current_state-display s namespaces m p =
      let keys =
        subst (HaveOwnKeys inode_of) (sym (current_state-describe s m))
          (described-HaveOwnKeys s.pids s.namespaces m) in
      let same = sort_by_key-Permᴰ inode_of p keys in (rw (same, length-Permᴰ p) refl, rw same refl)
