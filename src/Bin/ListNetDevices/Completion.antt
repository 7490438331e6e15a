-- ===== src/Bin/ListNetDevices/Completion.antt =====
-- The queries of all namespaces run at once; the listing does not show which of them was faster.
use mathlib.Core.List.{Permᴰ}
use net_device_mapping.Bin.ListNetDevices.{Answered, queries, inode_of, main, print_results}
use net_device_mapping.Host.{Host}
use net_device_mapping.NetDevice.{LinkMessage, QueryError}
use net_device_mapping.Netns.{NetworkNamespace, any_file}
use net_device_mapping.Netns.Scan.{all}
use net_device_mapping.Netns.Scan.Distinct.{all-inodes}
use net_device_mapping.Path.{PathBuf}
use net_device_mapping.Prelude.{
  arith, ◌≡◌, ◌≢◌, sym, ap, List, [], ◌∷◌, filter_map, none, some, Option-cases, inl, inr, Result,
  ok, All, ℕ,
}
use net_device_mapping.Sorting.Order.{HaveOwnKeys, sort_by_key-Permᴰ}

module _ {K : Type 0} (query : PathBuf → Result QueryError (List (LinkMessage K))) where
  queries-skipped :
      (netns : NetworkNamespace) (netnses : List NetworkNamespace)
      → any_file netns ≡ none
      → queries query (netns ∷ netnses) ≡ queries query netnses
  unfolding queries filter_map
  queries-skipped netns netnses e = ground (arith, e)

  queries-kept :
      (netns : NetworkNamespace) (netnses : List NetworkNamespace) (file : PathBuf)
      → any_file netns ≡ some file
      → queries query (netns ∷ netnses) ≡ (netns, query file) ∷ queries query netnses
  unfolding queries filter_map
  queries-kept netns netnses file e = ground (arith, e)

  queries-All :
      (P : ℕ → Type 0) (netnses : List NetworkNamespace)
      → All (λ n. P n.inode) netnses
      → All (λ a. P (inode_of a)) (queries query netnses)
  unfolding queries filter_map
  queries-All P [] h = tt
  queries-All P (netns ∷ netnses) (p, h) = elim (Option-cases (any_file netns)) [
    | inl e ↦ rw (queries-skipped netns netnses e) (queries-All P netnses h)
    | inr (file, e) ↦ rw (queries-kept netns netnses file e) (p, queries-All P netnses h)
  ]

  queries-HaveOwnKeys :
      (netnses : List NetworkNamespace)
      → HaveOwnKeys (λ n. n.inode) netnses
      → HaveOwnKeys inode_of (queries query netnses)
  unfolding queries filter_map
  queries-HaveOwnKeys [] h = tt
  queries-HaveOwnKeys (netns ∷ netnses) (fresh, h) = elim (Option-cases (any_file netns)) [
    | inl e ↦ rw (queries-skipped netns netnses e) (queries-HaveOwnKeys netnses h)
    | inr (file, e) ↦
        rw (queries-kept netns netnses file e)
          (queries-All (λ i. i ≢ netns.inode) netnses fresh, queries-HaveOwnKeys netnses h)
  ]

  -- The output for the namespaces of a scan that succeeds is the same in whatever order the queries of
  -- the namespaces are completed.
  pub main-completion :
      (h : Host) (netnses : List NetworkNamespace) (results : List (Answered K))
      → all h ≡ ok netnses
      → Permᴰ (queries query netnses) results
      → main results ≡ main (queries query netnses)
  unfolding main
  main-completion h netnses results e p =
      ap print_results
        (sym (sort_by_key-Permᴰ inode_of p (queries-HaveOwnKeys netnses (all-inodes h netnses e))))
