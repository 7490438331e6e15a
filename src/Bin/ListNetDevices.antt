-- ===== src/Bin/ListNetDevices.antt =====
-- src/bin/list_net_devices.rs up to how a line is formatted. Its log file is left to a module of its own.
pub mod Attributes
pub mod Completion
pub mod Logged
use net_device_mapping.HashSet
use net_device_mapping.HashSet.{HashSet}
use net_device_mapping.Host.{INode}
use net_device_mapping.NetDevice.{
  LinkInfo, kind, other_info, LinkAttribute, if_name, link_info, link, other_attribute, LinkMessage,
  QueryError,
}
use net_device_mapping.Netns.{NetworkNamespace, any_file}
use net_device_mapping.Path.{PathBuf}
use net_device_mapping.Prelude.{
  ℕ, List, [], ◌∷◌, ◌++◌, map, filter_map, Option, none, some, head?, Result, ok, err, Outcome,
  returns, panics, nat_key,
}
use net_device_mapping.Sorting.{sort_by_key}

module _ {K : Type 0} where
  unfoldable pub as_name : LinkAttribute K → Option (List ℕ)
  as_name (if_name name) = some name
  as_name x = none

  unfoldable pub link_name : List (LinkAttribute K) → Option (List ℕ)
  unfolding as_name
  link_name attributes = head? (filter_map as_name attributes)

  unfoldable pub as_infos : LinkAttribute K → Option (List (LinkInfo K))
  as_infos (link_info infos) = some infos
  as_infos x = none

  unfoldable pub as_kind : LinkInfo K → Option K
  as_kind (kind k) = some k
  as_kind other_info = none

  unfoldable pub link_kind : List (LinkAttribute K) → Option K
  unfolding as_infos as_kind
  link_kind attributes =
      head?
        (filter_map (λ infos. head? (filter_map as_kind infos)) (filter_map as_infos attributes))

  unfoldable pub as_peer : LinkAttribute K → Option ℕ
  as_peer (link id) = some id
  as_peer x = none

  unfoldable pub link_peers : List (LinkAttribute K) → List ℕ
  unfolding as_peer
  link_peers attributes = filter_map as_peer attributes

-- `collect::<HashSet<_>>()`
unfoldable pub collect_set : List ℕ → HashSet ℕ
collect_set [] = []
collect_set (x ∷ xs) = HashSet.insert x (collect_set xs)

-- What is printed.
pub data Line (K : Type 0) : Type 0 where
  namespace_line : INode → HashSet PathBuf → Line K
  device_line : List ℕ → ℕ → Option K → HashSet ℕ → Line K
  error_line : QueryError → Line K

-- The lines that are printed, and how the code that prints them ends.
abbrev pub Printed : Type 0 → Type 0
Printed K = List (Line K) × Outcome (Unit {0})

abbrev pub Answered : Type 0 → Type 0
Answered K = NetworkNamespace × Result QueryError (List (LinkMessage K))

abbrev with_file : NetworkNamespace → Option (NetworkNamespace × PathBuf)
with_file netns = elim (any_file netns) [ some file ↦ some (netns, file) | none ↦ none ]

module _ {K : Type 0} where
  abbrev pub then_print : Printed K → Printed K → Printed K
  then_print (lines, returns _) (more, end) = (lines ++ more, end)
  then_print (lines, panics) rest = (lines, panics)

  abbrev pub device : LinkMessage K → Option (List ℕ) → Printed K
  device message (some name) = (
    device_line name message.index (link_kind message.attributes)
          (collect_set (link_peers message.attributes))
        ∷ [],
    returns tt,
  )
  device message none = ([], panics)

  -- The name of a link is unwrapped.
  unfoldable pub print_links : List (LinkMessage K) → Printed K
  unfolding link_name
  print_links [] = ([], returns tt)
  print_links (message ∷ links) =
      then_print (device message (link_name message.attributes)) (print_links links)

  abbrev answer : Result QueryError (List (LinkMessage K)) → Printed K
  answer (ok links) = print_links links
  answer (err e) = (error_line e ∷ [], returns tt)

  unfoldable pub print_results : List (Answered K) → Printed K
  unfolding print_links
  print_results [] = ([], returns tt)
  print_results ((netns, result) ∷ results) =
      then_print
        (then_print (namespace_line netns.inode netns.fs_path ∷ [], returns tt) (answer result))
        (print_results results)

  -- The queries, one for each namespace that some file leads to.
  unfoldable pub queries :
      (PathBuf → Result QueryError (List (LinkMessage K)))
      → List NetworkNamespace
      → List (Answered K)
  queries query netnses = map (λ (netns, file). (netns, query file)) (filter_map with_file netnses)

  abbrev pub inode_of : Answered K → ℕ
  inode_of (netns, result) = netns.inode

  -- The end of `main`, over the results in the order in which the queries were completed.
  unfoldable pub main : List (Answered K) → Printed K
  unfolding print_results
  main results = print_results (sort_by_key inode_of results)
