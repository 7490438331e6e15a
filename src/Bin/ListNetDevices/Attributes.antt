-- ===== src/Bin/ListNetDevices/Attributes.antt =====
-- What is found among a link's attributes, and what a link without a name does to the program.
use net_device_mapping.Bin.ListNetDevices.{
  link_kind, as_kind, link_name, Printed, then_print, print_links, print_results, Answered, device,
  namespace_line,
}
use net_device_mapping.NetDevice.{
  LinkInfo, LinkAttribute, if_name, link_info, link, other_attribute, LinkMessage,
}
use net_device_mapping.Prelude.{
  ℕ, ◌≡◌, refl, Bool, true, false, ◌&&◌, List, [], ◌∷◌, ◌++◌, filter_map, Option, none, some, head?,
  is_some, ok, err, Outcome, returns, panics, arith, if◌then◌else◌,
}

-- How printing ends.
abbrev pub end_of : Bool → Outcome (Unit {0})
end_of named = if named then returns tt else panics

module _ {K : Type 0} where
  -- The kinds among all the attributes of a link.
  unfoldable pub kinds : List (LinkAttribute K) → List K
  unfolding as_kind
  kinds [] = []
  kinds (link_info infos ∷ attributes) = filter_map as_kind infos ++ kinds attributes
  kinds (if_name name ∷ attributes) = kinds attributes
  kinds (link id ∷ attributes) = kinds attributes
  kinds (other_attribute ∷ attributes) = kinds attributes

  link_kind-info :
      (infos : List (LinkInfo K)) (attributes : List (LinkAttribute K)) (ks : List K)
      → filter_map as_kind infos ≡ ks
      → link_kind attributes ≡ head? (kinds attributes)
      → link_kind (link_info infos ∷ attributes) ≡ head? (ks ++ kinds attributes)
  unfolding link_kind filter_map
  link_kind-info infos attributes [] e h = rw e h
  link_kind-info infos attributes (k ∷ ks) e h = rw e refl

  -- The kind of a link is the first one among all of its infos, where an attribute without a kind is
  -- passed over.
  link_kind-kinds :
      (attributes : List (LinkAttribute K)) → link_kind attributes ≡ head? (kinds attributes)
  unfolding link_kind kinds filter_map
  link_kind-kinds [] = refl
  link_kind-kinds (link_info infos ∷ attributes) =
      link_kind-info infos attributes _ refl (link_kind-kinds attributes)
  link_kind-kinds (if_name name ∷ attributes) = link_kind-kinds attributes
  link_kind-kinds (link id ∷ attributes) = link_kind-kinds attributes
  link_kind-kinds (other_attribute ∷ attributes) = link_kind-kinds attributes

  -- Whether each link has a name.
  unfoldable pub are_named : List (LinkMessage K) → Bool
  are_named [] = true
  are_named (message ∷ links) = is_some (link_name message.attributes) && are_named links

  unfoldable pub named_answer : Answered K → Bool
  unfolding are_named
  named_answer (netns, ok links) = are_named links
  named_answer (netns, err e) = true

  unfoldable pub all_named : List (Answered K) → Bool
  unfolding named_answer
  all_named [] = true
  all_named (result ∷ results) = named_answer result && all_named results

  then_print-end :
      (first rest : Printed K) (a b : Bool)
      → first.1 ≡ end_of a
      → rest.1 ≡ end_of b
      → (then_print first rest).1 ≡ end_of (a && b)
  then_print-end (lines, returns u) rest true b e f = f
  then_print-end (lines, returns u) rest false b e f = absurd (ground arith)
  then_print-end (lines, panics) rest true b e f = absurd (ground arith)
  then_print-end (lines, panics) rest false b e f = refl

  device-end :
      (message : LinkMessage K) (name : Option (List ℕ))
      → (device message name).1 ≡ end_of (is_some name)
  device-end message (some name) = refl
  device-end message none = refl

  print_links-end :
      (links : List (LinkMessage K)) → (print_links links).1 ≡ end_of (are_named links)
  unfolding print_links are_named
  print_links-end [] = refl
  print_links-end (message ∷ links) =
      then_print-end (device message (link_name message.attributes)) (print_links links) _ _
        (device-end message (link_name message.attributes)) (print_links-end links)

  -- The listing stops with a panic exactly where some namespace's answer holds a link without a name: an
  -- error in place of an answer is printed and passed over.
  pub print_results-end :
      (results : List (Answered K)) → (print_results results).1 ≡ end_of (all_named results)
  unfolding print_results all_named
  print_results-end [] = refl
  print_results-end ((netns, ok links) ∷ results) =
      then_print-end
        (then_print (namespace_line netns.inode netns.fs_path ∷ [], returns tt) (print_links links))
        (print_results results) (are_named links) _ (print_links-end links)
        (print_results-end results)
  print_results-end ((netns, err e) ∷ results) = print_results-end results
