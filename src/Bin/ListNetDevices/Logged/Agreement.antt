-- ===== src/Bin/ListNetDevices/Logged/Agreement.antt =====
-- The log file of src/bin/list_net_devices.rs does not change what is printed, as long as it can be written.
use net_device_mapping.Bin.ListNetDevices.{
  Line, namespace_line, error_line, Printed, then_print, device, answer, Answered, link_name,
  print_links, print_results, queries, inode_of, main,
}
use net_device_mapping.Bin.ListNetDevices.Attributes.{end_of, all_named, print_results-end}
use net_device_mapping.Bin.ListNetDevices.Completion.{main-completion}
use net_device_mapping.Bin.ListNetDevices.Logged.{
  Entry, namespace_entry, link_entry, Written, printed, logged, Error, Part, ◌>>◌, done, panic,
  print, log, show_named, show_links, show_answer, show_results, main_logged,
}
use net_device_mapping.Host.{IoError, Host}
use net_device_mapping.NetDevice.{LinkMessage, QueryError}
use net_device_mapping.Netns.{NetworkNamespace}
use net_device_mapping.Netns.Scan.{all}
use net_device_mapping.Path.{PathBuf}
use net_device_mapping.Prelude.{
  ℕ, ◌≡◌, refl, ap, sym, ◌∙◌, ap₂, List, [], ◌∷◌, ◌++◌, Option, none, some, Result, ok, err,
  Outcome, returns, panics, filter_map,
}
use net_device_mapping.Sorting.{sort_by_key}
use mathlib.Core.List.{append_assoc, append-nil}
use mathlib.Core.List.{Permᴰ}

abbrev pub as_line : {K : Type 0} → Written K → Option (Line K)
as_line (printed line) = some line
as_line (logged entry) = none

abbrev pub as_result : Outcome (Unit {0}) → Outcome (Result Error (Unit {0}))
as_result (returns u) = returns (ok u)
as_result panics = panics

module _ {K : Type 0} where
  abbrev pub lines : List (Written K) → List (Line K)
  lines written = filter_map as_line written

  lines-append : (xs ys : List (Written K)) → lines (xs ++ ys) ≡ lines xs ++ lines ys
  unfolding filter_map
  lines-append [] ys = refl
  lines-append (printed line ∷ xs) ys = ap (λ l. line ∷ l) (lines-append xs ys)
  lines-append (logged entry ∷ xs) ys = lines-append xs ys

  -- A part prints these lines, whatever it logs.
  Prints : Part K → Printed K → Type 0
  Prints part (out, end) =
      (before : List (Written K))
      → (more : List (Written K)) × (part before ≡ (as_result end, before ++ more))
        × (lines more ≡ out)

  print-Prints : (line : Line K) → Prints (print line) (line ∷ [], returns tt)
  unfolding Prints filter_map
  print-Prints line before = (printed line ∷ [], refl, refl)

  then-Prints :
      (first rest : Part K) (a b : Printed K)
      → Prints first a
      → Prints rest b
      → Prints (first >> rest) (then_print a b)
  unfolding Prints
  then-Prints first rest (out, returns u) (out', end) h k before =
      let (more, e, l) = h before in
      let (more', e', l') = k (before ++ more) in
      (
        more ++ more',
        rw (◌>>◌, e, e) (e' ∙ ap (λ l. (as_result end, l)) (append_assoc before more more')),
        lines-append more more' ∙ ap₂ ◌++◌ l l',
      )
  then-Prints first rest (out, panics) b h k before =
      let (more, e, l) = h before in (more, rw (◌>>◌, e, e) refl, l)

module _ (K : Type 0) where
  done-Prints : Prints {K = K} done ([], returns tt)
  unfolding Prints filter_map
  done-Prints before = ([], ap (λ l. (returns (ok tt), l)) (sym (append-nil before)), refl)

  panic-Prints : Prints {K = K} panic ([], panics)
  unfolding Prints filter_map
  panic-Prints before = ([], ap (λ l. (panics, l)) (sym (append-nil before)), refl)

module _ {K : Type 0} (writes : List (Written K) → Result IoError (Unit {0}))
    (written : (before : List (Written K)) → writes before ≡ ok tt) where
  log-Prints : (entry : Entry K) → Prints (log writes entry) ([], returns tt)
  unfolding Prints filter_map
  log-Prints entry before = (logged entry ∷ [], rw (written before) refl, refl)

  log-then :
      (entry : Entry K) (part : Part K) (shown : Printed K)
      → Prints part shown
      → Prints (log writes entry >> part) shown
  log-then entry part (out, end) h =
      then-Prints (log writes entry) part ([], returns tt) (out, end) (log-Prints entry) h

  show_named-Prints :
      (link : LinkMessage K) (name : Option (List ℕ))
      → Prints (show_named writes link name) (device link name)
  show_named-Prints link none = panic-Prints K
  show_named-Prints link (some name) = print-Prints _

  show_links-Prints :
      (links : List (LinkMessage K)) → Prints (show_links writes links) (print_links links)
  unfolding show_links print_links
  show_links-Prints [] = done-Prints K
  show_links-Prints (link ∷ links) =
      let name = link_name link.attributes in
      then-Prints (log writes (link_entry link) >> show_named writes link name) _ (device link name)
        _ (log-then (link_entry link) _ (device link name) (show_named-Prints link name))
        (show_links-Prints links)

  show_answer-Prints :
      (result : Result QueryError (List (LinkMessage K)))
      → Prints (show_answer writes result) (answer result)
  show_answer-Prints (ok links) = show_links-Prints links
  show_answer-Prints (err e) = print-Prints (error_line e)

  show_results-Prints :
      (results : List (Answered K)) → Prints (show_results writes results) (print_results results)
  unfolding show_results print_results
  show_results-Prints [] = done-Prints K
  show_results-Prints ((netns, result) ∷ results) =
      let head = namespace_line netns.inode netns.fs_path in
      then-Prints _ _ (then_print (head ∷ [], returns tt) (answer result)) (print_results results)
        (then-Prints _ _ (head ∷ [], returns tt) (answer result)
          (then-Prints (print head) (log writes (namespace_entry netns.inode netns.fs_path))
            (head ∷ [], returns tt) ([], returns tt) (print-Prints head) (log-Prints _))
          (show_answer-Prints result))
        (show_results-Prints results)

  main_logged-results :
      (h : Host) (netnses : List NetworkNamespace)
      (query : PathBuf → Result QueryError (List (LinkMessage K)))
      (completed : List (Answered K) → List (Answered K))
      → all h ≡ ok netnses
      → main_logged writes (ok tt) h query completed
        ≡ show_results writes (sort_by_key inode_of (completed (queries query netnses))) []
  unfolding main_logged
  main_logged-results h netnses query completed found = rw (main_logged, found) refl

  -- The whole program, with a log file that can be made and written, prints the listing of the namespaces
  -- that the scan found, in whatever order the queries are completed, and panics exactly where some
  -- namespace's answer holds a link without a name.
  pub main_logged-main :
      (h : Host) (netnses : List NetworkNamespace)
      (query : PathBuf → Result QueryError (List (LinkMessage K)))
      (completed : List (Answered K) → List (Answered K))
      → all h ≡ ok netnses
      → Permᴰ (queries query netnses) (completed (queries query netnses))
      → let answers = queries query netnses in
        let (outcome, out) = main_logged writes (ok tt) h query completed in
        (lines out ≡ (main answers).0)
        × (outcome ≡ as_result (end_of (all_named (sort_by_key inode_of answers))))
  unfolding main Prints
  main_logged-main h netnses query completed found p =
      let answers = queries query netnses in
      let (out, e, l) = show_results-Prints (sort_by_key inode_of (completed answers)) [] in
      let same = main-completion query h netnses (completed answers) found p in
      let whole = main_logged-results h netnses query completed found ∙ e in
      (
        ap (λ r. lines r.1) whole ∙ l ∙ ap (λ m. m.0) same,
        ap (λ r. r.0) whole
            ∙ ap (λ m. as_result m.1) same
            ∙ ap as_result (print_results-end (sort_by_key inode_of answers)),
      )
