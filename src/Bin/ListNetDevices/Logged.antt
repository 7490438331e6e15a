-- ===== src/Bin/ListNetDevices/Logged.antt =====
-- src/bin/list_net_devices.rs with its log file: every namespace and every link is written to the file too,
-- and a write that fails ends the program. The file is given by what each write answers, which may depend on
-- all that was written before.
pub mod Agreement
use net_device_mapping.Bin.ListNetDevices.{
  Line, namespace_line, device_line, error_line, Answered, link_name, link_kind, link_peers,
  collect_set, queries, inode_of,
}
use net_device_mapping.HashSet.{HashSet}
use net_device_mapping.Host.{INode, IoError, Host}
use net_device_mapping.NetDevice.{LinkMessage, QueryError}
use net_device_mapping.Netns
use net_device_mapping.Netns.Scan.{all}
use net_device_mapping.Path.{PathBuf}
use net_device_mapping.Prelude.{
  ℕ, List, [], ◌∷◌, ◌++◌, Option, none, some, Result, ok, err, map_err, ◌>>=◌, Outcome, returns,
  panics,
}
use net_device_mapping.Sorting.{sort_by_key}

pub data Entry (K : Type 0) : Type 0 where
  namespace_entry : INode → HashSet PathBuf → Entry K
  link_entry : LinkMessage K → Entry K

-- What the program writes, in order; of the log file, what it tries to write.
pub data Written (K : Type 0) : Type 0 where
  printed : Line K → Written K
  logged : Entry K → Written K

-- The causes of the `anyhow::Error` that `main` returns.
pub data Error : Type 0 where
  io_error : IoError → Error
  netns_error : Netns.Error → Error

-- A part of the program, behind what was written before.
abbrev pub Part : Type 0 → Type 0
Part K = List (Written K) → Outcome (Result Error (Unit {0})) × List (Written K)

module _ {K : Type 0} where
  infixl 5 ◌>>◌
  abbrev pub ◌>>◌ : Part K → Part K → Part K
  ◌>>◌ first rest before =
      let (outcome, after) = first before in
      elim outcome [
        | returns (ok _) ↦ rest after
        | returns (err e) ↦ (returns (err e), after)
        | panics ↦ (panics, after)
      ]

  abbrev pub done : Part K
  done before = (returns (ok tt), before)

  abbrev pub panic : Part K
  panic before = (panics, before)

  abbrev pub print : Line K → Part K
  print line before = (returns (ok tt), before ++ printed line ∷ [])

module _ {K : Type 0} (writes : List (Written K) → Result IoError (Unit {0})) where
  -- `writeln!(links_file, …)?`
  abbrev pub log : Entry K → Part K
  log entry before = (returns (map_err io_error (writes before)), before ++ logged entry ∷ [])

  abbrev pub show_named : LinkMessage K → Option (List ℕ) → Part K
  show_named link none = panic
  show_named link (some name) = print (
      device_line name link.index (link_kind link.attributes)
        (collect_set (link_peers link.attributes)))

  unfoldable pub show_links : List (LinkMessage K) → Part K
  unfolding link_name
  show_links [] = done
  show_links (link ∷ links) =
      log (link_entry link) >> show_named link (link_name link.attributes) >> show_links links

  abbrev pub show_answer : Result QueryError (List (LinkMessage K)) → Part K
  show_answer (ok links) = show_links links
  show_answer (err e) = print (error_line e)

  unfoldable pub show_results : List (Answered K) → Part K
  unfolding show_links
  show_results [] = done
  show_results ((netns, result) ∷ results) =
      print (namespace_line netns.inode netns.fs_path)
      >> log (namespace_entry netns.inode netns.fs_path)
      >> show_answer result
      >> show_results results

  -- The whole of `main`: whether the file could be made, and `completed`, the order in which the queries are
  -- completed.
  unfoldable pub main_logged :
      Result IoError (Unit {0})
      → Host
      → (PathBuf → Result QueryError (List (LinkMessage K)))
      → (List (Answered K) → List (Answered K))
      → Outcome (Result Error (Unit {0})) × List (Written K)
  unfolding show_results queries sort_by_key
  main_logged created h query completed =
      elim (do _ ← map_err io_error created; map_err netns_error (all h)) [
        | err e ↦ (returns (err e), [])
        | ok netnses ↦ show_results (sort_by_key inode_of (completed (queries query netnses))) []
      ]
