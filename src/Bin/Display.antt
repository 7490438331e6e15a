-- ===== src/Bin/Display.antt =====
-- src/bin/netns_tracker.rs and src/bin/list_all.rs: the lines for the namespaces, and the display that
-- is written over the one before it. `debug` is how std's `Debug` shows a set of paths.
pub mod Text
pub mod Rows
pub mod Unordered
use net_device_mapping.Decimal.{to_string}
use net_device_mapping.HashSet.{HashSet}
use net_device_mapping.Host.{NsId, Pid}
use net_device_mapping.Netns.{NetworkNamespace}
use net_device_mapping.Path.{Str, PathBuf, codes, concat}
use net_device_mapping.Prelude.{
  ℕ, zero, suc, ◌%◌, ◌^◌, List, [], ◌∷◌, ◌++◌, Option, none, some, length, ltb, if◌then◌else◌,
}
use net_device_mapping.Sorting.{sort_by_key, sort}
use net_device_mapping.Util.LineCountWriter.{newlines}

abbrev pub inode_of : NetworkNamespace → ℕ
inode_of netns = netns.inode

unfoldable pub id_text : Option NsId → Str
id_text (some id) = to_string id
id_text none = codes "None"

module _ (debug : HashSet PathBuf → Str) where
  -- What both programs say of a namespace before its processes.
  unfoldable pub namespace_text : NetworkNamespace → Str
  namespace_text netns = concat (
      codes "Network namespace : INode = "
      ∷ to_string netns.inode
      ∷ codes "\t| Id = "
      ∷ id_text netns.id
      ∷ codes "\t Path = "
      ∷ debug netns.fs_path
      ∷ [])

  unfoldable pub namespace_line : NetworkNamespace → Str
  namespace_line netns =
      concat (
        namespace_text netns
        ∷ codes "\t| Pids: "
        ∷ to_string (length netns.pids)
        ∷ codes ".\n"
        ∷ [])

  unfoldable pub namespace_lines : List NetworkNamespace → Str
  namespace_lines [] = []
  namespace_lines (netns ∷ namespaces) = namespace_line netns ++ namespace_lines namespaces

  -- The text of one round of the loop.
  unfoldable pub frame : List NetworkNamespace → Str
  frame namespaces = concat (
      codes "\n\n\n"
      ∷ codes "Namespaces: "
      ∷ to_string (length namespaces)
      ∷ codes "\n"
      ∷ namespace_lines (sort_by_key inode_of namespaces)
      ∷ [])

-- What is sent to the terminal.
pub data Command : Type 0 where
  move_up : ℕ → Command
  clear_from_cursor_down : Command
  print : Str → Command

unfoldable pub clear_from_n_lines_above : ℕ → List Command
clear_from_n_lines_above lines = move_up lines ∷ clear_from_cursor_down ∷ []

abbrev pub clear_last : Option ℕ → List Command
clear_last none = []
clear_last (some lines) = if ltb 0 lines then clear_from_n_lines_above lines else []

-- The loop over the states that are received. The counting writer counts in a `usize`, of which the loop
-- keeps the low 16 bits.
unfoldable pub display :
    (HashSet PathBuf → Str) → Option ℕ → List (List NetworkNamespace) → List Command
display debug last_lines_count [] = []
display debug last_lines_count (namespaces ∷ states) =
    clear_last last_lines_count
    ++ print (frame debug namespaces)
      ∷ display debug (some (newlines (frame debug namespaces) % 2 ^ 64 % 2 ^ 16)) states

-- src/bin/list_all.rs: the processes are listed too, in order.
unfoldable pub list_all : (HashSet PathBuf → Str) → (List Pid → Str) → List NetworkNamespace → Str
list_all debug debug_pids namespaces =
    codes "Listing all network namespaces\n" ++ each (sort_by_key inode_of namespaces)
  where
    each : List NetworkNamespace → Str
    each [] = []
    each (netns ∷ rest) = concat (
        namespace_text debug netns
        ∷ codes "\t| Pids ("
        ∷ to_string (length netns.pids)
        ∷ codes ") = "
        ∷ debug_pids (sort netns.pids)
        ∷ codes ".\n"
        ∷ each rest
        ∷ [])
