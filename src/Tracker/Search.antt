-- ===== src/Tracker/Search.antt =====
-- `find_netns_id_addition` of src/netns_tracker.rs: which namespace a new id belongs to.
pub mod Completeness
pub mod Soundness
use net_device_mapping.Host.{Host, INode, NsId, IoError}
use net_device_mapping.Mountinfo
use net_device_mapping.Netns.NsidQuery.{id_by_file_descriptor, id_by_path}
use net_device_mapping.Netns.PidsIterator
use net_device_mapping.Path.{PathBuf}
use net_device_mapping.Path.Order.{sorted, dedup}
use net_device_mapping.Prelude.{
  ℕ, Bool, false, List, [], ◌∷◌, map, filter, Option, none, some, Result, ok, err, ◌>>=◌, ◌==◌,
  if◌then◌else◌,
}
use net_device_mapping.Tracker.State.{State, namespace_files}

-- `let Ok(Some(current)) = … else { continue }; if current == id { … }`
abbrev pub answers : {E : Type 0} → NsId → Result E (Option NsId) → Bool
answers id (ok (some current)) = current == id
answers id (ok none) = false
answers id (err _) = false

-- 1. The namespaces that are known.
unfoldable pub has_id : Host → NsId → PathBuf → Bool
unfolding id_by_file_descriptor
has_id h id filepath = elim (h.open_file filepath) [
  | ok file ↦ answers id (id_by_file_descriptor h file)
  | err _ ↦ false
]

unfoldable pub search_known : Host → NsId → List (INode × PathBuf) → Option INode
unfolding has_id
search_known h id [] = none
search_known h id ((inode, filepath) ∷ files) =
    if has_id h id filepath then some inode else search_known h id files

-- 2. The mounts of nsfs.
unfoldable pub inode_with_id : Host → NsId → PathBuf → Option INode
unfolding id_by_file_descriptor
inode_with_id h id filepath = elim (h.open_file filepath) [
  | ok file ↦ elim (h.file_metadata file) [
    | ok inode ↦ if answers id (id_by_file_descriptor h file) then some inode else none
    | err _ ↦ none
  ]
  | err _ ↦ none
]

unfoldable pub search_mounts : Host → NsId → List PathBuf → Option INode
unfolding inode_with_id
search_mounts h id [] = none
search_mounts h id (filepath ∷ mounts) = elim (inode_with_id h id filepath) [
  | some inode ↦ some inode
  | none ↦ search_mounts h id mounts
]

-- 3. The processes.
unfoldable pub process_with_id : Host → NsId → PathBuf × ℕ → Option INode
unfolding PidsIterator.next id_by_path
process_with_id h id entry = elim (PidsIterator.next h entry) [
  | ok (filepath, _, inode) ↦ if answers id (id_by_path h filepath) then some inode else none
  | err _ ↦ none
]

unfoldable pub search_processes : Host → NsId → List (PathBuf × ℕ) → Option INode
unfolding process_with_id
search_processes h id [] = none
search_processes h id (entry ∷ pids) = elim (process_with_id h id entry) [
  | some inode ↦ some inode
  | none ↦ search_processes h id pids
]

abbrev pub nsfs_paths : List Mountinfo.MountPoint → List PathBuf
nsfs_paths mounts =
    dedup (sorted (map (λ x. x.path) (filter (λ x. Mountinfo.is_nsfs x.fstype) mounts)))

abbrev else_try : Option INode → Option INode → Option INode
else_try (some inode) later = some inode
else_try none later = later

-- Steps 2 and 3, which read the mount table first.
unfoldable pub rescan_for_id : Host → NsId → Result IoError (Option INode)
unfolding search_mounts search_processes sorted dedup
rescan_for_id h id = do
  mounts ← h.mountinfo
  ok (
      else_try (search_mounts h id (nsfs_paths mounts))
        (search_processes h id (PidsIterator.new h)))

unfoldable pub find_netns_id_addition : Host → State → NsId → Result IoError (Option INode)
unfolding namespace_files search_known rescan_for_id
find_netns_id_addition h s id = elim (search_known h id (namespace_files s)) [
  | some inode ↦ ok (some inode)
  | none ↦ rescan_for_id h id
]
