-- ===== src/Tracker/Search/Soundness.antt =====
-- When what find_netns_id_addition of src/netns_tracker.rs finds has the id that is asked for.
use net_device_mapping.Host.{Host, INode, NsId}
use net_device_mapping.Netns.NsidQuery.{id_by_file_descriptor, id_by_file, id_by_path}
use net_device_mapping.Netns.PidsIterator
use net_device_mapping.Path.{PathBuf}
use net_device_mapping.Prelude.{
  All, ℕ, ◌≡◌, inl, inr, Bool-cases, true, List, [], ◌∷◌, none, some, ok, arith, Option-cases,
  Result-cases,
}
use net_device_mapping.Tracker.Search.{
  has_id, search_known, inode_with_id, search_mounts, process_with_id, search_processes, nsfs_paths,
  rescan_for_id, find_netns_id_addition,
}
use net_device_mapping.Tracker.State.{State, namespace_files}

-- The file leads to the namespace: the open file or the path has that inode.
pub data LeadsTo (h : Host) (inode : INode) (path : PathBuf) : Type 0 where
  by_file :
      (file : ℕ)
      → h.open_file path ≡ ok file
      → h.file_metadata file ≡ ok inode
      → LeadsTo h inode path
  by_metadata : h.metadata path ≡ ok inode → LeadsTo h inode path

-- The kernel answers the id for a file that leads to the namespace.
abbrev pub HasId : Host → NsId → INode → Type 0
HasId h id inode = (path : PathBuf) × (id_by_path h path ≡ ok (some id)) × LeadsTo h inode path

-- The file still belongs to the namespace that the tracker has it for.
abbrev pub IsCurrent : Host → INode × PathBuf → Type 0
IsCurrent h (inode, path) = h.metadata path ≡ ok inode

has_id_lem :
    (h : Host) (id : NsId) (path : PathBuf)
    → has_id h id path ≡ true
    → id_by_path h path ≡ ok (some id)
unfolding has_id id_by_path id_by_file
has_id_lem h id path e = elim (Result-cases (h.open_file path)) [
  | inl (file, opened) ↦ elim (Result-cases (id_by_file_descriptor h file)) [
    | inl (some current, answered) ↦ ground arith
    | inl (none, answered) ↦ absurd (ground arith)
    | inr (error, answered) ↦ absurd (ground arith)
  ]
  | inr (error, opened) ↦ absurd (ground arith)
]

inode_with_id_lem :
    (h : Host) (id : NsId) (path : PathBuf) {inode : INode}
    → inode_with_id h id path ≡ some inode
    → HasId h id inode
unfolding inode_with_id id_by_path id_by_file
inode_with_id_lem h id path e = elim (Result-cases (h.open_file path)) [
  | inl (file, opened) ↦ elim (Result-cases (h.file_metadata file)) [
    | inl (i, shown) ↦ elim (Result-cases (id_by_file_descriptor h file)) [
      | inl (some current, answered) ↦ (path, ground arith, by_file file opened (ground arith))
      | inl (none, answered) ↦ absurd (ground arith)
      | inr (error, answered) ↦ absurd (ground arith)
    ]
    | inr (error, shown) ↦ absurd (ground arith)
  ]
  | inr (error, opened) ↦ absurd (ground arith)
]

process_with_id_lem :
    (h : Host) (id : NsId) (entry : PathBuf × ℕ) {inode : INode}
    → process_with_id h id entry ≡ some inode
    → HasId h id inode
unfolding process_with_id PidsIterator.next
process_with_id_lem h id (path, pid) e = elim (Result-cases (h.metadata path)) [
  | inl (i, shown) ↦ elim (Result-cases (id_by_path h path)) [
    | inl (some current, answered) ↦ (path, ground arith, by_metadata (ground arith))
    | inl (none, answered) ↦ absurd (ground arith)
    | inr (error, answered) ↦ absurd (ground arith)
  ]
  | inr (error, shown) ↦ absurd (ground arith)
]

search_known_lem :
    (h : Host) (id : NsId) (files : List (INode × PathBuf)) {inode : INode}
    → All (IsCurrent h) files
    → search_known h id files ≡ some inode
    → HasId h id inode
unfolding search_known
search_known_lem h id [] current e = cc
search_known_lem h id ((i, path) ∷ files) (same, current) e = elim (Bool-cases (has_id h id path)) [
  | inl has ↦ (path, has_id_lem h id path has, by_metadata (ground arith))
  | inr hasnt ↦ search_known_lem h id files current (ground arith)
]

search_mounts_lem :
    (h : Host) (id : NsId) (mounts : List PathBuf) {inode : INode}
    → search_mounts h id mounts ≡ some inode
    → HasId h id inode
unfolding search_mounts
search_mounts_lem h id [] e = cc
search_mounts_lem h id (path ∷ mounts) e = elim (Option-cases (inode_with_id h id path)) [
  | inl absent ↦ search_mounts_lem h id mounts (ground arith)
  | inr (i, found) ↦ inode_with_id_lem h id path (ground arith)
]

search_processes_lem :
    (h : Host) (id : NsId) (entries : List (PathBuf × ℕ)) {inode : INode}
    → search_processes h id entries ≡ some inode
    → HasId h id inode
unfolding search_processes
search_processes_lem h id [] e = cc
search_processes_lem h id (entry ∷ entries) e = elim (Option-cases (process_with_id h id entry)) [
  | inl absent ↦ search_processes_lem h id entries (ground arith)
  | inr (i, found) ↦ process_with_id_lem h id entry (ground arith)
]

-- A namespace that the search returns has the id that is asked for: the kernel answers it for a file
-- whose metadata has the inode of that namespace. The files of known namespaces that the tracker asks first
-- still have the inode that the tracker has them for; the code does not test that.
pub find_netns_id_addition-HasId :
    (h : Host) (s : State) (id : NsId) {inode : INode}
    → All (IsCurrent h) (namespace_files s)
    → find_netns_id_addition h s id ≡ ok (some inode)
    → HasId h id inode
unfolding find_netns_id_addition rescan_for_id
find_netns_id_addition-HasId h s id {inode} current e =
    let known = namespace_files s in
    elim (Option-cases (search_known h id known)) [
      | inr (i, found) ↦ search_known_lem h id known current (ground arith)
      | inl absent ↦ elim (Result-cases h.mountinfo) [
        | inr (error, failed) ↦ absurd (ground arith)
        | inl (mounts, read) ↦ elim (Option-cases (search_mounts h id (nsfs_paths mounts))) [
          | inr (i, found) ↦ search_mounts_lem h id (nsfs_paths mounts) (ground arith)
          | inl none_mounted ↦ search_processes_lem h id (PidsIterator.new h) (ground arith)
        ]
      ]
    ]
