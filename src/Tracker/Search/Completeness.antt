-- ===== src/Tracker/Search/Completeness.antt =====
-- When find_netns_id_addition of src/netns_tracker.rs finds nothing, no file that it asks has the id.
use net_device_mapping.Host.{Host, INode, NsId}
use net_device_mapping.Mountinfo
use net_device_mapping.Netns.NsidQuery.{id_by_file_descriptor, id_by_file, id_by_path}
use net_device_mapping.Netns.PidsIterator
use net_device_mapping.Path.{PathBuf}
use net_device_mapping.Prelude.{
  ℕ, ◌≡◌, ◌≢◌, inl, inr, Bool-cases, false, List, [], ◌∷◌, none, some, ok, arith, Option-cases,
  Result-cases, All,
}
use net_device_mapping.Tracker.Search.{
  has_id, search_known, inode_with_id, search_mounts, process_with_id, search_processes, nsfs_paths,
  rescan_for_id, find_netns_id_addition,
}
use net_device_mapping.Tracker.State.{State, namespace_files}

-- The kernel does not answer the id for the file at the path.
abbrev pub IsUnanswered : Host → NsId → PathBuf → Type 0
IsUnanswered h id path = id_by_path h path ≢ ok (some id)

-- A mount counts if the metadata of the file that was opened can be read as well.
abbrev pub IsUnmounted : Host → NsId → PathBuf → Type 0
IsUnmounted h id path =
    (file : ℕ) (inode : INode)
    → h.open_file path ≡ ok file
    → h.file_metadata file ≡ ok inode
    → IsUnanswered h id path

-- A process counts if the metadata of its namespace file can be read.
abbrev pub IsUnheld : Host → NsId → PathBuf × ℕ → Type 0
IsUnheld h id entry = (inode : INode) → h.metadata entry.0 ≡ ok inode → IsUnanswered h id entry.0

has_id-IsUnanswered :
    (h : Host) (id : NsId) (path : PathBuf) → has_id h id path ≡ false → IsUnanswered h id path
unfolding has_id id_by_path id_by_file
has_id-IsUnanswered h id path e a = elim (Result-cases (h.open_file path)) [
  | inl (file, opened) ↦ elim (Result-cases (id_by_file_descriptor h file)) [
    | inl (some current, answered) ↦ ground arith
    | inl (none, answered) ↦ ground arith
    | inr (error, answered) ↦ ground arith
  ]
  | inr (error, opened) ↦ ground arith
]

inode_with_id-IsUnmounted :
    (h : Host) (id : NsId) (path : PathBuf) → inode_with_id h id path ≡ none → IsUnmounted h id path
unfolding inode_with_id id_by_path id_by_file
inode_with_id-IsUnmounted h id path e file inode opened shown a =
    elim (Result-cases (id_by_file_descriptor h file)) [
      | inl (some current, answered) ↦ ground arith
      | inl (none, answered) ↦ ground arith
      | inr (error, answered) ↦ ground arith
    ]

process_with_id-IsUnheld :
    (h : Host) (id : NsId) (entry : PathBuf × ℕ)
    → process_with_id h id entry ≡ none
    → IsUnheld h id entry
unfolding process_with_id PidsIterator.next
process_with_id-IsUnheld h id (path, pid) e inode shown a = ground arith

search_known-IsUnanswered :
    (h : Host) (id : NsId) (files : List (INode × PathBuf))
    → search_known h id files ≡ none
    → All (λ f. IsUnanswered h id f.1) files
unfolding search_known
search_known-IsUnanswered h id [] e = tt
search_known-IsUnanswered h id ((i, path) ∷ files) e = elim (Bool-cases (has_id h id path)) [
  | inl has ↦ absurd (ground arith)
  | inr hasnt ↦
      (has_id-IsUnanswered h id path hasnt, search_known-IsUnanswered h id files (ground arith))
]

search_mounts-IsUnmounted :
    (h : Host) (id : NsId) (mounts : List PathBuf)
    → search_mounts h id mounts ≡ none
    → All (IsUnmounted h id) mounts
unfolding search_mounts
search_mounts-IsUnmounted h id [] e = tt
search_mounts-IsUnmounted h id (path ∷ mounts) e = elim (Option-cases (inode_with_id h id path)) [
  | inl absent ↦ (
    inode_with_id-IsUnmounted h id path absent,
    search_mounts-IsUnmounted h id mounts (ground arith),
  )
  | inr (i, found) ↦ absurd (ground arith)
]

search_processes-IsUnheld :
    (h : Host) (id : NsId) (entries : List (PathBuf × ℕ))
    → search_processes h id entries ≡ none
    → All (IsUnheld h id) entries
unfolding search_processes
search_processes-IsUnheld h id [] e = tt
search_processes-IsUnheld h id (entry ∷ entries) e =
    elim (Option-cases (process_with_id h id entry)) [
      | inl absent ↦ (
        process_with_id-IsUnheld h id entry absent,
        search_processes-IsUnheld h id entries (ground arith),
      )
      | inr (i, found) ↦ absurd (ground arith)
    ]

-- When the search finds nothing, the kernel answers the id for none of the files that it asks: not for the one
-- file that `namespace_files` gives of each known namespace that has a file, for no mount of nsfs that can be
-- opened and has readable metadata, and for the namespace file of no process whose metadata can be read.
pub find_netns_id_addition-IsUnanswered :
    (h : Host) (s : State) (id : NsId)
    → find_netns_id_addition h s id ≡ ok none
    → All (λ f. IsUnanswered h id f.1) (namespace_files s)
      × ((mounts : List Mountinfo.MountPoint) × (h.mountinfo ≡ ok mounts)
          × All (IsUnmounted h id) (nsfs_paths mounts))
      × All (IsUnheld h id) (PidsIterator.new h)
unfolding find_netns_id_addition rescan_for_id
find_netns_id_addition-IsUnanswered h s id e =
    elim (Option-cases (search_known h id (namespace_files s))) [
      | inr (i, found) ↦ absurd (ground arith)
      | inl unknown ↦ elim (Result-cases h.mountinfo) [
        | inr (error, failed) ↦ absurd (ground arith)
        | inl (mounts, read) ↦ elim (Option-cases (search_mounts h id (nsfs_paths mounts))) [
          | inr (i, found) ↦ absurd (ground arith)
          | inl unmounted ↦ (
            search_known-IsUnanswered h id (namespace_files s) unknown,
            (mounts, read, search_mounts-IsUnmounted h id (nsfs_paths mounts) unmounted),
            search_processes-IsUnheld h id (PidsIterator.new h) (ground arith),
          )
        ]
      ]
    ]
