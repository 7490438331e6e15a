-- ===== src/Netns/Lookup.antt =====
-- `by_inode`, `by_path`, `by_file` and `by_id` of src/netns.rs: one namespace, looked up afresh.
pub mod Identified
use net_device_mapping.HashMap
use net_device_mapping.HashMap.{HashMap}
use net_device_mapping.HashSet
use net_device_mapping.HashSet.{HashSet}
use net_device_mapping.Host.{Host, INode, Pid, NsId, RawFd}
use net_device_mapping.Netns.{
  NetworkNamespace, Error, couldnt_get_metadata, io_error, id_query_failed, any_file,
}
use net_device_mapping.Netns.MountsIterator
use net_device_mapping.Netns.NsidQuery.{id_by_path}
use net_device_mapping.Netns.PidsIterator
use net_device_mapping.Path.{PathBuf}
use net_device_mapping.Path.Equality.{path_key}
use net_device_mapping.Prelude.{
  ℕ, List, [], ◌∷◌, Option, none, some, Result, ok, err, map_err, ◌>>=◌, Outcome, returns, panics,
  ◌==◌, if◌then◌else◌, nat_key, option_nat_key, key_eq,
}

-- The processes in the namespace; here one that is gone ends the search.
unfoldable pub pids_in : Host → INode → List (PathBuf × ℕ) → Result Error (List Pid)
pids_in h target [] = ok []
pids_in h target (file ∷ files) = do
  (_, pid, inode) ← PidsIterator.next h file
  pids ← pids_in h target files
  ok (if inode == target then pid ∷ pids else pids)

-- The mounts that bind the namespace, added to those met before.
unfoldable pub mounts_of :
    Host → INode → List PathBuf → HashSet PathBuf → Result Error (HashSet PathBuf)
mounts_of h target [] paths = ok paths
mounts_of h target (mount ∷ mounts) paths = do
  (path, inode) ← MountsIterator.next h mount
  mounts_of h target mounts (if inode == target then HashSet.insert path paths else paths)

-- Both searches of `by_inode`.
unfoldable pub gather : Host → INode → Result Error (List Pid × HashSet PathBuf)
gather h target = do
  pids ← pids_in h target (PidsIterator.new h)
  mounts ← MountsIterator.new h
  fs_path ← mounts_of h target mounts []
  ok (pids, fs_path)

-- The end of `by_inode`: `any_file().unwrap()` panics on a namespace without files.
unfoldable pub with_id : Host → NetworkNamespace → Outcome (Result Error (Option NetworkNamespace))
with_id h netns = elim (any_file netns) [
  | some path ↦
      returns
        (do id ← map_err id_query_failed (id_by_path h path); ok (some (record netns { id = id })))
  | none ↦ panics
]

-- If no processes use it and it does not have a path, it does not exist.
unfoldable pub unless_unused :
    Host → INode → List Pid → HashSet PathBuf → Outcome (Result Error (Option NetworkNamespace))
unless_unused h target [] [] = returns (ok none)
unless_unused h target pids fs_path =
    with_id h (record { inode = target; id = none; fs_path = fs_path; pids = pids })

unfoldable pub by_inode : Host → INode → Outcome (Result Error (Option NetworkNamespace))
by_inode h target = elim (gather h target) [
  | ok (pids, fs_path) ↦ unless_unused h target pids fs_path
  | err e ↦ returns (err e)
]

-- `?` in front of a call that may panic.
abbrev then_by :
    Result Error INode
    → (INode → Outcome (Result Error (Option NetworkNamespace)))
    → Outcome (Result Error (Option NetworkNamespace))
then_by (ok a) f = f a
then_by (err e) f = returns (err e)

unfoldable pub by_path : Host → PathBuf → Outcome (Result Error (Option NetworkNamespace))
by_path h path = then_by (map_err (couldnt_get_metadata path) (h.metadata path)) (by_inode h)

unfoldable pub by_file : Host → RawFd → Outcome (Result Error (Option NetworkNamespace))
by_file h file = then_by (map_err io_error (h.file_metadata file)) (by_inode h)

-- One path for each inode: `entry(inode).or_insert(path)` keeps the first.
unfoldable pub one_file_each :
    Host → List PathBuf → HashMap INode PathBuf → Result Error (HashMap INode PathBuf)
one_file_each h [] all_files = ok all_files
one_file_each h (mount ∷ mounts) all_files = do
  (path, inode) ← MountsIterator.next h mount
  one_file_each h mounts (elim (HashMap.get inode all_files) [
    | some _ ↦ all_files
    | none ↦ HashMap.insert inode path all_files
  ])

-- What `by_id` returns for the file whose id is the one that is asked for.
unfoldable pub found_by_id : Host → NsId → INode → PathBuf → Result Error (Option NetworkNamespace)
found_by_id h id inode filepath = do
  pids ← pids_in h inode (PidsIterator.new h)
  ok (some (record { inode = inode; id = some id; fs_path = filepath ∷ []; pids = pids }))

-- The search of `by_id` over those files.
unfoldable pub search_id :
    Host → NsId → HashMap INode PathBuf → Result Error (Option NetworkNamespace)
search_id h id [] = ok none
search_id h id ((inode, filepath) ∷ all_files) = do
  answer ← map_err id_query_failed (id_by_path h filepath)
  if key_eq (some id) answer then found_by_id h id inode filepath else search_id h id all_files

unfoldable pub by_id : Host → NsId → Result Error (Option NetworkNamespace)
by_id h id = do
  mounts ← MountsIterator.new h
  all_files ← one_file_each h mounts []
  search_id h id all_files
