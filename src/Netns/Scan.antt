-- ===== src/Netns/Scan.antt =====
-- `NetworkNamespace::all` of src/netns.rs: every namespace that a process runs in or a mount binds.
pub mod View
pub mod Agreement
pub mod Distinct
use net_device_mapping.HashMap
use net_device_mapping.HashMap.{HashMap}
use net_device_mapping.HashSet
use net_device_mapping.Host.{Host, INode, Pid}
use net_device_mapping.Netns.{NetworkNamespace, Error, io_error, id_query_failed, any_file}
use net_device_mapping.Netns.MountsIterator
use net_device_mapping.Netns.NsidQuery.{id_by_path}
use net_device_mapping.Netns.PidsIterator
use net_device_mapping.Path.{PathBuf}
use net_device_mapping.Path.Equality.{path_key}
use net_device_mapping.Prelude.{
  ℕ, ◌%◌, ◌^◌, List, [], ◌∷◌, ◌++◌, none, some, Result, ok, err, map_err, ◌>>=◌, nat_key,
}

abbrev pub Inodes : Type 0
Inodes = HashMap INode NetworkNamespace

-- `entry(inode).and_modify(…).or_insert(…)` of the first loop.
unfoldable pub add_pid : Pid → INode → Inodes → Inodes
add_pid pid inode inodes = elim (HashMap.get inode inodes) [
  | some netns ↦ HashMap.insert inode (record netns { pids = netns.pids ++ pid ∷ [] }) inodes
  | none ↦
      HashMap.insert inode (record { inode = inode; id = none; fs_path = []; pids = pid ∷ [] })
        inodes
]

-- A process that is gone by the time its inode is asked for is skipped.
unfoldable pub scan_pids : Host → List (PathBuf × ℕ) → Inodes → Inodes
scan_pids h [] inodes = inodes
scan_pids h (file ∷ files) inodes = scan_pids h files (elim (PidsIterator.next h file) [
  | ok (_, pid, inode) ↦ add_pid pid inode inodes
  | err _ ↦ inodes
])

-- `entry(inode).and_modify(…).or_insert(…)` of the second loop.
unfoldable pub add_mount : PathBuf → INode → Inodes → Inodes
add_mount path inode inodes = elim (HashMap.get inode inodes) [
  | some netns ↦
      HashMap.insert inode (record netns { fs_path = HashSet.insert path netns.fs_path }) inodes
  | none ↦
      HashMap.insert inode (record { inode = inode; id = none; fs_path = path ∷ []; pids = [] })
        inodes
]

-- A mount whose inode cannot be asked for ends the scan.
unfoldable pub scan_mounts : Host → List PathBuf → Inodes → Result Error Inodes
scan_mounts h [] inodes = ok inodes
scan_mounts h (mount ∷ mounts) inodes = do
  (path, inode) ← MountsIterator.next h mount
  scan_mounts h mounts (add_mount path inode inodes)

-- The body of the third loop, for a namespace with a file.
unfoldable pub query_id_at : Host → NetworkNamespace → PathBuf → Result Error NetworkNamespace
query_id_at h netns file = do
  answer ← map_err id_query_failed (id_by_path h file)
  elim answer [
    | some netnsid ↦ ok (record netns { id = some (netnsid % 2 ^ 32) })
    | none ↦ ok netns
  ]

unfoldable pub query_id : Host → NetworkNamespace → Result Error NetworkNamespace
query_id h netns = elim (any_file netns) [ some file ↦ query_id_at h netns file | none ↦ ok netns ]

unfoldable pub query_ids : Host → Inodes → Result Error Inodes
query_ids h [] = ok []
query_ids h ((inode, netns) ∷ inodes) = do
  netns' ← query_id h netns
  rest ← query_ids h inodes
  ok ((inode, netns') ∷ rest)

unfoldable pub all : Host → Result Error (List NetworkNamespace)
all h = do
  mounts ← MountsIterator.new h
  inodes ← scan_mounts h mounts (scan_pids h (PidsIterator.new h) [])
  _ ← map_err io_error h.new_connection
  inodes' ← query_ids h inodes
  ok (HashMap.values inodes')
