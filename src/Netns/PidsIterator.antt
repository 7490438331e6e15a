-- ===== src/Netns/PidsIterator.antt =====
-- `PidsIterator` of src/netns.rs: the list of the files that it has yet to yield. A loop over the
-- iterator is a recursion on that list, with one `next` for each file, and ends at the empty list,
-- where `next` returns `Ok(None)`.
use net_device_mapping.Host.{Host, INode, Pid}
use net_device_mapping.Netns.{Error, couldnt_get_metadata}
use net_device_mapping.Netns.Procfs.{parse_procfs_path_start}
use net_device_mapping.Path.{Str, codes, PathBuf}
use net_device_mapping.Prelude.{
  ℕ, ◌%◌, ◌^◌, List, filter_map, Option, none, some, Result, ok, err, map_err, ◌>>=◌,
}

abbrev pub procfs_glob_pattern : Str
procfs_glob_pattern = codes "/proc/*/task/*/ns/net"

abbrev pub parse_entry : PathBuf → Option (PathBuf × ℕ)
parse_entry file = elim (parse_procfs_path_start file) [ ok pid ↦ some (file, pid) | err e ↦ none ]

-- Entries that cannot be read, and paths that do not parse, are dropped.
unfoldable pub new : Host → List (PathBuf × ℕ)
unfolding parse_procfs_path_start filter_map
new h = filter_map parse_entry (filter_map (λ file. file) (h.glob procfs_glob_pattern))

-- What `next` returns for the file that it takes; `pid as Pid` keeps 32 bits.
unfoldable pub next : Host → PathBuf × ℕ → Result Error (PathBuf × Pid × INode)
next h (file, pid) = do
  inode ← map_err (couldnt_get_metadata file) (h.metadata file)
  ok (file, pid % 2 ^ 32, inode)
