-- ===== src/Netns/MountsIterator.antt =====
-- `MountsIterator` of src/netns.rs: the list of the mounts that it has yet to yield, in the way of
-- PidsIterator.
use net_device_mapping.Host.{Host, INode}
use net_device_mapping.Mountinfo
use net_device_mapping.Netns.{Error, couldnt_get_metadata, couldnt_get_mountinfo}
use net_device_mapping.Path.{PathBuf}
use net_device_mapping.Prelude.{List, map, filter, Result, ok, map_err, ◌>>=◌}

-- Where something of the type nsfs is mounted.
unfoldable pub new : Host → Result Error (List PathBuf)
unfolding Mountinfo.FsType-discrete
new h = do
  mounts ← map_err couldnt_get_mountinfo h.mountinfo
  ok (map (λ x. x.path) (filter (λ x. Mountinfo.is_nsfs x.fstype) mounts))

-- What `next` returns for the mount that it takes.
unfoldable pub next : Host → PathBuf → Result Error (PathBuf × INode)
next h mount = do inode ← map_err (couldnt_get_metadata mount) (h.metadata mount); ok (mount, inode)
