-- ===== src/Netns.antt =====
-- src/netns.rs: the type of a network namespace, and the files that lead to it.
pub mod Procfs
pub mod NsidQuery
pub mod PidsIterator
pub mod MountsIterator
pub mod Scan
pub mod Lookup
use net_device_mapping.Decimal.{to_string}
use net_device_mapping.HashSet.{HashSet}
use net_device_mapping.Host.{INode, Pid, NsId, IoError, RtnetlinkError}
use net_device_mapping.Path.{PathBuf, codes, join, root_dir}
use net_device_mapping.Prelude.{List, [], ◌∷◌, ◌++◌, map, Option, head?}

pub record NetworkNamespace : Type 0 where
  pub inode : INode
  pub id : Option NsId
  pub fs_path : HashSet PathBuf
  pub pids : List Pid

pub data IdError : Type 0 where
  couldnt_open_netns : IoError → IdError
  rtnetlink : RtnetlinkError → IdError

pub data Error : Type 0 where
  couldnt_get_metadata : PathBuf → IoError → Error
  couldnt_get_mountinfo : IoError → Error
  io_error : IoError → Error
  id_query_failed : IdError → Error

-- `/proc/<pid>/ns/net`
unfoldable pub proc_ns_path : Pid → PathBuf
unfolding join to_string
proc_ns_path pid =
    join (join (join (join (root_dir ∷ []) (codes "proc")) (to_string pid)) (codes "ns"))
      (codes "net")

-- The mounted files first, then those of the processes.
unfoldable pub files : NetworkNamespace → List PathBuf
unfolding proc_ns_path
files netns = netns.fs_path ++ map proc_ns_path netns.pids

unfoldable pub any_file : NetworkNamespace → Option PathBuf
unfolding files
any_file netns = head? (files netns)
