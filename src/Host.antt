-- ===== src/Host.antt =====
-- What the program asks of the system while it handles one request or one event: the files under
-- /proc, the mount table and the kernel's answers over rtnetlink. None of it is the program's code,
-- so it is a parameter: a snapshot of the system that answers each question.
use net_device_mapping.Mountinfo
use net_device_mapping.Netlink.{NetlinkRequest, NetlinkPayload}
use net_device_mapping.Path.{Str, PathBuf}
use net_device_mapping.Prelude.{ℕ, List, Option, Result}

abbrev pub INode : Type 0
INode = ℕ

abbrev pub Pid : Type 0
Pid = ℕ

abbrev pub NsId : Type 0
NsId = ℕ

abbrev pub RawFd : Type 0
RawFd = ℕ

-- `std::io::Error`, as its errno.
abbrev pub IoError : Type 0
IoError = ℕ

-- `rtnetlink::Error`, as its errno.
abbrev pub RtnetlinkError : Type 0
RtnetlinkError = ℕ

pub record Host : Type 0 where
  -- The entries that match a pattern; `none` is an entry that could not be read.
  pub glob : Str → List (Option PathBuf)
  -- The inode of the file that a path leads to.
  pub metadata : PathBuf → Result IoError INode
  -- The mounting points of `MountInfo::new()`.
  pub mountinfo : Result IoError (List Mountinfo.MountPoint)
  pub new_connection : Result IoError (Unit {0})
  pub open_file : PathBuf → Result IoError RawFd
  -- The inode of an open file.
  pub file_metadata : RawFd → Result IoError INode
  -- The payloads that answer a request, up to the end of the stream.
  pub request : NetlinkRequest → Result RtnetlinkError (List NetlinkPayload)
