-- ===== src/MountMonitor.antt =====
-- src/mount_monitor.rs: the mount points and the changes that it reports. The types are its own
-- copies of those of the mountinfo crate.
pub mod Convert
pub mod Rescan
pub mod Effects
pub mod Ids
pub mod Table
pub mod Runs
pub mod Monitor
pub mod Setup
use net_device_mapping.Path.{Str, PathBuf, codes}
use net_device_mapping.Path.Equality.{PathBuf-discrete}
use net_device_mapping.Prelude.{ℕ, List, Option, Bool, Key, key_eq, ℕ_discrete}

pub data ReadWrite : Type 0 where
  read_only read_write : ReadWrite

pub record MountOptions : Type 0 where
  pub read_write : ReadWrite
  pub others : List Str

pub data FsType : Type 0 where
  proc overlay tmpfs sysfs btrfs ext2 ext3 ext4 devtmpfs : FsType
  other : Str → FsType

pub record MountPoint : Type 0 where
  pub id : Option ℕ
  pub parent_id : Option ℕ
  pub root : Option PathBuf
  pub what : Str
  pub path : PathBuf
  pub fstype : FsType
  pub options : MountOptions

-- A v4 UUID, as its 128 bits.
abbrev pub Uuid : Type 0
Uuid = ℕ

pub data MountChange : Type 0 where
  added : Uuid → MountPoint → MountChange
  removed : Uuid → MountChange
  modified : Uuid → MountPoint → MountChange

-- The derived `PartialEq`s.
unfoldable pub FsType-discrete : Discrete FsType
FsType-discrete = hlevel ℕ_discrete

unfoldable pub MountPoint-discrete : Discrete MountPoint
unfolding FsType-discrete PathBuf-discrete
MountPoint-discrete = hlevel (ℕ_discrete, FsType-discrete, PathBuf-discrete)

instance abbrev pub fstype_key : Key FsType
fstype_key = record { dec = FsType-discrete }

instance abbrev pub mount_point_key : Key MountPoint
mount_point_key = record { dec = MountPoint-discrete }
