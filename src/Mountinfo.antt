-- ===== src/Mountinfo.antt =====
-- The types of the mountinfo crate, with the variants and the fields that mount_monitor.rs names
-- when it converts them. The crate's parser is not modelled: its result is input.
use net_device_mapping.Path.{Str, PathBuf, codes}
use net_device_mapping.Prelude.{ℕ, List, Option, Bool, Key, key_eq, ℕ_discrete}

pub data ReadWrite : Type 0 where
  read_only read_write : ReadWrite

pub record MountOptions : Type 0 where
  pub read_write : ReadWrite
  pub others : List Str

pub data FsType : Type 0 where
  proc overlay tmpfs sysfs btrfs ext2 ext3 ext4 devtmpfs : FsType
  other : Str → FsType

unfoldable pub FsType-discrete : Discrete FsType
FsType-discrete = hlevel ℕ_discrete

instance abbrev pub fstype_key : Key FsType
fstype_key = record { dec = FsType-discrete }

-- `fstype == FsType::Other("nsfs")`
abbrev pub is_nsfs : FsType → Bool
is_nsfs t = key_eq t (other (codes "nsfs"))

pub record MountPoint : Type 0 where
  pub id : Option ℕ
  pub parent_id : Option ℕ
  pub root : Option PathBuf
  pub what : Str
  pub path : PathBuf
  pub fstype : FsType
  pub options : MountOptions
