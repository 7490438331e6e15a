-- ===== src/MountMonitor/Convert.antt =====
-- The `From` and `Into` implementations of src/mount_monitor.rs.
use net_device_mapping.Mountinfo
use net_device_mapping.MountMonitor.{
  ReadWrite, read_only, read_write, MountOptions, FsType, proc, overlay, tmpfs, sysfs, btrfs, ext2,
  ext3, ext4, devtmpfs, other, MountPoint,
}
use net_device_mapping.Prelude.{◌≡◌, refl}

unfoldable pub from_read_write : Mountinfo.ReadWrite → ReadWrite
from_read_write Mountinfo.read_only = read_only
from_read_write Mountinfo.read_write = read_write

unfoldable pub into_read_write : ReadWrite → Mountinfo.ReadWrite
into_read_write read_only = Mountinfo.read_only
into_read_write read_write = Mountinfo.read_write

unfoldable pub from_options : Mountinfo.MountOptions → MountOptions
from_options value = record { read_write = from_read_write value.read_write; others = value.others }

unfoldable pub into_options : MountOptions → Mountinfo.MountOptions
into_options self = record { read_write = into_read_write self.read_write; others = self.others }

unfoldable pub from_fs_type : Mountinfo.FsType → FsType
from_fs_type Mountinfo.proc = proc
from_fs_type Mountinfo.overlay = overlay
from_fs_type Mountinfo.tmpfs = tmpfs
from_fs_type Mountinfo.sysfs = sysfs
from_fs_type Mountinfo.btrfs = btrfs
from_fs_type Mountinfo.ext2 = ext2
from_fs_type Mountinfo.ext3 = ext3
from_fs_type Mountinfo.ext4 = ext4
from_fs_type Mountinfo.devtmpfs = devtmpfs
from_fs_type (Mountinfo.other x) = other x

unfoldable pub into_fs_type : FsType → Mountinfo.FsType
into_fs_type proc = Mountinfo.proc
into_fs_type overlay = Mountinfo.overlay
into_fs_type tmpfs = Mountinfo.tmpfs
into_fs_type sysfs = Mountinfo.sysfs
into_fs_type btrfs = Mountinfo.btrfs
into_fs_type ext2 = Mountinfo.ext2
into_fs_type ext3 = Mountinfo.ext3
into_fs_type ext4 = Mountinfo.ext4
into_fs_type devtmpfs = Mountinfo.devtmpfs
into_fs_type (other x) = Mountinfo.other x

unfoldable pub from_mount_point : Mountinfo.MountPoint → MountPoint
unfolding from_options
from_mount_point value = record {
  id = value.id;
  parent_id = value.parent_id;
  root = value.root;
  what = value.what;
  path = value.path;
  fstype = from_fs_type value.fstype;
  options = from_options value.options;
}

unfoldable pub into_mount_point : MountPoint → Mountinfo.MountPoint
unfolding into_options
into_mount_point self = record {
  id = self.id;
  parent_id = self.parent_id;
  root = self.root;
  what = self.what;
  path = self.path;
  fstype = into_fs_type self.fstype;
  options = into_options self.options;
}

from-into_read_write : (t : ReadWrite) → from_read_write (into_read_write t) ≡ t
unfolding from_read_write into_read_write
from-into_read_write read_only = refl
from-into_read_write read_write = refl

into-from_read_write : (t : Mountinfo.ReadWrite) → into_read_write (from_read_write t) ≡ t
unfolding from_read_write into_read_write
into-from_read_write Mountinfo.read_only = refl
into-from_read_write Mountinfo.read_write = refl

from-into_fs_type : (t : FsType) → from_fs_type (into_fs_type t) ≡ t
unfolding from_fs_type into_fs_type
from-into_fs_type (other x) = refl
from-into_fs_type _ = refl

into-from_fs_type : (t : Mountinfo.FsType) → into_fs_type (from_fs_type t) ≡ t
unfolding from_fs_type into_fs_type
into-from_fs_type (Mountinfo.other x) = refl
into-from_fs_type _ = refl

-- The program's copies of the mountinfo types lose nothing: a mount point converted to the crate's
-- type and back is the same again, and so is one of the crate's converted to the copy and back.
pub mount_point_roundtrip :
    (m : MountPoint) (n : Mountinfo.MountPoint)
    → (from_mount_point (into_mount_point m) ≡ m) × (into_mount_point (from_mount_point n) ≡ n)
mount_point_roundtrip m n = (
  unfold from_mount_point into_mount_point from_options into_options in
      rw (from-into_fs_type, from-into_read_write),
  unfold from_mount_point into_mount_point from_options into_options in
      rw (into-from_fs_type, into-from_read_write),
)
