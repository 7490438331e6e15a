-- ===== src/Tracker/MountState.antt =====
-- `MountState` of src/netns_tracker.rs: the tracker's copy of the mount monitor's table.
use net_device_mapping.HashMap
use net_device_mapping.HashMap.{HashMap}
use net_device_mapping.MountMonitor.{MountPoint, Uuid, MountChange, added, removed, modified}
use net_device_mapping.Path.{PathBuf}
use net_device_mapping.Path.Equality.{path_key}
use net_device_mapping.Path.Order.{sorted, dedup}
use net_device_mapping.Prelude.{List, map, Bool, Option, any, key_eq, nat_key}
use mathlib.Core.Option

abbrev pub MountState : Type 0
MountState = HashMap Uuid MountPoint

unfoldable pub on_event : MountChange → MountState → MountState
unfolding HashMap.insert HashMap.remove
on_event (added uuid mount_point) mounts = HashMap.insert uuid mount_point mounts
on_event (removed uuid) mounts = HashMap.remove uuid mounts
on_event (modified uuid mount_point) mounts = HashMap.insert uuid mount_point mounts

unfoldable pub has_path : PathBuf → MountState → Bool
has_path path mounts = any (λ e. key_eq e.1.path path) mounts

unfoldable pub get_path : Uuid → MountState → Option PathBuf
unfolding HashMap.get
get_path uuid mounts = Option.map (λ m. m.path) (HashMap.get uuid mounts)

unfoldable pub all_paths : MountState → List PathBuf
all_paths mounts = dedup (sorted (map (λ e. e.1.path) mounts))
