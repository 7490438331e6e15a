-- ===== src/Tracker/Mirror.antt =====
-- The tracker's MountState follows the mount monitor's table: the protocol between `update_mountinfo`
-- of src/mount_monitor.rs and `MountState::on_event` of src/netns_tracker.rs, with libmount's stream before it
-- and the tracker's filter and merge after it.
pub mod Step
pub mod Loop
pub mod Removal
pub mod Sync
pub mod Start
pub mod Monitor
pub mod Filtered
pub mod Merged
pub mod Streams
pub mod Unexpected
pub mod Source
use net_device_mapping.HashMap
use net_device_mapping.MountMonitor.{Uuid, MountChange}
use net_device_mapping.MountMonitor.Rescan.{Mounts}
use net_device_mapping.Prelude.{◌≡◌, refl, List, [], ◌∷◌, ◌++◌, nat_key}
use net_device_mapping.Tracker.MountState.{MountState, on_event}

-- What a receiver holds that started empty and handled these events in order.
unfoldable pub replay : List MountChange → MountState → MountState
replay [] mounts = mounts
replay (event ∷ events) mounts = replay events (on_event event mounts)

pub replay-append_one :
    (events : List MountChange) (event : MountChange) (mounts : MountState)
    → replay (events ++ event ∷ []) mounts ≡ on_event event (replay events mounts)
unfolding replay
replay-append_one [] event mounts = refl
replay-append_one (e ∷ events) event mounts = replay-append_one events event (on_event e mounts)

-- The receiver has every mount point under the UUID that the monitor has it under, and no other.
abbrev pub Mirrors : List MountChange → Mounts → Type 0
Mirrors sent mountinfo =
    (uuid : Uuid) → HashMap.get uuid (replay sent []) ≡ HashMap.get uuid mountinfo
