-- ===== src/Tracker/Mirror/Unexpected.antt =====
-- What a change of another file than the mount table does to the monitor of src/mount_monitor.rs, which
-- asks libmount for changes in userspace too.
use net_device_mapping.Channel.{Sender}
use net_device_mapping.Host.{Host}
use net_device_mapping.MountMonitor.{Uuid, MountChange}
use net_device_mapping.MountMonitor.Convert.{from_mount_point}
use net_device_mapping.MountMonitor.Monitor.{
  mountinfo_path, Wake, closed, changed, stream_ended, panicked, handle_change, run,
  monitor_mountinfo,
}
use net_device_mapping.MountMonitor.Rescan.{Monitor, assign_uuids, new}
use net_device_mapping.MountMonitor.Runs.{Listening}
use net_device_mapping.Path.{PathBuf}
use net_device_mapping.Path.Equality.{path_key}
use net_device_mapping.Prelude.{ℕ, ◌≡◌, ◌≢◌, refl, List, [], ◌∷◌, ◌++◌, map, false, arith, key_eq}
use net_device_mapping.Tracker.Mirror.Monitor.{
  IsReadable, AreReadable, GoesOn, handle_change_lem, started-IsSynced,
}
use net_device_mapping.Tracker.Mirror.Start.{send_mountinfo-sent}
use net_device_mapping.Tracker.Mirror.Sync.{IsSynced, rescan-Listening}

other_key : (p q : PathBuf) → p ≢ q → key_eq p q ≡ false
other_key p q other = ground arith

module _ (new_v4 : ℕ → Uuid) (distinct : (n m : ℕ) → new_v4 n ≡ new_v4 m → n ≡ m) where
  run-panics :
      (before after : List Wake) (h : Host) (mount_file : PathBuf) (s : Monitor)
      → GoesOn before
      → AreReadable before
      → mount_file ≢ mountinfo_path
      → Listening s.sender
      → IsSynced new_v4 s
      → run new_v4 (before ++ changed h mount_file ∷ after) s ≡ panicked
  unfolding run handle_change
  run-panics [] after h mount_file s g r other listening y =
      rw (run, handle_change, other_key mount_file mountinfo_path other) refl
  run-panics (closed ∷ before) after h mount_file s g r other listening y = absurd g
  run-panics (stream_ended ∷ before) after h mount_file s g r other listening y = absurd g
  run-panics (changed h₁ file₁ ∷ before) after h mount_file s g (file, (mps, read, d), r) other
        listening y =
      let (s', done, synced, _, listening') =
        rescan-Listening new_v4 (map from_mount_point mps) s distinct d listening y in
      rw (run, handle_change_lem new_v4 distinct h₁ file₁ s mps file read done)
        (run-panics before after h mount_file s' g r other listening' synced)

  -- However often the mount table has been read without an error before, the first change of another file
  -- makes the monitor panic, whatever would come after it. The receiver listens and has had nothing
  -- before, the UUIDs differ, and the tables have distinct ids.
  pub monitor_mountinfo-panics :
      (h h' : Host) (before after : List Wake) (mount_file : PathBuf) (send : Sender MountChange)
      → IsReadable h
      → AreReadable before
      → GoesOn before
      → mount_file ≢ mountinfo_path
      → Listening send
      → send.sent ≡ []
      → monitor_mountinfo new_v4 h (before ++ changed h' mount_file ∷ after) send ≡ panicked
  unfolding monitor_mountinfo new
  monitor_mountinfo-panics h h' before after mount_file send (mps, read, d) r g other listening
        nothing =
      rw
        (
          read,
          send_mountinfo-sent (assign_uuids new_v4 0 (map from_mount_point mps) []) send listening,
        )
        (run-panics before after h' mount_file _ g r other listening
          (started-IsSynced new_v4 distinct (map from_mount_point mps) send d nothing))
