-- ===== src/MountMonitor/Monitor.antt =====
-- `monitor_mountinfo` of src/mount_monitor.rs, over what wakes its loop. Every event of libmount is
-- handled against the system as it is at that time. Where nothing more wakes the loop, it waits.
use net_device_mapping.Channel.{Sender}
use net_device_mapping.Host.{Host, IoError}
use net_device_mapping.MountMonitor.{Uuid, MountChange}
use net_device_mapping.MountMonitor.Rescan.{Monitor, update_mountinfo, new, send_mountinfo}
use net_device_mapping.Path.{PathBuf, codes, root_dir, normal}
use net_device_mapping.Path.Equality.{path_key}
use net_device_mapping.Prelude.{
  ℕ, Bool, List, [], ◌∷◌, Result, ok, err, Outcome, returns, panics, if◌then◌else◌, key_eq,
}

-- `/proc/self/mountinfo`
abbrev pub mountinfo_path : PathBuf
mountinfo_path =
    root_dir ∷ normal (codes "proc") ∷ normal (codes "self") ∷ normal (codes "mountinfo") ∷ []

-- What wakes the loop: no receiver is left, a changed mount file, or an error of libmount's stream, such as
-- its end.
pub data Wake : Type 0 where
  closed : Wake
  changed : Host → PathBuf → Wake
  stream_ended : Wake

-- How the monitor stands: it waits for an event, it returned, with what its variables hold at `Ok(())`, or
-- it panicked.
pub data Loop : Type 0 where
  waiting : Monitor → Loop
  finished : Result IoError Monitor → Loop
  panicked : Loop

module _ (new_v4 : ℕ → Uuid) where
  -- One event: `false` breaks the loop, and any other file than the mount table panics.
  unfoldable pub handle_change :
      Host → PathBuf → Monitor → Outcome (Result IoError (Monitor × Bool))
  handle_change h mount_file s =
      if key_eq mount_file mountinfo_path then update_mountinfo new_v4 h s else panics

  unfoldable pub run : List Wake → Monitor → Loop
  run [] s = waiting s
  run (closed ∷ wakes) s = finished (ok s)
  run (stream_ended ∷ wakes) s = finished (ok s)
  run (changed h mount_file ∷ wakes) s = elim (handle_change h mount_file s) [
    | returns (ok (s', should_run)) ↦
        let rest = run wakes s' in if should_run then rest else finished (ok s')
    | returns (err e) ↦ finished (err e)
    | panics ↦ panicked
  ]

  -- The stored mount points first, then the loop.
  unfoldable pub monitor_mountinfo : Host → List Wake → Sender MountChange → Loop
  monitor_mountinfo h wakes send = elim (new new_v4 h) [
    | ok (mountinfo, drawn) ↦
        let (send', should_run) = send_mountinfo mountinfo send in
        let s : Monitor = record { mountinfo = mountinfo; drawn = drawn; sender = send' } in
        let rest = run wakes s in if should_run then rest else finished (ok s)
    | err e ↦ finished (err e)
  ]
