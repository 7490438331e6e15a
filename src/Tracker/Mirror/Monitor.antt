-- ===== src/Tracker/Mirror/Monitor.antt =====
-- The whole monitor of src/mount_monitor.rs against a receiver that applies its events with the
-- tracker's `MountState::on_event`.
use mathlib.Core.List.{append-nil}
use net_device_mapping.Channel.{Sender}
use net_device_mapping.HashMap
use net_device_mapping.Host.{Host}
use net_device_mapping.MountMonitor.Convert.{from_mount_point}
use net_device_mapping.MountMonitor.{MountPoint, Uuid, MountChange}
use net_device_mapping.MountMonitor.Ids.{DistinctIds}
use net_device_mapping.MountMonitor.Monitor.{
  mountinfo_path, Wake, closed, changed, stream_ended, waiting, finished, handle_change, run,
  monitor_mountinfo,
}
use net_device_mapping.MountMonitor.Rescan.{
  going, rescan, Monitor, update_mountinfo, assign_uuids, new,
}
use net_device_mapping.MountMonitor.Runs.{Listening}
use net_device_mapping.Mountinfo
use net_device_mapping.Path.{PathBuf}
use net_device_mapping.Path.Equality.{path_key}
use net_device_mapping.Prelude.{
  ℕ, ◌≡◌, refl, subst, ◌∙◌, List, [], ◌∷◌, map, true, ok, returns, arith, nat_key, length, key_eq,
  ◌++◌,
}
use net_device_mapping.Tracker.Mirror.Start.{
  added_all, assign_uuids-IsDrawn, send_mountinfo-sent, replay-added_all, values-assign_uuids,
  empty-IsDrawn,
}
use net_device_mapping.Tracker.Mirror.Sync.{IsSynced, rescan-Listening}

-- The mount table can be read, and its mount ids are distinct.
abbrev pub IsReadable : Host → Type 0
IsReadable h =
    (mounting_points : List Mountinfo.MountPoint) × (h.mountinfo ≡ ok mounting_points)
    × DistinctIds (map from_mount_point mounting_points)

-- libmount reports no other file than the mount table, which can be read each time.
abbrev pub AreReadable : List Wake → Type 0
AreReadable [] = Unit
AreReadable (changed h mount_file ∷ wakes) =
    (mount_file ≡ mountinfo_path) × IsReadable h × AreReadable wakes
AreReadable (_ ∷ wakes) = AreReadable wakes

-- Nothing among these ends the loop.
abbrev pub GoesOn : List Wake → Type 0
GoesOn [] = Unit
GoesOn (changed h mount_file ∷ wakes) = GoesOn wakes
GoesOn (_ ∷ wakes) = ⊥

-- The system at the last change, or at the start if there was none.
abbrev pub last_host : Host → List Wake → Host
last_host h [] = h
last_host h (changed h' mount_file ∷ wakes) = last_host h' wakes
last_host h (_ ∷ wakes) = last_host h wakes

-- The monitor's mount points are those of the system's mount table, and the receiver has its table.
abbrev pub Follows : (ℕ → Uuid) → Host → Monitor → Type 0
Follows new_v4 h s =
    ((mps : List Mountinfo.MountPoint) × (h.mountinfo ≡ ok mps)
      × (HashMap.values s.mountinfo ≡ map from_mount_point mps))
    × IsSynced new_v4 s

same_key : (p q : PathBuf) → p ≡ q → key_eq p q ≡ true
same_key p q same = ground arith

module _ (new_v4 : ℕ → Uuid) (distinct : (n m : ℕ) → new_v4 n ≡ new_v4 m → n ≡ m) where
  pub handle_change_lem :
      (h : Host) (mount_file : PathBuf) (s : Monitor) (mps : List Mountinfo.MountPoint)
      {s' : Monitor}
      → mount_file ≡ mountinfo_path
      → h.mountinfo ≡ ok mps
      → rescan new_v4 (map from_mount_point mps) s ≡ going s'
      → handle_change new_v4 h mount_file s ≡ returns (ok (s', true))
  unfolding handle_change update_mountinfo
  handle_change_lem h mount_file s mps file read done =
      rw (same_key mount_file mountinfo_path file, read, done) refl

  run-IsSynced :
      (h : Host) (mps : List Mountinfo.MountPoint) (wakes : List Wake) (s : Monitor)
      → h.mountinfo ≡ ok mps
      → HashMap.values s.mountinfo ≡ map from_mount_point mps
      → AreReadable wakes
      → GoesOn wakes
      → Listening s.sender
      → IsSynced new_v4 s
      → (s' : Monitor) × ((more : List Wake) → run new_v4 (wakes ++ more) s ≡ run new_v4 more s')
        × Follows new_v4 (last_host h wakes) s'
  unfolding run
  run-IsSynced h mps [] s now same r g listening y = (s, λ more. refl, ((mps, now, same), y))
  run-IsSynced h mps (closed ∷ wakes) s now same r g listening y = absurd g
  run-IsSynced h mps (stream_ended ∷ wakes) s now same r g listening y = absurd g
  run-IsSynced h₀ mps₀ (changed h mount_file ∷ wakes) s now same (file, (mps, read, d), r) g
        listening y =
      let (s', done, synced, same', listening') =
        rescan-Listening new_v4 (map from_mount_point mps) s distinct d listening y in
      let (s'', goes_on, follows) = run-IsSynced h mps wakes s' read same' r g listening' synced in
      (
        s'',
        λ more. rw (run, handle_change_lem h mount_file s mps file read done) (goes_on more),
        follows,
      )

  pub started-IsSynced :
      (mps : List MountPoint) (send : Sender MountChange)
      → DistinctIds mps
      → send.sent ≡ []
      → IsSynced new_v4 (record {
        mountinfo = assign_uuids new_v4 0 mps [];
        drawn = length mps;
        sender = record send { sent = send.sent ++ added_all (assign_uuids new_v4 0 mps []) };
      })
  unfolding HashMap.get
  started-IsSynced mps send ids nothing =
      let mounts = assign_uuids new_v4 0 mps [] in
      let d = assign_uuids-IsDrawn new_v4 distinct mps 0 [] ids (empty-IsDrawn new_v4 distinct) in
      record {
        is_map = d.is_map;
        have = d.have;
        fresh = λ n le. d.fresh n (omega arith);
        mirrors = λ u. rw nothing (ground (arith, replay-added_all mounts u [] d.is_map));
      }

  -- With UUIDs that differ, mount tables that can be read with distinct ids each time, changes of no other
  -- file, and a listening receiver that has had nothing before, the monitor of mount points handles every
  -- change and then waits for the next: it neither returns nor panics. Its mount points are then those of
  -- the mount table at the last change, in their order, and the receiver has the same table under the same
  -- UUIDs. When its last receiver leaves or libmount's stream fails then, it returns `Ok(())`, whatever
  -- would come after.
  pub monitor_mountinfo-IsSynced :
      (h : Host) (wakes after : List Wake) (send : Sender MountChange)
      → IsReadable h
      → AreReadable wakes
      → GoesOn wakes
      → Listening send
      → send.sent ≡ []
      → (s' : Monitor) × (monitor_mountinfo new_v4 h wakes send ≡ waiting s')
        × Follows new_v4 (last_host h wakes) s'
        × (monitor_mountinfo new_v4 h (wakes ++ closed ∷ after) send ≡ finished (ok s'))
        × (monitor_mountinfo new_v4 h (wakes ++ stream_ended ∷ after) send ≡ finished (ok s'))
  unfolding monitor_mountinfo new
  monitor_mountinfo-IsSynced h wakes after send (mps, read, d) r g listening nothing =
      let mounts = assign_uuids new_v4 0 (map from_mount_point mps) [] in
      let started = send_mountinfo-sent mounts send listening in
      let s : Monitor = record {
        mountinfo = mounts;
        drawn = length (map from_mount_point mps);
        sender = record send { sent = send.sent ++ added_all mounts };
      } in
      let (s', goes_on, follows) =
        run-IsSynced h mps wakes s read
          (values-assign_uuids new_v4 distinct (map from_mount_point mps) 0 [] d
            (empty-IsDrawn new_v4 distinct))
          r g listening (started-IsSynced (map from_mount_point mps) send d nothing) in
      (
        s',
        rw (read, started)
            (subst (λ l. run new_v4 l s ≡ waiting s') (append-nil wakes)
              (goes_on [] ∙ unfold run in refl)),
        follows,
        rw (read, started) (goes_on (closed ∷ after) ∙ unfold run in refl),
        rw (read, started) (goes_on (stream_ended ∷ after) ∙ unfold run in refl),
      )
