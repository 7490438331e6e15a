-- ===== src/Tracker/Mirror/Sync.antt =====
-- Rescan after rescan, the tracker's MountState and the mount monitor's table stay the same.
use net_device_mapping.Channel.{Sender}
use net_device_mapping.HashMap
use net_device_mapping.HashMap.{IsMap}
use net_device_mapping.HashSet
use net_device_mapping.Host.{Host}
use net_device_mapping.MountMonitor.Convert.{from_mount_point}
use net_device_mapping.MountMonitor.{MountPoint, Uuid, MountChange}
use net_device_mapping.MountMonitor.Effects.{going-injective, >>>-eq-going}
use net_device_mapping.MountMonitor.Ids.{DistinctIds, HaveIds, DistinctIds-MeetOnce}
use net_device_mapping.MountMonitor.Rescan.{
  Mounts, going, build_lookups, Rescan, start_rescan, rescan_mounts, send_removed, Monitor, rescan,
  update_mountinfo,
}
use net_device_mapping.MountMonitor.Runs.{Listening, Fine-going, Fine-cases, rescan-Fine}
use net_device_mapping.MountMonitor.Table.{IsSound}
use net_device_mapping.Mountinfo
use net_device_mapping.Prelude.{
  ℕ, ◌≤◌, ◌≡◌, refl, inl, inr, Option-cases, ◌⊎◌, map, true, false, ok, returns, List, [], none,
  arith, nat_key, subst,
}
use net_device_mapping.Tracker.Mirror.{Mirrors}
use net_device_mapping.Tracker.Mirror.Loop.{rescan_mounts-Reached}
use net_device_mapping.Tracker.Mirror.Removal.{send_removed_lem}
use net_device_mapping.Tracker.Mirror.Step.{InStep}

-- Between two rescans: the table is a map of mount points with ids, no UUID still to be drawn is in
-- use, and a receiver of all the events so far has the same table.
pub record IsSynced (new_v4 : ℕ → Uuid) (s : Monitor) : Type 0 where
  pub is_map : IsMap s.mountinfo
  pub have : HaveIds s.mountinfo
  pub fresh : (n : ℕ) → s.drawn ≤ n → HashMap.get (new_v4 n) s.mountinfo ≡ none
  pub mirrors : Mirrors s.sender.sent s.mountinfo

finished-Mirrors :
    (old : Mounts) (st : Rescan) (sender : Sender MountChange)
    → InStep old st
    → send_removed old st.seen_old st.sender ≡ going sender
    → Mirrors sender.sent st.new_map
finished-Mirrors old st sender s h u = elim (Option-cases (HashMap.get u old)) [
  | inl absent ↦ ground (arith, send_removed_lem st.seen_old u old st.sender h, s.view u)
  | inr (mp, found) ↦
      ground (arith, send_removed_lem st.seen_old u old st.sender h, s.view u, s.owned u mp found)
]

module _ (new_v4 : ℕ → Uuid) where
  -- At its start a rescan has met nothing.
  start-InStep : (s : Monitor) → IsSynced new_v4 s → InStep s.mountinfo (start_rescan s)
  unfolding HashMap.get HashSet.contains
  start-InStep s y = record { view = y.mirrors; owned = λ u mp found new. refl }

  start-IsSound : (s : Monitor) → IsSynced new_v4 s → IsSound new_v4 s.mountinfo (start_rescan s)
  unfolding HashMap.get
  start-IsSound s y = record {
    is_map = tt;
    have = λ u mp found. cc;
    fresh = λ n k. refl;
    fresh_old = y.fresh;
  }

  rescan-IsSynced :
      (mps : List MountPoint) (s : Monitor) {s' : Monitor}
      → ((n m : ℕ) → new_v4 n ≡ new_v4 m → n ≡ m)
      → DistinctIds mps
      → IsSynced new_v4 s
      → rescan new_v4 mps s ≡ going s'
      → IsSynced new_v4 s' × (HashMap.values s'.mountinfo ≡ mps)
  unfolding rescan
  rescan-IsSynced mps s distinct d y h =
      let old = s.mountinfo in
      let lookups = build_lookups old ([], []) in
      let (st, scanned, h') =
        >>>-eq-going (rescan_mounts new_v4 old lookups mps (start_rescan s)) _ h in
      let (sender, sent, h'') = >>>-eq-going (send_removed old st.seen_old st.sender) _ h' in
      let all =
        rescan_mounts-Reached new_v4 old distinct lookups mps (start_rescan s) d
          (DistinctIds-MeetOnce old y.is_map y.have mps d) (start-InStep s y) (start-IsSound s y)
          scanned in
      let sound = all.sound in
      subst (λ t. IsSynced new_v4 t × (HashMap.values t.mountinfo ≡ mps)) (going-injective h'')
        (
          record {
            is_map = sound.is_map;
            have = sound.have;
            fresh = sound.fresh;
            mirrors = finished-Mirrors old st sender all.in_step sent;
          },
          all.entries,
        )

  pub rescan-Listening :
      (mps : List MountPoint) (s : Monitor)
      → ((n m : ℕ) → new_v4 n ≡ new_v4 m → n ≡ m)
      → DistinctIds mps
      → Listening s.sender
      → IsSynced new_v4 s
      → (s' : Monitor) × (rescan new_v4 mps s ≡ going s')
        × IsSynced new_v4 s'
        × (HashMap.values s'.mountinfo ≡ mps)
        × Listening s'.sender
  rescan-Listening mps s distinct d listening y =
      let (s', done, listening') =
        Fine-going (λ s. s.sender) (rescan new_v4 mps s)
          (rescan-Fine ⊥ new_v4 mps s y.is_map y.have d (inr listening)) in
      let (synced, entries) = rescan-IsSynced mps s distinct d y done in
      (s', done, synced, entries, listening')

  -- A rescan of mount points with distinct ids, while a receiver listens, returns `Ok(true)`. The new
  -- table holds exactly those mount points, in their order, and the receiver of all the events so far
  -- has the same table under the same UUIDs, if that was so before.
  pub update_mountinfo-IsSynced :
      (h : Host) (s : Monitor) (mounting_points : List Mountinfo.MountPoint)
      → ((n m : ℕ) → new_v4 n ≡ new_v4 m → n ≡ m)
      → h.mountinfo ≡ ok mounting_points
      → DistinctIds (map from_mount_point mounting_points)
      → Listening s.sender
      → IsSynced new_v4 s
      → (s' : Monitor) × (update_mountinfo new_v4 h s ≡ returns (ok (s', true)))
        × IsSynced new_v4 s'
        × (HashMap.values s'.mountinfo ≡ map from_mount_point mounting_points)
  unfolding update_mountinfo
  update_mountinfo-IsSynced h s mounting_points distinct read d listening y =
      let mps = map from_mount_point mounting_points in
      let (s', done, synced, entries, listening') = rescan-Listening mps s distinct d listening y in
      (s', rw (read, done), synced, entries)

  -- Whoever listens, a rescan of mount points with distinct ids does not panic: either it returns
  -- `Ok(true)` with a table that the receiver has too, or `Ok(false)` with the table that it had.
  pub update_mountinfo_cases :
      (h : Host) (s : Monitor) (mounting_points : List Mountinfo.MountPoint)
      → ((n m : ℕ) → new_v4 n ≡ new_v4 m → n ≡ m)
      → h.mountinfo ≡ ok mounting_points
      → DistinctIds (map from_mount_point mounting_points)
      → IsSynced new_v4 s
      → ((s' : Monitor) × (update_mountinfo new_v4 h s ≡ returns (ok (s', true)))
          × IsSynced new_v4 s')
        ⊎ ((s' : Monitor) × (update_mountinfo new_v4 h s ≡ returns (ok (s', false)))
            × (s'.mountinfo ≡ s.mountinfo))
  unfolding update_mountinfo
  update_mountinfo_cases h s mounting_points distinct read d y =
      let mps = map from_mount_point mounting_points in
      elim (Fine-cases (λ s. s.sender) (rescan new_v4 mps s)
        (rescan-Fine Unit new_v4 mps s y.is_map y.have d (inl tt))) [
          | inl (s', done) ↦ inl (s', rw (read, done), (rescan-IsSynced mps s distinct d y done).0)
          | inr (sender, stopped) ↦ inr (record s { sender = sender }, rw (read, stopped), refl)
        ]
