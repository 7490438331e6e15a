-- ===== src/Tracker/Mirror/Step.antt =====
-- One mount point of a rescan keeps the receiver in step.
use net_device_mapping.HashMap
use net_device_mapping.HashMap.Laws.{get-insert, get-remove}
use net_device_mapping.HashSet
use net_device_mapping.HashSet.{contains-insert}
use net_device_mapping.MountMonitor.{MountPoint, Uuid, modified}
use net_device_mapping.MountMonitor.Effects.{move_mount_lem, refresh_mount_lem, add_mount_lem}
use net_device_mapping.MountMonitor.Rescan.{
  Mounts, going, Rescan, move_mount, refresh_mount, add_mount,
}
use net_device_mapping.Prelude.{ℕ, ◌≡◌, Bool, true, false, [], Option, none, some, arith, nat_key}
use net_device_mapping.Tracker.Mirror.{replay, replay-append_one}
use net_device_mapping.Tracker.MountState.{on_event}

-- In the middle of a rescan: what has been met is as in the new table, the rest as in the old one.
abbrev pub halfway : Option MountPoint → Bool → Option MountPoint → Option MountPoint
halfway (some mp) seen old = some mp
halfway none true old = none
halfway none false old = old

pub record InStep (old : Mounts) (st : Rescan) : Type 0 where
  pub view :
      (u : Uuid)
      → HashMap.get u (replay st.sender.sent [])
        ≡ halfway (HashMap.get u st.new_map) (HashSet.contains u st.seen_old) (HashMap.get u old)
  pub owned :
      (u : Uuid) (mp : MountPoint)
      → HashMap.get u old ≡ some mp
      → HashSet.contains u st.seen_old ≡ false
      → HashMap.get u st.new_map ≡ none

module _ (new_v4 : ℕ → Uuid) (old : Mounts) where
  pub move_mount-InStep :
      (uuid : Uuid) (old_mp mp : MountPoint) (st : Rescan) {st' : Rescan}
      → HashMap.get (new_v4 st.drawn) old ≡ none
      → HashMap.get uuid old ≡ some old_mp
      → HashSet.contains uuid st.seen_old ≡ false
      → InStep old st
      → move_mount new_v4 uuid mp st ≡ going st'
      → InStep old st'
  unfolding on_event
  move_mount-InStep uuid old_mp mp st {st'} fresh found unseen s h =
      let (sent, new_map, seen, _) = move_mount_lem new_v4 uuid mp st h in
      let n = new_v4 st.drawn in
      let before = replay st.sender.sent [] in
      record {
        view = λ u.
            rw (sent, new_map, seen, replay-append_one, replay-append_one)
              (ground (
                arith,
                get-insert n u mp (HashMap.remove uuid before),
                get-remove uuid u before,
                get-insert n u mp st.new_map,
                contains-insert uuid u st.seen_old,
                s.view u,
                s.owned uuid old_mp found unseen,
              ));
        owned = λ u o e q. rw new_map (
            ground (
              arith,
              get-insert n u mp st.new_map,
              contains-insert uuid u st.seen_old,
              seen,
              s.owned u o e,
            ));
      }

  pub refresh_mount-InStep :
      (uuid : Uuid) (old_mp mp : MountPoint) (st : Rescan) {st' : Rescan}
      → HashMap.get uuid old ≡ some old_mp
      → HashSet.contains uuid st.seen_old ≡ false
      → InStep old st
      → refresh_mount new_v4 uuid old_mp mp st ≡ going st'
      → InStep old st'
  unfolding on_event
  refresh_mount-InStep uuid old_mp mp st {st'} found unseen s h =
      let (sent, new_map, seen, _) = refresh_mount_lem new_v4 uuid old_mp mp st h in
      let before = replay st.sender.sent [] in
      record {
        view = λ u.
            rw (sent, new_map, seen)
              (ground (
                arith,
                replay-append_one st.sender.sent (modified uuid mp) [],
                get-insert uuid u mp before,
                get-insert uuid u mp st.new_map,
                contains-insert uuid u st.seen_old,
                s.view u,
                s.owned uuid old_mp found unseen,
              ));
        owned = λ u o e q. rw new_map (
            ground (
              arith,
              get-insert uuid u mp st.new_map,
              contains-insert uuid u st.seen_old,
              seen,
              s.owned u o e,
            ));
      }

  pub add_mount-InStep :
      (mp : MountPoint) (st : Rescan) {st' : Rescan}
      → HashMap.get (new_v4 st.drawn) old ≡ none
      → InStep old st
      → add_mount new_v4 mp st ≡ going st'
      → InStep old st'
  unfolding on_event
  add_mount-InStep mp st {st'} fresh s h =
      let (sent, new_map, seen, _) = add_mount_lem new_v4 mp st h in
      let n = new_v4 st.drawn in
      record {
        view = λ u.
            rw (sent, new_map, seen, replay-append_one)
              (ground (
                arith,
                get-insert n u mp (replay st.sender.sent []),
                get-insert n u mp st.new_map,
                s.view u,
              ));
        owned = λ u o e q.
            rw new_map (ground (arith, get-insert n u mp st.new_map, seen, s.owned u o e));
      }
