-- ===== src/Tracker/Mirror/Loop.antt =====
-- A whole rescan keeps the receiver in step.
use mathlib.Core.List.{append-nil, append_assoc}
use net_device_mapping.HashMap
use net_device_mapping.HashSet
use net_device_mapping.HashSet.{HashSet}
use net_device_mapping.MountMonitor.{MountPoint, Uuid}
use net_device_mapping.MountMonitor.Effects.{
  going-injective, >>>-eq-going, move_mount_lem, refresh_mount_lem, add_mount_lem,
}
use net_device_mapping.MountMonitor.Ids.{Unmet, meet, MeetOnce, DistinctIds}
use net_device_mapping.MountMonitor.Rescan.{
  Mounts, Lookups, Match, by_id, by_path, unmatched, match_old, going, Rescan, update_by_id,
  update_by_path, rescan_matched, rescan_mount, rescan_mounts, move_mount, refresh_mount,
}
use net_device_mapping.MountMonitor.Table.{
  IsSound, rescan_matched-Entered, Entered-IsSound, Entered-values,
}
use net_device_mapping.Path.Equality.{path_key}
use net_device_mapping.Prelude.{
  ap, sym, ◌∙◌, ◌++◌, ℕ, ◌≤◌, ◌≡◌, refl, inl, inr, false, List, [], ◌∷◌, Option, none, some, arith,
  nat_key, key_eq, Bool-cases, subst,
}
use net_device_mapping.Tracker.Mirror.Step.{
  InStep, move_mount-InStep, refresh_mount-InStep, add_mount-InStep,
}

module _ (new_v4 : ℕ → Uuid) (old : Mounts) where
  -- A later state of the rescan, that has met what `seen` holds.
  record Later (st st' : Rescan) (seen : HashSet Uuid) : Type 0 where
    in_step : InStep old st'
    met : st'.seen_old ≡ seen
    draws : st.drawn ≤ st'.drawn

  move_mount-Later :
      (uuid : Uuid) (old_mp mp : MountPoint) (st : Rescan) {st' : Rescan}
      → HashMap.get uuid old ≡ some old_mp
      → HashMap.get (new_v4 st.drawn) old ≡ none
      → HashSet.contains uuid st.seen_old ≡ false
      → InStep old st
      → move_mount new_v4 uuid mp st ≡ going st'
      → Later st st' (HashSet.insert uuid st.seen_old)
  move_mount-Later uuid old_mp mp st found fresh unmet s h = record {
    in_step = move_mount-InStep new_v4 old uuid old_mp mp st fresh found unmet s h;
    met = (move_mount_lem new_v4 uuid mp st h).2;
    draws = omega (arith, (move_mount_lem new_v4 uuid mp st h).3);
  }

  refresh_mount-Later :
      (uuid : Uuid) (old_mp mp : MountPoint) (st : Rescan) {st' : Rescan}
      → HashMap.get uuid old ≡ some old_mp
      → HashSet.contains uuid st.seen_old ≡ false
      → InStep old st
      → refresh_mount new_v4 uuid old_mp mp st ≡ going st'
      → Later st st' (HashSet.insert uuid st.seen_old)
  refresh_mount-Later uuid old_mp mp st found unmet s h = record {
    in_step = refresh_mount-InStep new_v4 old uuid old_mp mp st found unmet s h;
    met = (refresh_mount_lem new_v4 uuid old_mp mp st h).2;
    draws = omega (arith, (refresh_mount_lem new_v4 uuid old_mp mp st h).3);
  }

  update_by_id-Later :
      (uuid : Uuid) (o : Option MountPoint) (mp : MountPoint) (st : Rescan) {st' : Rescan}
      → HashMap.get uuid old ≡ o
      → HashMap.get (new_v4 st.drawn) old ≡ none
      → HashSet.contains uuid st.seen_old ≡ false
      → InStep old st
      → update_by_id new_v4 uuid o mp st ≡ going st'
      → Later st st' (HashSet.insert uuid st.seen_old)
  unfolding update_by_id
  update_by_id-Later uuid none mp st found fresh unmet s h = cc
  update_by_id-Later uuid (some old_mp) mp st found fresh unmet s h =
      elim (Bool-cases (key_eq mp.path old_mp.path)) [
        | inl same ↦ refresh_mount-Later uuid old_mp mp st found unmet s (rw same at h)
        | inr moved ↦ move_mount-Later uuid old_mp mp st found fresh unmet s (rw moved at h)
      ]

  update_by_path-Later :
      (uuid : Uuid) (o : Option MountPoint) (mp : MountPoint) (st : Rescan) {st' : Rescan}
      → HashMap.get uuid old ≡ o
      → HashSet.contains uuid st.seen_old ≡ false
      → InStep old st
      → update_by_path new_v4 uuid o mp st ≡ going st'
      → Later st st' (HashSet.insert uuid st.seen_old)
  unfolding update_by_path
  update_by_path-Later uuid none mp st found unmet s h = cc
  update_by_path-Later uuid (some old_mp) mp st found unmet s h =
      refresh_mount-Later uuid old_mp mp st found unmet s h

  rescan_matched-Later :
      (m : Match) (mp : MountPoint) (st : Rescan) {st' : Rescan}
      → HashMap.get (new_v4 st.drawn) old ≡ none
      → Unmet m st.seen_old
      → InStep old st
      → rescan_matched new_v4 old m mp st ≡ going st'
      → Later st st' (meet m st.seen_old)
  unfolding rescan_matched
  rescan_matched-Later (by_id uuid) mp st fresh unmet s h =
      update_by_id-Later uuid (HashMap.get uuid old) mp st refl fresh unmet s h
  rescan_matched-Later (by_path uuid) mp st fresh unmet s h =
      update_by_path-Later uuid (HashMap.get uuid old) mp st refl unmet s h
  rescan_matched-Later unmatched mp st fresh unmet s h = record {
    in_step = add_mount-InStep new_v4 old mp st fresh s h;
    met = (add_mount_lem new_v4 mp st h).2;
    draws = omega (arith, (add_mount_lem new_v4 mp st h).3);
  }

  -- A state that the loop reaches: in step with the receiver, sound, and with the mount points met
  -- so far at the end of the new table.
  pub record Reached (st st' : Rescan) (mps : List MountPoint) : Type 0 where
    pub in_step : InStep old st'
    pub sound : IsSound new_v4 old st'
    pub entries : HashMap.values st'.new_map ≡ HashMap.values st.new_map ++ mps

  module _ (distinct : (n m : ℕ) → new_v4 n ≡ new_v4 m → n ≡ m) where
    rescan_mount-Reached :
        (lookups : Lookups) (mp : MountPoint) (i : ℕ) (st : Rescan) {st' : Rescan}
        → mp.id ≡ some i
        → Unmet (match_old lookups mp) st.seen_old
        → InStep old st
        → IsSound new_v4 old st
        → rescan_mount new_v4 old lookups mp st ≡ going st'
        → Reached st st' (mp ∷ []) × (st'.seen_old ≡ meet (match_old lookups mp) st.seen_old)
    unfolding rescan_mount
    rescan_mount-Reached lookups mp i st {st'} e unmet in_step sound h =
        let m = match_old lookups mp in
        let later =
          rescan_matched-Later m mp st (sound.fresh_old st.drawn (omega arith)) unmet in_step h in
        let entered = rescan_matched-Entered new_v4 old m mp st unmet h in
        (
          record {
            in_step = later.in_step;
            sound = Entered-IsSound new_v4 old distinct mp i st st' e entered sound;
            entries = Entered-values new_v4 old mp st st' entered sound in_step.owned;
          },
          later.met,
        )

    pub rescan_mounts-Reached :
        (lookups : Lookups) (mps : List MountPoint) (st : Rescan) {st' : Rescan}
        → DistinctIds mps
        → MeetOnce lookups st.seen_old mps
        → InStep old st
        → IsSound new_v4 old st
        → rescan_mounts new_v4 old lookups mps st ≡ going st'
        → Reached st st' mps
    unfolding rescan_mounts
    rescan_mounts-Reached lookups [] st {st'} d once in_step sound h =
        subst (λ x. Reached st x []) (going-injective h)
          (record {
            in_step = in_step;
            sound = sound;
            entries = sym (append-nil (HashMap.values st.new_map));
          })
    rescan_mounts-Reached lookups (mp ∷ mps) st {st'} ((i, e, _), d) (unmet, once) in_step sound h =
        let (mid, first, rest) = >>>-eq-going (rescan_mount new_v4 old lookups mp st) _ h in
        let (one, met) = rescan_mount-Reached lookups mp i st e unmet in_step sound first in
        let all =
          rescan_mounts-Reached lookups mps mid d (rw met once) one.in_step one.sound rest in
        record {
          in_step = all.in_step;
          sound = all.sound;
          entries =
              all.entries
              ∙ ap (λ l. l ++ mps) one.entries
              ∙ append_assoc (HashMap.values st.new_map) (mp ∷ []) mps;
        }
