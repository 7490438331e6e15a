-- ===== src/MountMonitor/Table.antt =====
-- The new table of a rescan: a map again, of the mount points that were scanned and no others, under
-- old UUIDs or newly drawn ones.
use net_device_mapping.HashMap
use net_device_mapping.HashMap.{IsMap}
use net_device_mapping.HashMap.Laws.{get-insert, insert-IsMap, values-insert-absent}
use net_device_mapping.HashSet
use net_device_mapping.MountMonitor.{MountPoint, Uuid}
use net_device_mapping.MountMonitor.Effects.{move_mount_lem, refresh_mount_lem, add_mount_lem}
use net_device_mapping.MountMonitor.Ids.{HaveIds, Unmet}
use net_device_mapping.MountMonitor.Rescan.{
  Mounts, Match, by_id, by_path, unmatched, going, Rescan, move_mount, refresh_mount, update_by_id,
  update_by_path, rescan_matched,
}
use net_device_mapping.Path.Equality.{path_key}
use net_device_mapping.Prelude.{
  ℕ, ap, ◌∙◌, ◌++◌, false, ◌+◌, ◌≤◌, ◌≡◌, ◌≢◌, refl, ◌⊎◌, inl, inr, [], ◌∷◌, Option, none, some,
  arith, nat_key, key_eq, Bool-cases, sym, subst,
}

insert-HaveIds :
    (key : Uuid) (mp : MountPoint) (i : ℕ) (mounts : Mounts)
    → mp.id ≡ some i
    → HaveIds mounts
    → HaveIds (HashMap.insert key mp mounts)
insert-HaveIds key mp i mounts e h u mq f = elim (nat_key.dec key u) [
  | yes p ↦ (i, ground (arith, get-insert key u mp mounts))
  | no p ↦ h u mq (ground (arith, get-insert key u mp mounts))
]

module _ (new_v4 : ℕ → Uuid) (old : Mounts) where
  -- The key is an old UUID, or the one draw that the step made.
  abbrev pub Known : Uuid → Rescan → Rescan → Type 0
  Known key st st' =
      ((op : MountPoint) × (HashMap.get key old ≡ some op)
        × (HashSet.contains key st.seen_old ≡ false))
      ⊎ ((key ≡ new_v4 st.drawn) × (st'.drawn ≡ st.drawn + 1))

  pub record Entered (mp : MountPoint) (st st' : Rescan) : Type 0 where
    pub key : Uuid
    pub new_map : st'.new_map ≡ HashMap.insert key mp st.new_map
    pub known : Known key st st'
    pub draws : st.drawn ≤ st'.drawn

  move_mount-Entered :
      (uuid : Uuid) (mp : MountPoint) (st : Rescan) {st' : Rescan}
      → move_mount new_v4 uuid mp st ≡ going st'
      → Entered mp st st'
  move_mount-Entered uuid mp st h =
      let (_, new_map, _, drawn) = move_mount_lem new_v4 uuid mp st h in
      record {
        key = new_v4 st.drawn;
        new_map = new_map;
        known = inr (refl, drawn);
        draws = omega arith;
      }

  refresh_mount-Entered :
      (uuid : Uuid) (op mp : MountPoint) (st : Rescan) {st' : Rescan}
      → HashMap.get uuid old ≡ some op
      → HashSet.contains uuid st.seen_old ≡ false
      → refresh_mount new_v4 uuid op mp st ≡ going st'
      → Entered mp st st'
  refresh_mount-Entered uuid op mp st found unmet h =
      let (_, new_map, _, drawn) = refresh_mount_lem new_v4 uuid op mp st h in
      record { key = uuid; new_map = new_map; known = inl (op, found, unmet); draws = omega arith }

  update_by_id-Entered :
      (uuid : Uuid) (o : Option MountPoint) (mp : MountPoint) (st : Rescan) {st' : Rescan}
      → HashMap.get uuid old ≡ o
      → HashSet.contains uuid st.seen_old ≡ false
      → update_by_id new_v4 uuid o mp st ≡ going st'
      → Entered mp st st'
  unfolding update_by_id
  update_by_id-Entered uuid none mp st found unmet h = cc
  update_by_id-Entered uuid (some op) mp st found unmet h =
      elim (Bool-cases (key_eq mp.path op.path)) [
        | inl same ↦ refresh_mount-Entered uuid op mp st found unmet (rw same at h)
        | inr moved ↦ move_mount-Entered uuid mp st (rw moved at h)
      ]

  update_by_path-Entered :
      (uuid : Uuid) (o : Option MountPoint) (mp : MountPoint) (st : Rescan) {st' : Rescan}
      → HashMap.get uuid old ≡ o
      → HashSet.contains uuid st.seen_old ≡ false
      → update_by_path new_v4 uuid o mp st ≡ going st'
      → Entered mp st st'
  unfolding update_by_path
  update_by_path-Entered uuid none mp st found unmet h = cc
  update_by_path-Entered uuid (some op) mp st found unmet h =
      refresh_mount-Entered uuid op mp st found unmet h

  pub rescan_matched-Entered :
      (m : Match) (mp : MountPoint) (st : Rescan) {st' : Rescan}
      → Unmet m st.seen_old
      → rescan_matched new_v4 old m mp st ≡ going st'
      → Entered mp st st'
  unfolding rescan_matched
  rescan_matched-Entered (by_id uuid) mp st unmet h =
      update_by_id-Entered uuid (HashMap.get uuid old) mp st refl unmet h
  rescan_matched-Entered (by_path uuid) mp st unmet h =
      update_by_path-Entered uuid (HashMap.get uuid old) mp st refl unmet h
  rescan_matched-Entered unmatched mp st unmet h =
      let (_, new_map, _, drawn) = add_mount_lem new_v4 mp st h in
      record {
        key = new_v4 st.drawn;
        new_map = new_map;
        known = inr (refl, drawn);
        draws = omega arith;
      }

  -- What every state of the rescan keeps, where draws never repeat.
  pub record IsSound (st : Rescan) : Type 0 where
    pub is_map : IsMap st.new_map
    pub have : HaveIds st.new_map
    pub fresh : (n : ℕ) → st.drawn ≤ n → HashMap.get (new_v4 n) st.new_map ≡ none
    pub fresh_old : (n : ℕ) → st.drawn ≤ n → HashMap.get (new_v4 n) old ≡ none

  module _ (distinct : (n m : ℕ) → new_v4 n ≡ new_v4 m → n ≡ m) where
    Known-ne :
        (key : Uuid) (n : ℕ) (st st' : Rescan)
        → Known key st st'
        → st'.drawn ≤ n
        → HashMap.get (new_v4 n) old ≡ none
        → key ≢ new_v4 n
    Known-ne key n st st' (inl (op, found, _)) k fresh e = ground arith
    Known-ne key n st st' (inr (drawn, next)) k fresh e =
        absurd (omega (arith, distinct st.drawn n (ground arith)))

    pub Entered-IsSound :
        (mp : MountPoint) (i : ℕ) (st st' : Rescan)
        → mp.id ≡ some i
        → Entered mp st st'
        → IsSound st
        → IsSound st'
    Entered-IsSound mp i st st' e en s = record {
      is_map = subst IsMap (sym en.new_map) (insert-IsMap en.key mp st.new_map s.is_map);
      have = subst HaveIds (sym en.new_map) (insert-HaveIds en.key mp i st.new_map e s.have);
      fresh = λ n k. rw en.new_map (
          ground (
            arith,
            get-insert en.key (new_v4 n) mp st.new_map,
            s.fresh n (omega (arith, en.draws)),
            Known-ne en.key n st st' en.known k (s.fresh_old n (omega (arith, en.draws))),
          ));
      fresh_old = λ n k. s.fresh_old n (omega (arith, en.draws));
    }

  -- The key of a step is new, so the mount point stands at the end of the new table.
  pub Entered-values :
      (mp : MountPoint) (st st' : Rescan)
      → Entered mp st st'
      → IsSound st
      → ((u : Uuid) (op : MountPoint)
          → HashMap.get u old ≡ some op
          → HashSet.contains u st.seen_old ≡ false
          → HashMap.get u st.new_map ≡ none)
      → HashMap.values st'.new_map ≡ HashMap.values st.new_map ++ mp ∷ []
  Entered-values mp st st' en s owned =
      ap HashMap.values en.new_map
      ∙ values-insert-absent en.key mp st.new_map (absent en.key en.known)
    where
      absent : (key : Uuid) → Known key st st' → HashMap.get key st.new_map ≡ none
      absent key (inl (op, found, unmet)) = owned key op found unmet
      absent key (inr (drawn, _)) = rw drawn (s.fresh st.drawn (omega arith))
