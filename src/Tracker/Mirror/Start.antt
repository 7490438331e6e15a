-- ===== src/Tracker/Mirror/Start.antt =====
-- At the start of src/mount_monitor.rs's loop the receiver has the monitor's first table.
use mathlib.Core.List.{append_assoc, append-nil}
use net_device_mapping.Channel.{Sender, send}
use net_device_mapping.HashMap
use net_device_mapping.HashMap.{IsMap}
use net_device_mapping.HashMap.Laws.{get-insert, insert-IsMap, values-insert-absent}
use net_device_mapping.MountMonitor.{MountPoint, Uuid, MountChange, added}
use net_device_mapping.MountMonitor.Ids.{DistinctIds, HaveIds}
use net_device_mapping.MountMonitor.Rescan.{Mounts, assign_uuids, send_mountinfo}
use net_device_mapping.MountMonitor.Runs.{Listening}
use net_device_mapping.Prelude.{
  ℕ, ◌+◌, ◌≤◌, ◌≡◌, refl, sym, ap, ◌∙◌, true, List, [], ◌∷◌, ◌++◌, map, Option, none, some, arith,
  nat_key, length, subst,
}
use net_device_mapping.Tracker.Mirror.{replay}
use net_device_mapping.Tracker.MountState.{MountState, on_event}

HaveIds-insert :
    (u : Uuid) (mp : MountPoint) (i : ℕ) (mounts : Mounts)
    → mp.id ≡ some i
    → HaveIds mounts
    → HaveIds (HashMap.insert u mp mounts)
HaveIds-insert u mp i mounts e have v mq found = elim (nat_key.dec u v) [
  | yes same ↦ (i, ground (arith, get-insert u v mp mounts))
  | no other ↦ have v mq (ground (arith, get-insert u v mp mounts))
]

module _ (new_v4 : ℕ → Uuid) (distinct : (n m : ℕ) → new_v4 n ≡ new_v4 m → n ≡ m) where
  -- A table in which the next UUIDs are fresh.
  pub record IsDrawn (drawn : ℕ) (mounts : Mounts) : Type 0 where
    pub is_map : IsMap mounts
    pub have : HaveIds mounts
    pub fresh : (n : ℕ) → drawn ≤ n → HashMap.get (new_v4 n) mounts ≡ none

  pub empty-IsDrawn : IsDrawn 0 []
  unfolding HashMap.get
  empty-IsDrawn = record { is_map = tt; have = λ u mp found. cc; fresh = λ n le. refl }

  insert-IsDrawn :
      (drawn : ℕ) (mp : MountPoint) (i : ℕ) (mounts : Mounts)
      → mp.id ≡ some i
      → IsDrawn drawn mounts
      → IsDrawn (drawn + 1) (HashMap.insert (new_v4 drawn) mp mounts)
  insert-IsDrawn drawn mp i mounts e d = record {
    is_map = insert-IsMap (new_v4 drawn) mp mounts d.is_map;
    have = HaveIds-insert (new_v4 drawn) mp i mounts e d.have;
    fresh = λ n le.
        ground (arith, get-insert (new_v4 drawn) (new_v4 n) mp mounts, d.fresh n, distinct drawn n);
  }

  pub assign_uuids-IsDrawn :
      (mps : List MountPoint) (drawn : ℕ) (mounts : Mounts)
      → DistinctIds mps
      → IsDrawn drawn mounts
      → IsDrawn (drawn + length mps) (assign_uuids new_v4 drawn mps mounts)
  unfolding assign_uuids
  assign_uuids-IsDrawn [] drawn mounts ids d = subst (λ n. IsDrawn n mounts) (omega arith) d
  assign_uuids-IsDrawn (mp ∷ mps) drawn mounts ((i, e, absent), ids) d =
      subst (λ n. IsDrawn n (assign_uuids new_v4 drawn (mp ∷ mps) mounts)) (omega arith)
        (assign_uuids-IsDrawn mps (drawn + 1) (HashMap.insert (new_v4 drawn) mp mounts) ids
          (insert-IsDrawn drawn mp i mounts e d))

  -- The table holds the mount points in their order.
  pub values-assign_uuids :
      (mps : List MountPoint) (drawn : ℕ) (mounts : Mounts)
      → DistinctIds mps
      → IsDrawn drawn mounts
      → HashMap.values (assign_uuids new_v4 drawn mps mounts) ≡ HashMap.values mounts ++ mps
  unfolding assign_uuids
  values-assign_uuids [] drawn mounts ids d = sym (append-nil (HashMap.values mounts))
  values-assign_uuids (mp ∷ mps) drawn mounts ((i, e, absent), ids) d =
      values-assign_uuids mps (drawn + 1) (HashMap.insert (new_v4 drawn) mp mounts) ids
        (insert-IsDrawn drawn mp i mounts e d)
      ∙ ap (λ l. l ++ mps)
          (values-insert-absent (new_v4 drawn) mp mounts (d.fresh drawn (omega arith)))
      ∙ append_assoc (HashMap.values mounts) (mp ∷ []) mps

abbrev pub added_all : Mounts → List MountChange
added_all = map (λ e. added e.0 e.1)

pub send_mountinfo-sent :
    (mounts : Mounts) (s : Sender MountChange)
    → Listening s
    → send_mountinfo mounts s ≡ (record s { sent = s.sent ++ added_all mounts }, true)
unfolding send_mountinfo send
send_mountinfo-sent [] s h = rw (append-nil s.sent) refl
send_mountinfo-sent ((u, mp) ∷ mounts) s h =
    rw
      (
        h (length s.sent),
        send_mountinfo-sent mounts (record s { sent = s.sent ++ added u mp ∷ [] }) h,
        append_assoc s.sent (added u mp ∷ []) (added_all mounts),
      )
      refl

abbrev or_else : Option MountPoint → Option MountPoint → Option MountPoint
or_else (some mp) before = some mp
or_else none before = before

pub replay-added_all :
    (mounts : Mounts) (u : Uuid) (known : MountState)
    → IsMap mounts
    → HashMap.get u (replay (added_all mounts) known)
      ≡ or_else (HashMap.get u mounts) (HashMap.get u known)
unfolding replay on_event HashMap.get
replay-added_all [] u known m = refl
replay-added_all ((v, mp) ∷ mounts) u known (fresh, m) =
    ground (arith, replay-added_all mounts u (HashMap.insert v mp known) m, get-insert v u mp known)
