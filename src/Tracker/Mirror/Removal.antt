-- ===== src/Tracker/Mirror/Removal.antt =====
-- The removals at the end of a rescan: they take what the rescan has not met, and nothing else.
use net_device_mapping.Channel.{Sender}
use net_device_mapping.HashMap
use net_device_mapping.HashMap.Laws.{get-remove}
use net_device_mapping.HashSet
use net_device_mapping.HashSet.{HashSet}
use net_device_mapping.MountMonitor.{Uuid, MountPoint, MountChange, removed}
use net_device_mapping.MountMonitor.Effects.{going-injective, >>>-eq-going, sent-send_event}
use net_device_mapping.MountMonitor.Rescan.{Mounts, going, remove_unseen, send_removed}
use net_device_mapping.Prelude.{
  ◌≡◌, [], ◌∷◌, ◌++◌, Option, none, inl, inr, arith, nat_key, key_eq, is_some, Bool-cases, not,
  ◌&&◌, if◌then◌else◌, ap, sym,
}
use net_device_mapping.Tracker.Mirror.{replay, replay-append_one}
use net_device_mapping.Tracker.MountState.{on_event}

abbrev received : Sender MountChange → Uuid → Option MountPoint
received sender u = HashMap.get u (replay sender.sent [])

module _ (seen : HashSet Uuid) (u : Uuid) where
  remove_unseen_lem :
      (uuid : Uuid) (sender : Sender MountChange) {sender' : Sender MountChange}
      → remove_unseen uuid seen sender ≡ going sender'
      → received sender' u
        ≡ (if key_eq uuid u && not (HashSet.contains u seen) then none else received sender u)
  unfolding remove_unseen on_event
  remove_unseen_lem uuid sender {sender'} h = elim (Bool-cases (HashSet.contains uuid seen)) [
    | inl met ↦ ground arith
    | inr unmet ↦
        let sent : sender'.sent ≡ sender.sent ++ removed uuid ∷ [] =
          sent-send_event (removed uuid) sender (rw unmet at h) in
        rw (sent, replay-append_one) (ground (arith, get-remove uuid u (replay sender.sent [])))
  ]

  pub send_removed_lem :
      (mounts : Mounts) (sender : Sender MountChange) {sender' : Sender MountChange}
      → send_removed mounts seen sender ≡ going sender'
      → received sender' u ≡ (
          if is_some (HashMap.get u mounts) && not (HashSet.contains u seen)
          then none
          else received sender u)
  unfolding send_removed HashMap.get
  send_removed_lem [] sender h = ap (λ s. received s u) (sym (going-injective h))
  send_removed_lem ((uuid, mp) ∷ mounts) sender h =
      let (mid, first, rest) = >>>-eq-going (remove_unseen uuid seen sender) _ h in
      ground (arith, remove_unseen_lem uuid sender first, send_removed_lem mounts mid rest)
