-- ===== src/Tracker/Mirror/Streams.antt =====
-- From the mount monitor's channel over the merge of the tracker's four streams to its MountState.
use net_device_mapping.MountMonitor.{Uuid}
use net_device_mapping.MountMonitor.Rescan.{Monitor}
use net_device_mapping.Prelude.{ℕ, ◌≡◌, refl, ap, ◌∙◌, List, [], ◌∷◌, map, filter, filter_map, ok}
use net_device_mapping.Tracker.Events.{
  Event, netns_id_event, mount_change, syscall, state_requested, is_relevant, Tracker, Wake, closed,
  event, no_event, track,
}
use net_device_mapping.Tracker.Mirror.Filtered.{KeepNsfs, HoldsNsfs}
use net_device_mapping.Tracker.Mirror.Merged.{changes, IsOpen, AlwaysListening, track-HoldsNsfs}
use net_device_mapping.Tracker.Mirror.Sync.{IsSynced}
use net_device_mapping.Tracker.Streams.{BroadcastStream, received, Sources, IsMerged}
use net_device_mapping.Tracker.Streams.Delivery.{as_mount_change, merged-delivery}

-- The events among what wakes the tracker.
abbrev pub events : List Wake → List Event
events [] = []
events (event h e ∷ wakes) = e ∷ events wakes
events (_ ∷ wakes) = events wakes

-- A receiver that never lagged behind has yielded every message.
abbrev pub NeverLagged {ℓ} : {A : Type ℓ} → BroadcastStream A → List A → Type ℓ
NeverLagged items sent = items ≡ map ok sent

changes_lem : (wakes : List Wake) → changes wakes ≡ filter_map as_mount_change (events wakes)
unfolding filter_map
changes_lem [] = refl
changes_lem (closed ∷ wakes) = changes_lem wakes
changes_lem (no_event ∷ wakes) = changes_lem wakes
changes_lem (event h (netns_id_event x) ∷ wakes) = changes_lem wakes
changes_lem (event h (mount_change x) ∷ wakes) = ap (λ l. x ∷ l) (changes_lem wakes)
changes_lem (event h (syscall x) ∷ wakes) = changes_lem wakes
changes_lem (event h state_requested ∷ wakes) = changes_lem wakes

received-ok {ℓ} : {A : Type ℓ} (sent : List A) → received (map ok sent) ≡ sent
unfolding received filter_map
received-ok [] = refl
received-ok (x ∷ sent) = ap (λ l. x ∷ l) (received-ok sent)

-- The tracker's copy of the mount table holds exactly the mounts of nsfs of the monitor's table, under their
-- UUIDs, when it has handled the events of its four streams, merged in any way, up to the monitor's last
-- change. Its receiver of the monitor's changes never lagged behind, it started with an empty copy, its
-- receivers of states were there all the time, it met no error, and no mount of nsfs was replaced by one of
-- another file system under its UUID.
pub streams-HoldsNsfs :
    (new_v4 : ℕ → Uuid) (s : Monitor) (sources : Sources) (wakes : List Wake) (t t' : Tracker)
    → IsSynced new_v4 s
    → NeverLagged sources.mounts s.sender.sent
    → IsMerged sources (events wakes)
    → KeepNsfs s.sender.sent []
    → t.mount_state ≡ []
    → IsOpen wakes
    → AlwaysListening t.responses
    → track wakes t ≡ ok t'
    → HoldsNsfs t'.mount_state s.mountinfo
streams-HoldsNsfs new_v4 s sources wakes t t' y current merged =
    track-HoldsNsfs new_v4 s wakes t t' y (
      changes_lem wakes
      ∙ (merged-delivery sources (events wakes) merged).1
      ∙ ap (λ items. filter is_relevant (received items)) current
      ∙ ap (filter is_relevant) (received-ok s.sender.sent))
