-- ===== src/Tracker/Mirror/Merged.antt =====
-- From the mount monitor to the tracker: the filtered changes arrive merged with the tracker's other
-- events, in any interleaving.
use net_device_mapping.Channel.{Sender, send}
use net_device_mapping.HashMap
use net_device_mapping.HashMap.Iterate.{keep_if}
use net_device_mapping.MountMonitor.{MountChange, Uuid}
use net_device_mapping.MountMonitor.Rescan.{Monitor}
use net_device_mapping.Prelude.{
  ℕ, ◌≡◌, refl, sym, ◌∙◌, ap, ap₂, subst, true, not, List, [], ◌∷◌, ◌++◌, ok, >>=-eq-ok,
  ok-injective, nat_key, filter, if◌then◌else◌, length,
}
use net_device_mapping.Tracker.Events.{
  is_relevant, netns_id_event, mount_change, syscall, state_requested, Tracker, process_event, Wake,
  closed, event, no_event, track, on_netns_id,
}
use net_device_mapping.Tracker.Mirror.{replay}
use net_device_mapping.Tracker.Mirror.Filtered.{KeepNsfs, HoldsNsfs, is_nsfs, filtered-HoldsNsfs}
use net_device_mapping.Tracker.Mirror.Sync.{IsSynced}
use net_device_mapping.Tracker.State.{current_state}

-- The changes of mounts among what wakes the tracker.
abbrev pub changes : List Wake → List MountChange
changes [] = []
changes (event h (mount_change change) ∷ wakes) = change ∷ changes wakes
changes (_ ∷ wakes) = changes wakes

-- The receivers of states are there all the time.
abbrev pub IsOpen : List Wake → Type 0
IsOpen [] = Unit
IsOpen (closed ∷ wakes) = ⊥
IsOpen (_ ∷ wakes) = IsOpen wakes

abbrev pub AlwaysListening {ℓ} : {A : Type ℓ} → Sender A → Type 0
AlwaysListening s = (n : ℕ) → s.listening n ≡ true

pub send-listening {ℓ} :
    {A : Type ℓ} (a : A) (s : Sender A)
    → s.listening (length s.sent) ≡ true
    → send a s ≡ (record s { sent = s.sent ++ a ∷ [] }, true)
unfolding send
send-listening a s l = rw l refl

track-replay :
    (wakes : List Wake) (t : Tracker) {t' : Tracker}
    → IsOpen wakes
    → AlwaysListening t.responses
    → track wakes t ≡ ok t'
    → t'.mount_state ≡ replay (changes wakes) t.mount_state
unfolding track process_event replay
track-replay [] t o l e = ap (λ t. t.mount_state) (sym (ok-injective e))
track-replay (closed ∷ wakes) t o l e = absurd o
track-replay (no_event ∷ wakes) t o l e = track-replay wakes t o l e
track-replay (event h (netns_id_event x) ∷ wakes) t {t'} o l e =
    let ((t₁, quits), handled, rest) = >>=-eq-ok (process_event h (netns_id_event x) t) _ e in
    let (s, asked, same) = >>=-eq-ok (on_netns_id h x t.state) _ handled in
    track-replay wakes (record t { state = s }) o l
      (subst (λ r. (if r.1 then ok r.0 else track wakes r.0) ≡ ok t') (sym (ok-injective same))
        rest)
track-replay (event h (mount_change x) ∷ wakes) t o l e = track-replay wakes _ o l e
track-replay (event h (syscall x) ∷ wakes) t o l e = track-replay wakes _ o l e
track-replay (event h state_requested ∷ wakes) t {t'} o l e =
    let answer = current_state t.state in
    track-replay wakes
      (record t { responses = record t.responses { sent = t.responses.sent ++ answer ∷ [] } }) o l
      (subst
        (λ r.
          (if not r.1
            then ok (record t { responses = r.0 })
            else track wakes (record t { responses = r.0 }))
          ≡ ok t')
        (send-listening answer t.responses (l (length t.responses.sent))) e)

-- The tracker's copy of the mount table holds exactly the mounts of nsfs of the monitor's table, under their
-- UUIDs, when it has handled the monitor's changes up to then, filtered as its stream filters them and in any
-- interleaving with its other events. It started with an empty copy, its receivers were there all the
-- time, it met no error, and no mount of nsfs was replaced by one of another file system under its UUID.
pub track-HoldsNsfs :
    (new_v4 : ℕ → Uuid) (s : Monitor) (wakes : List Wake) (t t' : Tracker)
    → IsSynced new_v4 s
    → changes wakes ≡ filter is_relevant s.sender.sent
    → KeepNsfs s.sender.sent []
    → t.mount_state ≡ []
    → IsOpen wakes
    → AlwaysListening t.responses
    → track wakes t ≡ ok t'
    → HoldsNsfs t'.mount_state s.mountinfo
track-HoldsNsfs new_v4 s wakes t t' y merged k empty o l e u =
    ap (HashMap.get u) (track-replay wakes t o l e ∙ ap₂ replay merged empty)
    ∙ filtered-HoldsNsfs s.sender.sent [] [] k (λ v. unfold HashMap.get in refl) u
    ∙ ap (keep_if is_nsfs) (y.mirrors u)
