-- ===== src/Tracker/Streams/Delivery.antt =====
-- What the merge of the tracker's streams does with each source.
use net_device_mapping.MountMonitor.{MountChange}
use net_device_mapping.NsidMonitor.{NetnsIdEvent}
use net_device_mapping.Prelude.{
  ◌≡◌, refl, ap, ◌∙◌, List, [], ◌∷◌, map, filter, filter_map, Option, none, some, arith,
  Option-cases, inl, inr,
}
use net_device_mapping.SyscallMonitor.{EbpfEvent}
use net_device_mapping.Tracker.Events.{
  Event, netns_id_event, mount_change, syscall, state_requested, is_relevant,
}
use net_device_mapping.Tracker.Streams.{
  BroadcastStream, received, state_requests, nsid_events, mount_events, syscalls, Merge, done, left,
  right, Sources, IsMerged,
}

-- The events of one kind, by what they carry.
abbrev as_netns_id : Event → Option NetnsIdEvent
as_netns_id (netns_id_event e) = some e
as_netns_id _ = none

abbrev pub as_mount_change : Event → Option MountChange
as_mount_change (mount_change e) = some e
as_mount_change _ = none

abbrev as_syscall : Event → Option EbpfEvent
as_syscall (syscall e) = some e
as_syscall _ = none

abbrev pub as_request : Event → Option (Unit {0})
as_request state_requested = some tt
as_request _ = none

module _ {ℓ κ} {A : Type ℓ} {B : Type κ} (f : A → Option B) where
  skipped : (x : A) (xs : List A) → f x ≡ none → filter_map f (x ∷ xs) ≡ filter_map f xs
  unfolding filter_map
  skipped x xs e = ground (arith, e)

  kept : (x : A) (xs : List A) {b : B} → f x ≡ some b → filter_map f (x ∷ xs) ≡ b ∷ filter_map f xs
  unfolding filter_map
  kept x xs e = ground (arith, e)

  -- Merging and picking a kind commute.
  Merge-filter_map :
      {xs ys zs : List A}
      → Merge xs ys zs
      → Merge (filter_map f xs) (filter_map f ys) (filter_map f zs)
  Merge-filter_map done = unfold filter_map in done
  Merge-filter_map (left {x} {xs} {ys} {zs} m) = elim (Option-cases (f x)) [
    | inl e ↦ rw (skipped x xs e, skipped x zs e) (Merge-filter_map m)
    | inr (b, e) ↦ rw (kept x xs e, kept x zs e) (left (Merge-filter_map m))
  ]
  Merge-filter_map (right {y} {xs} {ys} {zs} m) = elim (Option-cases (f y)) [
    | inl e ↦ rw (skipped y ys e, skipped y zs e) (Merge-filter_map m)
    | inr (b, e) ↦ rw (kept y ys e, kept y zs e) (right (Merge-filter_map m))
  ]

  filter_map-none :
      {C : Type κ} (g : C → A) (xs : List C)
      → ((x : C) → f (g x) ≡ none)
      → filter_map f (map g xs) ≡ []
  unfolding filter_map
  filter_map-none g [] e = refl
  filter_map-none g (x ∷ xs) e = ground (arith, e x, filter_map-none g xs e)

  filter_map-all :
      (g : B → A) (xs : List B) → ((x : B) → f (g x) ≡ some x) → filter_map f (map g xs) ≡ xs
  unfolding filter_map
  filter_map-all g [] e = refl
  filter_map-all g (x ∷ xs) e = ground (arith, e x, filter_map-all g xs e)

module _ {ℓ} {A : Type ℓ} where
  Merge-nil : {xs ys zs : List A} → Merge xs ys zs → ys ≡ [] → zs ≡ xs
  Merge-nil done e = refl
  Merge-nil (left {x} m) e = ap (λ l. x ∷ l) (Merge-nil m e)
  Merge-nil (right m) e = cc

  nil-Merge : {xs ys zs : List A} → Merge xs ys zs → xs ≡ [] → zs ≡ ys
  nil-Merge done e = refl
  nil-Merge (left m) e = cc
  nil-Merge (right {y} m) e = ap (λ l. y ∷ l) (nil-Merge m e)

module _ {ℓ} {A B : Type ℓ} (f : A → Option B) where
  Merge-left :
      {xs ys zs : List A}
      → Merge xs ys zs
      → filter_map f ys ≡ []
      → filter_map f zs ≡ filter_map f xs
  Merge-left m e = Merge-nil (Merge-filter_map f m) e

  Merge-right :
      {xs ys zs : List A}
      → Merge xs ys zs
      → filter_map f xs ≡ []
      → filter_map f zs ≡ filter_map f ys
  Merge-right m e = nil-Merge (Merge-filter_map f m) e

  Merge-none :
      {xs ys zs : List A}
      → Merge xs ys zs
      → filter_map f xs ≡ []
      → filter_map f ys ≡ []
      → filter_map f zs ≡ []
  Merge-none m e g = Merge-left m g ∙ e

-- A stream has no event of another kind.
module _ {B : Type 0} (f : Event → Option B) where
  no_ids :
      (items : BroadcastStream NetnsIdEvent)
      → ((x : NetnsIdEvent) → f (netns_id_event x) ≡ none)
      → filter_map f (nsid_events items) ≡ []
  unfolding nsid_events
  no_ids items e = filter_map-none f netns_id_event (received items) e

  no_mounts :
      (items : BroadcastStream MountChange)
      → ((x : MountChange) → f (mount_change x) ≡ none)
      → filter_map f (mount_events items) ≡ []
  unfolding mount_events
  no_mounts items e = filter_map-none f mount_change (filter is_relevant (received items)) e

  no_calls :
      (items : BroadcastStream EbpfEvent)
      → ((x : EbpfEvent) → f (syscall x) ≡ none)
      → filter_map f (syscalls items) ≡ []
  unfolding syscalls
  no_calls items e = filter_map-none f syscall (received items) e

  no_requests :
      (items : BroadcastStream (Unit {0}))
      → f state_requested ≡ none
      → filter_map f (state_requests items) ≡ []
  unfolding state_requests
  no_requests items e = filter_map-none f (λ _. state_requested) (received items) (λ _. e)

-- A stream has the messages that were received, or those that pass the filter.
all_ids :
    (items : BroadcastStream NetnsIdEvent)
    → filter_map as_netns_id (nsid_events items) ≡ received items
unfolding nsid_events
all_ids items = filter_map-all as_netns_id netns_id_event (received items) λ x. refl

all_mounts :
    (items : BroadcastStream MountChange)
    → filter_map as_mount_change (mount_events items) ≡ filter is_relevant (received items)
unfolding mount_events
all_mounts items =
    filter_map-all as_mount_change mount_change (filter is_relevant (received items)) λ x. refl

all_calls :
    (items : BroadcastStream EbpfEvent) → filter_map as_syscall (syscalls items) ≡ received items
unfolding syscalls
all_calls items = filter_map-all as_syscall syscall (received items) λ x. refl

all_requests :
    (items : BroadcastStream (Unit {0}))
    → filter_map as_request (state_requests items) ≡ received items
unfolding state_requests
all_requests items = filter_map-all as_request (λ _. state_requested) (received items) λ x. refl

-- Each source's messages reach the tracker exactly once and in their order, in whatever way the four
-- streams are merged: all that were received of ids, of system calls and of requests, and of the changes
-- of mounts those that pass the filter for nsfs.
pub merged-delivery :
    (sources : Sources) (events : List Event)
    → IsMerged sources events
    → (filter_map as_netns_id events ≡ received sources.nsids)
      × (filter_map as_mount_change events ≡ filter is_relevant (received sources.mounts))
      × (filter_map as_syscall events ≡ received sources.calls)
      × (filter_map as_request events ≡ received sources.requests)
merged-delivery sources events m = (
  Merge-left as_netns_id m.with_requests (no_requests as_netns_id sources.requests refl)
      ∙ Merge-left as_netns_id m.with_syscalls (no_calls as_netns_id sources.calls λ x. refl)
      ∙ Merge-left as_netns_id m.with_mounts (no_mounts as_netns_id sources.mounts λ x. refl)
      ∙ all_ids sources.nsids,
  Merge-left as_mount_change m.with_requests (no_requests as_mount_change sources.requests refl)
      ∙ Merge-left as_mount_change m.with_syscalls
          (no_calls as_mount_change sources.calls λ x. refl)
      ∙ Merge-right as_mount_change m.with_mounts (no_ids as_mount_change sources.nsids λ x. refl)
      ∙ all_mounts sources.mounts,
  Merge-left as_syscall m.with_requests (no_requests as_syscall sources.requests refl)
      ∙ Merge-right as_syscall m.with_syscalls (
          Merge-none as_syscall m.with_mounts (no_ids as_syscall sources.nsids λ x. refl)
            (no_mounts as_syscall sources.mounts λ x. refl))
      ∙ all_calls sources.calls,
  Merge-right as_request m.with_requests (
        Merge-none as_request m.with_syscalls
          (Merge-none as_request m.with_mounts (no_ids as_request sources.nsids λ x. refl)
            (no_mounts as_request sources.mounts λ x. refl))
          (no_calls as_request sources.calls λ x. refl))
      ∙ all_requests sources.requests,
)
