-- ===== src/Tracker/Mirror/Filtered.antt =====
-- The stream that the tracker listens to leaves out the mounts of other file systems than nsfs, and is
-- merged with the other events: what the tracker's MountState then holds.
use net_device_mapping.HashMap
use net_device_mapping.HashMap.{HashMap}
use net_device_mapping.HashMap.Iterate.{keep_if}
use net_device_mapping.HashMap.Laws.{get-insert, get-remove}
use net_device_mapping.MountMonitor
use net_device_mapping.MountMonitor.{
  MountPoint, MountChange, Uuid, fstype_key, added, removed, modified,
}
use net_device_mapping.Path.{codes}
use net_device_mapping.Prelude.{
  ◌≡◌, refl, sym, ◌∙◌, ap, ◌⊎◌, inl, inr, Bool, true, false, List, [], ◌∷◌, none, arith, nat_key,
  key_eq, filter, if◌then◌else◌, Bool-cases,
}
use net_device_mapping.Tracker.Events.{is_relevant}
use net_device_mapping.Tracker.Mirror.{replay}
use net_device_mapping.Tracker.MountState.{MountState, on_event}

abbrev pub is_nsfs : MountPoint → Bool
is_nsfs mount_point = key_eq mount_point.fstype (MountMonitor.other (codes "nsfs"))

-- No mount of nsfs is replaced by one of another file system under its UUID.
abbrev pub Replaces : Uuid → MountPoint → MountState → Type 0
Replaces uuid mount_point mounts =
    (is_nsfs mount_point ≡ true) ⊎ (keep_if is_nsfs (HashMap.get uuid mounts) ≡ none)

abbrev pub KeepNsfs : List MountChange → MountState → Type 0
KeepNsfs [] mounts = Unit
KeepNsfs (added uuid mp ∷ events) mounts =
    Replaces uuid mp mounts × KeepNsfs events (on_event (added uuid mp) mounts)
KeepNsfs (modified uuid mp ∷ events) mounts =
    Replaces uuid mp mounts × KeepNsfs events (on_event (modified uuid mp) mounts)
KeepNsfs (removed uuid ∷ events) mounts = KeepNsfs events (on_event (removed uuid) mounts)

-- The first map holds the mounts of nsfs of the second.
abbrev pub HoldsNsfs : MountState → MountState → Type 0
HoldsNsfs tracked mounts =
    (uuid : Uuid) → HashMap.get uuid tracked ≡ keep_if is_nsfs (HashMap.get uuid mounts)

-- One change of both maps, or of the second only.
module _ (p : MountPoint → Bool) where
  abbrev Holds : MountState → MountState → Type 0
  Holds tracked mounts =
      (uuid : Uuid) → HashMap.get uuid tracked ≡ keep_if p (HashMap.get uuid mounts)

  insert-Holds :
      (uuid : Uuid) (mp : MountPoint) (tracked mounts : MountState)
      → p mp ≡ true
      → Holds tracked mounts
      → Holds (HashMap.insert uuid mp tracked) (HashMap.insert uuid mp mounts)
  insert-Holds uuid mp tracked mounts n h u =
      ground (arith, get-insert uuid u mp tracked, get-insert uuid u mp mounts, h u)

  skip-Holds :
      (uuid : Uuid) (mp : MountPoint) (tracked mounts : MountState)
      → p mp ≡ false
      → keep_if p (HashMap.get uuid mounts) ≡ none
      → Holds tracked mounts
      → Holds tracked (HashMap.insert uuid mp mounts)
  skip-Holds uuid mp tracked mounts n r h u = elim (nat_key.dec uuid u) [
    | yes same ↦ ground (arith, get-insert uuid u mp mounts, h u)
    | no other ↦ ground (arith, get-insert uuid u mp mounts, h u)
  ]

  remove-Holds :
      (uuid : Uuid) (tracked mounts : MountState)
      → Holds tracked mounts
      → Holds (HashMap.remove uuid tracked) (HashMap.remove uuid mounts)
  remove-Holds uuid tracked mounts h u =
      ground (arith, get-remove uuid u tracked, get-remove uuid u mounts, h u)

true≢false : true ≡ false → ⊥
true≢false e = cc

not_nsfs :
    (uuid : Uuid) (mp : MountPoint) (mounts : MountState)
    → Replaces uuid mp mounts
    → is_nsfs mp ≡ false
    → keep_if is_nsfs (HashMap.get uuid mounts) ≡ none
not_nsfs uuid mp mounts (inl yes_nsfs) n = absurd (true≢false (sym yes_nsfs ∙ n))
not_nsfs uuid mp mounts (inr gone) n = gone

put-HoldsNsfs :
    (change : MountChange) (uuid : Uuid) (mp : MountPoint) (tracked mounts : MountState)
    → on_event change ≡ HashMap.insert uuid mp
    → is_relevant change ≡ is_nsfs mp
    → Replaces uuid mp mounts
    → HoldsNsfs tracked mounts
    → HoldsNsfs
        (if is_relevant change then on_event change tracked else tracked)
        (on_event change mounts)
put-HoldsNsfs change uuid mp tracked mounts e q r h = elim (Bool-cases (is_nsfs mp)) [
  | inl n ↦ rw (q, n, e) (insert-Holds is_nsfs uuid mp tracked mounts n h)
  | inr n ↦
      rw (q, n, e) (skip-Holds is_nsfs uuid mp tracked mounts n (not_nsfs uuid mp mounts r n) h)
]

change-HoldsNsfs :
    (change : MountChange) (events : List MountChange) (tracked mounts : MountState)
    → KeepNsfs (change ∷ events) mounts
    → HoldsNsfs tracked mounts
    → HoldsNsfs
        (if is_relevant change then on_event change tracked else tracked)
        (on_event change mounts)
      × KeepNsfs events (on_event change mounts)
change-HoldsNsfs (added uuid mp) events tracked mounts (r, k) h = (
  unfold on_event is_relevant in put-HoldsNsfs (added uuid mp) uuid mp tracked mounts refl refl r h,
  k,
)
change-HoldsNsfs (modified uuid mp) events tracked mounts (r, k) h = (
  unfold on_event is_relevant in
      put-HoldsNsfs (modified uuid mp) uuid mp tracked mounts refl refl r h,
  k,
)
change-HoldsNsfs (removed uuid) events tracked mounts k h =
    (unfold on_event is_relevant in remove-Holds is_nsfs uuid tracked mounts h, k)

replay-filter :
    (change : MountChange) (events : List MountChange) (tracked : MountState)
    → replay (filter is_relevant (change ∷ events)) tracked
      ≡ replay
          (filter is_relevant events)
          (if is_relevant change then on_event change tracked else tracked)
unfolding replay
replay-filter change events tracked = elim (Bool-cases (is_relevant change)) [
  | inl e ↦ rw e refl
  | inr e ↦ rw e refl
]

pub filtered-HoldsNsfs :
    (events : List MountChange) (tracked mounts : MountState)
    → KeepNsfs events mounts
    → HoldsNsfs tracked mounts
    → HoldsNsfs (replay (filter is_relevant events) tracked) (replay events mounts)
unfolding replay
filtered-HoldsNsfs [] tracked mounts k h = h
filtered-HoldsNsfs (change ∷ events) tracked mounts k h =
    let (h', k') = change-HoldsNsfs change events tracked mounts k h in
    λ u.
      ap (HashMap.get u) (replay-filter change events tracked)
      ∙ filtered-HoldsNsfs events (if is_relevant change then on_event change tracked else tracked)
          (on_event change mounts) k' h' u
