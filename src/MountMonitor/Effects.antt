-- ===== src/MountMonitor/Effects.antt =====
-- What one step of a rescan does to the state when the channel stays open.
use net_device_mapping.Channel.{Sender}
use net_device_mapping.HashMap
use net_device_mapping.HashSet
use net_device_mapping.MountMonitor.{
  MountPoint, Uuid, MountChange, added, removed, modified, mount_point_key,
}
use net_device_mapping.MountMonitor.Rescan.{
  Flow, going, closed, panicked, ◌>>>◌, send_event, Rescan, move_mount, refresh_mount, add_mount,
}
use net_device_mapping.Prelude.{
  ℕ, ◌+◌, ◌≡◌, refl, [], ◌∷◌, ◌++◌, arith, nat_key, key_eq, if◌then◌else◌,
}

pub >>>-eq-going :
    {A B : Type 0} (m : Flow A) (f : A → Flow B) {b : B}
    → (m >>> f) ≡ going b
    → (a : A) × (m ≡ going a) × (f a ≡ going b)
>>>-eq-going (going a) f h = (a, refl, h)
>>>-eq-going (closed s) f h = cc
>>>-eq-going panicked f h = cc

pub going-injective : {A : Type 0} {a b : A} → going a ≡ going b → a ≡ b
going-injective h = cc

pub sent-send_event :
    (c : MountChange) (s : Sender MountChange) {s' : Sender MountChange}
    → send_event c s ≡ going s'
    → s'.sent ≡ s.sent ++ c ∷ []
unfolding send_event
sent-send_event c s h = ground arith

module _ (new_v4 : ℕ → Uuid) where
  pub move_mount_lem :
      (uuid : Uuid) (mp : MountPoint) (st : Rescan) {st' : Rescan}
      → move_mount new_v4 uuid mp st ≡ going st'
      → (st'.sender.sent ≡ (st.sender.sent ++ removed uuid ∷ []) ++ added (new_v4 st.drawn) mp ∷ [])
        × (st'.new_map ≡ HashMap.insert (new_v4 st.drawn) mp st.new_map)
        × (st'.seen_old ≡ HashSet.insert uuid st.seen_old)
        × (st'.drawn ≡ st.drawn + 1)
  unfolding move_mount
  move_mount_lem uuid mp st h = ground arith

  pub refresh_mount_lem :
      (uuid : Uuid) (old_mp mp : MountPoint) (st : Rescan) {st' : Rescan}
      → refresh_mount new_v4 uuid old_mp mp st ≡ going st'
      → (st'.sender.sent
          ≡ (if key_eq mp old_mp then st.sender.sent else st.sender.sent ++ modified uuid mp ∷ []))
        × (st'.new_map ≡ HashMap.insert uuid mp st.new_map)
        × (st'.seen_old ≡ HashSet.insert uuid st.seen_old)
        × (st'.drawn ≡ st.drawn)
  unfolding refresh_mount
  refresh_mount_lem uuid old_mp mp st h = ground arith

  pub add_mount_lem :
      (mp : MountPoint) (st : Rescan) {st' : Rescan}
      → add_mount new_v4 mp st ≡ going st'
      → (st'.sender.sent ≡ st.sender.sent ++ added (new_v4 st.drawn) mp ∷ [])
        × (st'.new_map ≡ HashMap.insert (new_v4 st.drawn) mp st.new_map)
        × (st'.seen_old ≡ st.seen_old)
        × (st'.drawn ≡ st.drawn + 1)
  unfolding add_mount
  add_mount_lem mp st h = ground arith
