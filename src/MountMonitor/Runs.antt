-- ===== src/MountMonitor/Runs.antt =====
-- A rescan does not panic, and goes through to its end while someone listens.
use mathlib.Core.Bool.{false≢true}
use net_device_mapping.Channel.{Sender, send_if}
use net_device_mapping.HashMap.{IsMap}
use net_device_mapping.HashSet
use net_device_mapping.HashSet.{HashSet}
use net_device_mapping.MountMonitor.{
  MountPoint, Uuid, MountChange, added, removed, modified, mount_point_key,
}
use net_device_mapping.MountMonitor.Ids.{DistinctIds, HaveIds, match_by_id}
use net_device_mapping.MountMonitor.Rescan.{
  Mounts, Flow, going, closed, panicked, ◌>>>◌, unless_closed, send_event, build_lookups, Rescan,
  move_mount, refresh_mount, add_mount, update_by_id, rescan_matched, rescan_mount, rescan_mounts,
  remove_unseen, send_removed, Monitor, start_rescan, rescan,
}
use net_device_mapping.Path.Equality.{path_key}
use net_device_mapping.Prelude.{
  ℕ, ◌≡◌, refl, sym, ◌∙◌, ◌⊎◌, inl, inr, Bool, true, false, List, [], ◌∷◌, some, nat_key, key_eq,
  Bool-cases, length,
}

abbrev pub Listening : Sender MountChange → Type 0
Listening s = (n : ℕ) → s.listening n ≡ true

-- `C` is the leave to end early: with `Unit` the statements below say that nothing panics, with `⊥`
-- that the code goes through.
module _ (C : Type 0) where
  abbrev pub Open : Sender MountChange → Type 0
  Open s = C ⊎ Listening s

  abbrev pub Fine : {A : Type 0} → (A → Sender MountChange) → Flow A → Type 0
  Fine sender (going a) = Open (sender a)
  Fine sender (closed s) = C
  Fine sender panicked = ⊥

  Fine->>> :
      {A B : Type 0} (sa : A → Sender MountChange) (sb : B → Sender MountChange) (m : Flow A)
      (f : A → Flow B)
      → Fine sa m
      → ((a : A) → Open (sa a) → Fine sb (f a))
      → Fine sb (m >>> f)
  Fine->>> sa sb (going a) f h k = k a h
  Fine->>> sa sb (closed s) f h k = h
  Fine->>> sa sb panicked f h k = absurd h

  send_if-Fine :
      (b : Bool) (c : MountChange) (s : Sender MountChange)
      → Open s
      → s.listening (length s.sent) ≡ b
      → Fine (λ s. s) (unless_closed (send_if b c s))
  send_if-Fine true c s h e = h
  send_if-Fine false c s (inl leave) e = leave
  send_if-Fine false c s (inr listening) e = absurd (false≢true (sym e ∙ listening _))

  send_event-Fine :
      (c : MountChange) (s : Sender MountChange) → Open s → Fine (λ s. s) (send_event c s)
  unfolding send_event
  send_event-Fine c s h = send_if-Fine (s.listening (length s.sent)) c s h refl

  -- Send, and go on in the same way with what comes of it.
  send_then-Fine :
      {B : Type 0} (sb : B → Sender MountChange) (c : MountChange) (s : Sender MountChange)
      (f : Sender MountChange → Flow B)
      → Open s
      → ((s : Sender MountChange) → Open s → Fine sb (f s))
      → Fine sb (send_event c s >>> f)
  send_then-Fine sb c s f h k = Fine->>> (λ s. s) sb (send_event c s) f (send_event-Fine c s h) k

  abbrev its_sender : Rescan → Sender MountChange
  its_sender st = st.sender

  module _ (new_v4 : ℕ → Uuid) where
    move_mount-Fine :
        (uuid : Uuid) (mp : MountPoint) (st : Rescan)
        → Open st.sender
        → Fine its_sender (move_mount new_v4 uuid mp st)
    unfolding move_mount
    move_mount-Fine uuid mp st h =
        send_then-Fine its_sender (removed uuid) st.sender _ h
          λ s k. send_then-Fine its_sender (added (new_v4 st.drawn) mp) s _ k λ s l. l

    refresh_mount-Fine :
        (uuid : Uuid) (op mp : MountPoint) (st : Rescan)
        → Open st.sender
        → Fine its_sender (refresh_mount new_v4 uuid op mp st)
    unfolding refresh_mount
    refresh_mount-Fine uuid op mp st h = elim (Bool-cases (key_eq mp op)) [
      | inl same ↦ rw same h
      | inr changed ↦
          rw changed (send_then-Fine its_sender (modified uuid mp) st.sender _ h λ s k. k)
    ]

    add_mount-Fine :
        (mp : MountPoint) (st : Rescan) → Open st.sender → Fine its_sender (add_mount new_v4 mp st)
    unfolding add_mount
    add_mount-Fine mp st h =
        send_then-Fine its_sender (added (new_v4 st.drawn) mp) st.sender _ h λ s k. k

    update_by_id-Fine :
        (uuid : Uuid) (op mp : MountPoint) (st : Rescan)
        → Open st.sender
        → Fine its_sender (update_by_id new_v4 uuid (some op) mp st)
    unfolding update_by_id
    update_by_id-Fine uuid op mp st h = elim (Bool-cases (key_eq mp.path op.path)) [
      | inl same ↦ rw same (refresh_mount-Fine uuid op mp st h)
      | inr moved ↦ rw moved (move_mount-Fine uuid mp st h)
    ]

    module _ (old : Mounts) (is_map : IsMap old) (have : HaveIds old) where
      rescan_mount-Fine :
          (mp : MountPoint) (i : ℕ) (st : Rescan)
          → mp.id ≡ some i
          → Open st.sender
          → Fine its_sender (rescan_mount new_v4 old (build_lookups old ([], [])) mp st)
      unfolding rescan_mount rescan_matched
      rescan_mount-Fine mp i st e h = elim (match_by_id old is_map have mp i e) [
        | inl m ↦ rw m (add_mount-Fine mp st h)
        | inr (u, op, m, found, _) ↦ rw (m, found) (update_by_id-Fine u op mp st h)
      ]

      rescan_mounts-Fine :
          (mps : List MountPoint) (st : Rescan)
          → DistinctIds mps
          → Open st.sender
          → Fine its_sender (rescan_mounts new_v4 old (build_lookups old ([], [])) mps st)
      unfolding rescan_mounts
      rescan_mounts-Fine [] st d h = h
      rescan_mounts-Fine (mp ∷ mps) st ((i, e, _), d) h =
          Fine->>> its_sender its_sender
            (rescan_mount new_v4 old (build_lookups old ([], [])) mp st) _
            (rescan_mount-Fine mp i st e h) λ mid k. rescan_mounts-Fine mps mid d k

  remove_unseen-Fine :
      (uuid : Uuid) (seen : HashSet Uuid) (s : Sender MountChange)
      → Open s
      → Fine (λ s. s) (remove_unseen uuid seen s)
  unfolding remove_unseen
  remove_unseen-Fine uuid seen s h = elim (Bool-cases (HashSet.contains uuid seen)) [
    | inl met ↦ rw met h
    | inr unmet ↦ rw unmet (send_event-Fine (removed uuid) s h)
  ]

  send_removed-Fine :
      (old : Mounts) (seen : HashSet Uuid) (s : Sender MountChange)
      → Open s
      → Fine (λ s. s) (send_removed old seen s)
  unfolding send_removed
  send_removed-Fine [] seen s h = h
  send_removed-Fine ((uuid, mp) ∷ old) seen s h =
      Fine->>> (λ s. s) (λ s. s) (remove_unseen uuid seen s) _ (remove_unseen-Fine uuid seen s h)
        λ s k. send_removed-Fine old seen s k

  pub rescan-Fine :
      (new_v4 : ℕ → Uuid) (mps : List MountPoint) (s : Monitor)
      → IsMap s.mountinfo
      → HaveIds s.mountinfo
      → DistinctIds mps
      → Open s.sender
      → Fine (λ s. s.sender) (rescan new_v4 mps s)
  unfolding rescan
  rescan-Fine new_v4 mps s m have d h =
      Fine->>> its_sender (λ s. s.sender)
        (rescan_mounts new_v4 s.mountinfo (build_lookups s.mountinfo ([], [])) mps (start_rescan s))
        _ (rescan_mounts-Fine new_v4 s.mountinfo m have mps (start_rescan s) d h)
        λ st k.
          Fine->>> (λ s. s) (λ s. s.sender) (send_removed s.mountinfo st.seen_old st.sender) _
            (send_removed-Fine s.mountinfo st.seen_old st.sender k) λ s l. l

-- Without leave to end early, the code goes through, and the receiver still listens.
pub Fine-going :
    {A : Type 0} (sender : A → Sender MountChange) (m : Flow A)
    → Fine ⊥ sender m
    → (a : A) × (m ≡ going a) × Listening (sender a)
Fine-going sender (going a) (inl leave) = absurd leave
Fine-going sender (going a) (inr listening) = (a, refl, listening)
Fine-going sender (closed s) h = absurd h
Fine-going sender panicked h = absurd h

-- With it, the code goes through or stops at a closed channel.
pub Fine-cases :
    {A : Type 0} (sender : A → Sender MountChange) (m : Flow A)
    → Fine Unit sender m
    → ((a : A) × (m ≡ going a)) ⊎ ((s : Sender MountChange) × (m ≡ closed s))
Fine-cases sender (going a) h = inl (a, refl)
Fine-cases sender (closed s) h = inr (s, refl)
Fine-cases sender panicked h = absurd h
