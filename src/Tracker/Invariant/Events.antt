-- ===== src/Tracker/Invariant/Events.antt =====
-- Every event keeps the tracker well formed, and so does every run of its loop.
use net_device_mapping.HashSet
use net_device_mapping.Host.{Host, INode}
use net_device_mapping.MountMonitor
use net_device_mapping.MountMonitor.{MountChange}
use net_device_mapping.NsidMonitor
use net_device_mapping.NsidMonitor.{NetnsIdEvent}
use net_device_mapping.Path.{PathBuf}
use net_device_mapping.Path.Equality.{path_key}
use net_device_mapping.Prelude.{
  ℕ, ◌≡◌, inl, inr, Bool, true, false, not, ◌&&◌, List, [], ◌∷◌, none, some, ok, ◌==◌, arith,
  nat_key, length, ok-injective, Bool-cases, Option-cases, Result-cases, subst,
}
use net_device_mapping.SyscallMonitor.{EventType, exec, exit}
use net_device_mapping.Tracker.Events.{
  Event, netns_id_event, mount_change, syscall, state_requested, on_netns_id, bound_namespace,
  unbind, on_mount_change, check_process, on_syscall, Tracker, process_event, set_id, add_path,
  drop_path, Wake, closed, event, no_event, track,
}
use net_device_mapping.Tracker.Invariant.{IsWellFormed}
use net_device_mapping.Tracker.Invariant.Methods.{
  ensure_namespace-IsWellFormed, ensure_namespace-contains, write_namespace-IsWellFormed,
  write_ensured-IsWellFormed, place-IsWellFormed, forget-IsWellFormed,
  remove_namespace-IsWellFormed,
}
use net_device_mapping.Tracker.MountState.{MountState}
use net_device_mapping.Tracker.Search.{find_netns_id_addition}
use net_device_mapping.Tracker.State.{
  ShallowNamespace, State, ensure_namespace, write_namespace, namespace_by_id,
  does_namespace_has_pids, process_netns_path,
}

on_netns_id-IsWellFormed :
    (h : Host) (e : NetnsIdEvent) (s : State) {s' : State}
    → IsWellFormed s
    → on_netns_id h e s ≡ ok s'
    → IsWellFormed s'
unfolding on_netns_id
on_netns_id-IsWellFormed h (NsidMonitor.added id) s {s'} w r =
    elim (Result-cases (find_netns_id_addition h s id)) [
      | inl (some inode, found) ↦
          subst IsWellFormed (ground arith) (write_ensured-IsWellFormed inode (set_id id) s w)
      | inl (none, found) ↦ subst IsWellFormed (ground arith) w
      | inr (error, failed) ↦ absurd (ground arith)
    ]
on_netns_id-IsWellFormed h (NsidMonitor.removed id) s {s'} w r =
    elim (Option-cases (namespace_by_id id s)) [
      | inl absent ↦ subst IsWellFormed (ground arith) w
      | inr ((inode, netns), found) ↦
          subst IsWellFormed (ground arith) (remove_namespace-IsWellFormed inode s w)
    ]

unbind-IsWellFormed :
    (path : PathBuf) (inode : INode) (netns : ShallowNamespace) (s : State)
    → IsWellFormed s
    → IsWellFormed (unbind path inode netns s)
unfolding unbind
unbind-IsWellFormed path inode netns s w =
    let s' = write_namespace inode (drop_path path) s in
    let w' = write_namespace-IsWellFormed inode (drop_path path) s w in
    elim (Bool-cases
      (length (HashSet.remove path netns.fs_path) == 0 && not (does_namespace_has_pids inode s'))) [
        | inl unused ↦ rw unused (remove_namespace-IsWellFormed inode s' w')
        | inr used ↦ rw used w'
      ]

on_mount_change-IsWellFormed :
    (h : Host) (c : MountChange) (mounts : MountState) (s : State)
    → IsWellFormed s
    → IsWellFormed (on_mount_change h c mounts s)
unfolding on_mount_change
on_mount_change-IsWellFormed h (MountMonitor.added uuid mp) mounts s w =
    elim (Result-cases (h.metadata mp.path)) [
      | inl (inode, found) ↦
          rw (found, on_mount_change) (write_ensured-IsWellFormed inode (add_path mp.path) s w)
      | inr (error, failed) ↦ rw (failed, on_mount_change) w
    ]
on_mount_change-IsWellFormed h (MountMonitor.removed uuid) mounts s w =
    elim (Option-cases (bound_namespace uuid mounts s)) [
      | inl absent ↦ rw (absent, on_mount_change) w
      | inr ((path, inode, netns), found) ↦
          rw (found, on_mount_change) (unbind-IsWellFormed path inode netns s w)
    ]
on_mount_change-IsWellFormed h (MountMonitor.modified uuid mp) mounts s w =
    elim (Option-cases (bound_namespace uuid mounts s)) [
      | inl absent ↦ rw (absent, on_mount_change) w
      | inr ((path, inode, netns), found) ↦
          rw (found, on_mount_change) (write_namespace-IsWellFormed inode _ s w)
    ]

check_process-IsWellFormed :
    (h : Host) (pid : ℕ) (s : State) → IsWellFormed s → IsWellFormed (check_process h pid s)
unfolding check_process
check_process-IsWellFormed h pid s w = elim (Result-cases (h.metadata (process_netns_path pid))) [
  | inl (inode, found) ↦
      rw (found, check_process)
        (place-IsWellFormed pid inode (ensure_namespace inode s)
          (ensure_namespace-IsWellFormed inode s w) (ensure_namespace-contains inode s))
  | inr (error, failed) ↦ rw (failed, check_process) w
]

on_syscall-IsWellFormed :
    (h : Host) (kind : EventType) (pid : ℕ) (s : State)
    → IsWellFormed s
    → IsWellFormed (on_syscall h kind pid s)
unfolding on_syscall
on_syscall-IsWellFormed h exit pid s w = forget-IsWellFormed pid s w
on_syscall-IsWellFormed h exec pid s w = w
on_syscall-IsWellFormed h _ pid s w = check_process-IsWellFormed h pid s w

-- Whatever the event and whatever the system answers: if the tracker is well formed and the event is
-- handled without an error, it is well formed afterwards.
process_event-IsWellFormed :
    (h : Host) (e : Event) (t : Tracker) {t' : Tracker} {quit : Bool}
    → IsWellFormed t.state
    → process_event h e t ≡ ok (t', quit)
    → IsWellFormed t'.state
unfolding process_event
process_event-IsWellFormed h (netns_id_event e) t w r =
    elim (Result-cases (on_netns_id h e t.state)) [
      | inl (s, found) ↦
          subst IsWellFormed (ground arith) (on_netns_id-IsWellFormed h e t.state w found)
      | inr (error, failed) ↦ absurd (ground arith)
    ]
process_event-IsWellFormed h (mount_change c) t w r =
    subst IsWellFormed (ground arith) (on_mount_change-IsWellFormed h c t.mount_state t.state w)
process_event-IsWellFormed h (syscall e) t w r =
    subst IsWellFormed (ground arith) (on_syscall-IsWellFormed h e.kind e.pid t.state w)
process_event-IsWellFormed h state_requested t w r = subst IsWellFormed (ground arith) w

-- A run of the tracker's loop that starts well formed and ends without an error ends well formed.
pub track-IsWellFormed :
    (wakes : List Wake) (t : Tracker) {t' : Tracker}
    → IsWellFormed t.state
    → track wakes t ≡ ok t'
    → IsWellFormed t'.state
unfolding track
track-IsWellFormed [] t w r = subst (λ x. IsWellFormed x.state) (ok-injective r) w
track-IsWellFormed (closed ∷ wakes) t w r = subst (λ x. IsWellFormed x.state) (ok-injective r) w
track-IsWellFormed (no_event ∷ wakes) t w r = track-IsWellFormed wakes t w r
track-IsWellFormed (event h e ∷ wakes) t {t'} w r = elim (Result-cases (process_event h e t)) [
  | inl ((t₁, true), found) ↦
      let same : t₁ ≡ t' = ground arith in
      subst (λ x. IsWellFormed x.state) same (process_event-IsWellFormed h e t w found)
  | inl ((t₁, false), found) ↦
      track-IsWellFormed wakes t₁ (process_event-IsWellFormed h e t w found) (rw found at r)
  | inr (error, failed) ↦ absurd (ground arith)
]
