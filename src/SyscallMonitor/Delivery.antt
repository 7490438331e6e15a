-- ===== src/SyscallMonitor/Delivery.antt =====
-- From the tracepoints of ebpf/fork_monitor.bpf.c to the receivers of src/syscall_monitor.rs.
use mathlib.Core.List.{append_assoc, append-nil}
use net_device_mapping.Channel.{Sender, send}
use net_device_mapping.Prelude.{
  ℕ, ◌≡◌, refl, sym, ◌∙◌, Bool, true, filter, Bool-cases, inl, inr, List, [], ◌∷◌, ◌++◌, map, ok,
  length, All,
}
use net_device_mapping.SyscallMonitor.{EventType, EbpfEvent}
use net_device_mapping.SyscallMonitor.Kernel.{
  Task, trace, sample, traced_event, user_event, decode-sample,
}
use net_device_mapping.SyscallMonitor.Poll.{Wake, readable, waiting, send_items, poll_messages}

-- A tracepoint that is reached: which, the argument of a fork, the task that reaches it, and whether the
-- ring buffer then has room.
pub record Hit : Type 0 where
  pub kind : EventType
  pub parent_pid : ℕ
  pub task : Task
  pub fits : Bool

abbrev pub HasComm : Hit → Type 0
HasComm x = length x.task.comm ≡ 16

-- The ring buffer after its programs have run.
abbrev pub ring_after : List Hit → List (List ℕ) → List (List ℕ)
ring_after [] ring = ring
ring_after (x ∷ hits) ring = ring_after hits (trace x.fits x.kind x.parent_pid x.task ring)

-- The event that a tracepoint stands for.
abbrev pub event : Hit → EbpfEvent
event x = user_event x.kind (traced_event x.kind x.parent_pid x.task)

-- The ring buffer is empty after each wake.
abbrev pub wake_of : List Hit → Wake
wake_of hits = readable (ring_after hits [])

-- The tracepoints at which the ring buffer had room.
abbrev pub kept : List Hit → List Hit
kept = filter (λ x. x.fits)

abbrev pub events : List (List Hit) → List EbpfEvent
events [] = []
events (hits ∷ batches) = map event (kept hits) ++ events batches

abbrev item : Hit → List ℕ
item x = sample x.kind x.parent_pid x.task

ring_after-kept :
    (hits : List Hit) (ring : List (List ℕ)) → ring_after hits ring ≡ ring ++ map item (kept hits)
unfolding trace
ring_after-kept [] ring = sym (append-nil ring)
ring_after-kept (x ∷ hits) ring = elim (Bool-cases x.fits) [
  | inl fits ↦
      rw fits (ring_after-kept hits (ring ++ item x ∷ []) ∙ append_assoc ring (item x ∷ []) _)
  | inr full ↦ rw full (ring_after-kept hits ring)
]

send_items-sent :
    (hits : List Hit) (s : Sender EbpfEvent)
    → All HasComm hits
    → ((n : ℕ) → s.listening n ≡ true)
    → send_items (map item (kept hits)) s
      ≡ ok (record s { sent = s.sent ++ map event (kept hits) }, true)
unfolding send_items send
send_items-sent [] s c h = rw append-nil refl
send_items-sent (x ∷ hits) s (c, cs) h = elim (Bool-cases x.fits) [
  | inl fits ↦
      rw (fits, decode-sample x.kind x.parent_pid x.task c, h (length s.sent))
        (send_items-sent hits (record s { sent = s.sent ++ event x ∷ [] }) cs h
          ∙ rw append_assoc refl)
  | inr full ↦ rw full (send_items-sent hits s cs h)
]

-- While somebody listens, the loop goes on and waits for more, and every tracepoint that is reached while the ring buffer has room gives its event to
-- the receivers, once and in order, however the ring buffer's items are spread over the wakes; no read is
-- undefined. A tracepoint that is reached while the ring buffer is full gives no event. The names of the
-- tasks have sixteen bytes.
pub poll_messages-sent :
    (batches : List (List Hit)) (s : Sender EbpfEvent)
    → All (All HasComm) batches
    → ((n : ℕ) → s.listening n ≡ true)
    → poll_messages (map wake_of batches) s
      ≡ ok (waiting (record s { sent = s.sent ++ events batches }))
unfolding poll_messages
poll_messages-sent [] s c h = rw append-nil refl
poll_messages-sent (hits ∷ batches) s (c, cs) h =
    rw (ring_after-kept hits [], send_items-sent hits s c h)
      (poll_messages-sent batches (record s { sent = s.sent ++ map event (kept hits) }) cs h
        ∙ rw append_assoc refl)
