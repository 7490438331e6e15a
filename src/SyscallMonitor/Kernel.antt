-- ===== src/SyscallMonitor/Kernel.antt =====
-- ebpf/fork_monitor.bpf.c: what the tracepoint programs put into the ring buffer. What the kernel's
-- helper functions say of the current task is input.
use net_device_mapping.Prelude.{
  ℕ, ◌/◌, ◌%◌, ◌^◌, ◌<◌, ◌≡◌, refl, Bool, true, false, if◌then◌else◌, List, [], ◌∷◌, ◌++◌, ok,
  arith, length,
}
use net_device_mapping.SyscallMonitor.{
  EventType, fork, exec, exit, clone, unshare, setns, EbpfEvent,
}
use net_device_mapping.SyscallMonitor.Layout.{
  u32_bytes, event_type, decode, read_u32-u32_bytes, read_bytes-all,
}

-- The current task, as the helpers describe it: `tgid << 32 | pid`, `gid << 32 | uid`, the thread group
-- of its real parent, and the sixteen bytes of its name.
pub record Task : Type 0 where
  pub pid_tgid : ℕ
  pub uid_gid : ℕ
  pub real_parent_tgid : ℕ
  pub comm : List ℕ

-- `struct event`.
pub record KernelEvent : Type 0 where
  pub type : ℕ
  pub pid : ℕ
  pub tid : ℕ
  pub uid : ℕ
  pub gid : ℕ
  pub parent_pid : ℕ
  pub command : List ℕ

abbrev pub type_of : EventType → ℕ
type_of fork = 0
type_of exec = 1
type_of exit = 2
type_of clone = 3
type_of unshare = 4
type_of setns = 5

unfoldable pub generic_event : ℕ → Task → KernelEvent
generic_event type task = record {
  type = type;
  pid = task.pid_tgid / 2 ^ 32 % 2 ^ 32;
  tid = task.pid_tgid % 2 ^ 32;
  uid = task.uid_gid % 2 ^ 32;
  gid = task.uid_gid / 2 ^ 32 % 2 ^ 32;
  parent_pid = task.real_parent_tgid % 2 ^ 32;
  command = task.comm;
}

-- The fork program takes the parent from the tracepoint's arguments.
unfoldable pub fork_event : ℕ → Task → KernelEvent
fork_event parent_pid task = record (generic_event 0 task) { parent_pid = parent_pid % 2 ^ 32 }

-- What `bpf_ringbuf_output` is given to copy.
unfoldable pub event_bytes : KernelEvent → List ℕ
event_bytes e =
    u32_bytes e.type
    ++ (u32_bytes e.pid
        ++ (u32_bytes e.tid
            ++ (u32_bytes e.uid ++ (u32_bytes e.gid ++ (u32_bytes e.parent_pid ++ e.command)))))

-- The event of the program at a tracepoint; `parent_pid` is the argument of `sched_process_fork`.
unfoldable pub traced_event : EventType → ℕ → Task → KernelEvent
traced_event fork parent_pid task = fork_event parent_pid task
traced_event kind parent_pid task = generic_event (type_of kind) task

abbrev pub sample : EventType → ℕ → Task → List ℕ
sample kind parent_pid task = event_bytes (traced_event kind parent_pid task)

-- The ring buffer after the program at a tracepoint has run. `fits` is whether `bpf_ringbuf_output`
-- succeeds: in a full ring buffer it fails, and the programs ignore its result.
unfoldable pub trace : (fits : Bool) → EventType → ℕ → Task → List (List ℕ) → List (List ℕ)
trace fits kind parent_pid task ring =
    if fits then ring ++ sample kind parent_pid task ∷ [] else ring

-- What user space makes of an event.
abbrev pub user_event : EventType → KernelEvent → EbpfEvent
user_event kind e = record {
  kind = kind;
  pid = e.pid;
  tid = e.tid;
  uid = e.uid;
  gid = e.gid;
  parent_pid = e.parent_pid;
  command = e.command;
}

event_type-type_of : (kind : EventType) → event_type (type_of kind) ≡ ok kind
unfolding event_type
event_type-type_of fork = refl
event_type-type_of exec = refl
event_type-type_of exit = refl
event_type-type_of clone = refl
event_type-type_of unshare = refl
event_type-type_of setns = refl

pub record IsInRange (e : KernelEvent) : Type 0 where
  pub pid : e.pid < 2 ^ 32
  pub tid : e.tid < 2 ^ 32
  pub uid : e.uid < 2 ^ 32
  pub gid : e.gid < 2 ^ 32
  pub parent_pid : e.parent_pid < 2 ^ 32
  pub command : length e.command ≡ 16

type_of-lt : (kind : EventType) → type_of kind < 2 ^ 32
type_of-lt fork = omega arith
type_of-lt exec = omega arith
type_of-lt exit = omega arith
type_of-lt clone = omega arith
type_of-lt unshare = omega arith
type_of-lt setns = omega arith

decode-event_bytes :
    (kind : EventType) (e : KernelEvent)
    → e.type ≡ type_of kind
    → IsInRange e
    → decode (event_bytes e) ≡ ok (user_event kind e)
unfolding decode event_bytes
decode-event_bytes kind e t v =
    rw
      (
        t,
        read_u32-u32_bytes (type_of kind) _ (type_of-lt kind),
        event_type-type_of kind,
        read_u32-u32_bytes e.pid _ v.pid,
        read_u32-u32_bytes e.tid _ v.tid,
        read_u32-u32_bytes e.uid _ v.uid,
        read_u32-u32_bytes e.gid _ v.gid,
        read_u32-u32_bytes e.parent_pid _ v.parent_pid,
        read_bytes-all e.command 16 v.command,
      )
      refl

traced_event-type :
    (kind : EventType) (parent_pid : ℕ) (task : Task)
    → (traced_event kind parent_pid task).type ≡ type_of kind
unfolding traced_event fork_event generic_event
traced_event-type fork parent_pid task = refl
traced_event-type exec parent_pid task = refl
traced_event-type exit parent_pid task = refl
traced_event-type clone parent_pid task = refl
traced_event-type unshare parent_pid task = refl
traced_event-type setns parent_pid task = refl

generic_event-IsInRange :
    (type : ℕ) (task : Task) → length task.comm ≡ 16 → IsInRange (generic_event type task)
unfolding generic_event
generic_event-IsInRange type task h = omega arith

traced_event-IsInRange :
    (kind : EventType) (parent_pid : ℕ) (task : Task)
    → length task.comm ≡ 16
    → IsInRange (traced_event kind parent_pid task)
unfolding traced_event
traced_event-IsInRange fork parent_pid task h = unfold fork_event generic_event in omega arith
traced_event-IsInRange exec parent_pid task h = generic_event-IsInRange 1 task h
traced_event-IsInRange exit parent_pid task h = generic_event-IsInRange 2 task h
traced_event-IsInRange clone parent_pid task h = generic_event-IsInRange 3 task h
traced_event-IsInRange unshare parent_pid task h = generic_event-IsInRange 4 task h
traced_event-IsInRange setns parent_pid task h = generic_event-IsInRange 5 task h

pub decode-sample :
    (kind : EventType) (parent_pid : ℕ) (task : Task)
    → length task.comm ≡ 16
    → decode (sample kind parent_pid task)
      ≡ ok (user_event kind (traced_event kind parent_pid task))
decode-sample kind parent_pid task h =
    decode-event_bytes kind (traced_event kind parent_pid task)
      (traced_event-type kind parent_pid task) (traced_event-IsInRange kind parent_pid task h)

-- User space reads back what a program wrote: for every tracepoint and every task whose name has
-- sixteen bytes, the program adds one item to a ring buffer that has room, whose read is defined and gives
-- that tracepoint's kind and each field of the event; a full ring buffer stays as it is.
pub decode-trace :
    (kind : EventType) (parent_pid : ℕ) (task : Task) (ring : List (List ℕ))
    → length task.comm ≡ 16
    → (item : List ℕ) × (trace true kind parent_pid task ring ≡ ring ++ item ∷ [])
      × (decode item ≡ ok (user_event kind (traced_event kind parent_pid task)))
      × (trace false kind parent_pid task ring ≡ ring)
unfolding trace
decode-trace kind parent_pid task ring h =
    (sample kind parent_pid task, refl, decode-sample kind parent_pid task h, refl)
