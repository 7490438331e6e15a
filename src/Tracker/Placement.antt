-- ===== src/Tracker/Placement.antt =====
-- What an event of src/netns_tracker.rs does to the place of each process.
use net_device_mapping.HashMap
use net_device_mapping.HashMap.{IsMap}
use net_device_mapping.HashMap.Iterate.{keep_if, get-filter}
use net_device_mapping.HashMap.Laws.{get-insert, get-remove}
use net_device_mapping.Host.{Host, INode, Pid}
use net_device_mapping.Prelude.{
  ℕ, ◌≡◌, inl, inr, true, none, some, ok, err, Option, not, arith, nat_key, key_eq, if◌then◌else◌,
  Result, Result-cases,
}
use net_device_mapping.SyscallMonitor.{EventType, fork, exec, exit, clone, unshare, setns}
use net_device_mapping.Tracker.Events.{check_process, on_syscall}
use net_device_mapping.Tracker.State.{State, ensure_namespace, process_netns_path, remove_namespace}

-- Where the process of a system call is afterwards: nowhere after its exit, where it was after an
-- exec, and else in the namespace that /proc shows, or where it was if /proc shows none.
abbrev pub place_after : EventType → Result ℕ INode → Option INode → Option INode
place_after exit shown before = none
place_after exec shown before = before
place_after _ (ok inode) before = some inode
place_after _ (err e) before = before

ensure_namespace-pids : (inode : INode) (s : State) → (ensure_namespace inode s).pids ≡ s.pids
unfolding ensure_namespace
ensure_namespace-pids inode s = ground arith

check_process-pids :
    (h : Host) (pid other : Pid) (s : State)
    → HashMap.get other (check_process h pid s).pids ≡ (
        if key_eq pid other
        then place_after fork (h.metadata (process_netns_path pid)) (HashMap.get pid s.pids)
        else HashMap.get other s.pids)
unfolding check_process
check_process-pids h pid other s = elim (Result-cases (h.metadata (process_netns_path pid))) [
  | inl (inode, shown) ↦
      rw (shown, check_process, ensure_namespace-pids)
        (ground (arith, get-insert pid other inode s.pids))
  | inr (e, shown) ↦ rw (shown, check_process) (ground arith)
]

-- After a system call its process is nowhere if it was an exit, where it was if it was an exec, and
-- else in the namespace that /proc shows, or where it was if /proc shows none. Every other process is
-- where it was.
pub on_syscall-pids :
    (h : Host) (kind : EventType) (pid other : Pid) (s : State)
    → HashMap.get other (on_syscall h kind pid s).pids ≡ (
        if key_eq pid other
        then place_after kind (h.metadata (process_netns_path pid)) (HashMap.get pid s.pids)
        else HashMap.get other s.pids)
unfolding on_syscall
on_syscall-pids h fork pid other s = check_process-pids h pid other s
on_syscall-pids h exec pid other s = ground arith
on_syscall-pids h exit pid other s = ground (arith, get-remove pid other s.pids)
on_syscall-pids h clone pid other s = check_process-pids h pid other s
on_syscall-pids h unshare pid other s = check_process-pids h pid other s
on_syscall-pids h setns pid other s = check_process-pids h pid other s

-- Removing a namespace that the tracker has, with each process once, removes it and only it, and with
-- it its processes and only those.
remove_namespace_lem :
    (s : State) (gone inode : INode) (pid : Pid)
    → IsMap s.pids
    → HashMap.contains_key gone s.namespaces ≡ true
    → (HashMap.get inode (remove_namespace gone s).0.namespaces
        ≡ (if key_eq gone inode then none else HashMap.get inode s.namespaces))
      × (HashMap.get pid (remove_namespace gone s).0.pids
          ≡ keep_if (λ i. not (key_eq i gone)) (HashMap.get pid s.pids))
unfolding remove_namespace
remove_namespace_lem s gone inode pid m there = (
  ground (arith, get-remove gone inode s.namespaces),
  ground (arith, get-filter pid (λ e. not (key_eq e.1 gone)) s.pids m),
)
