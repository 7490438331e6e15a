-- ===== src/SyscallMonitor.antt =====
-- src/syscall_monitor.rs: the events that the eBPF programs send.
pub mod Command
pub mod Layout
pub mod Kernel
pub mod Poll
pub mod Show
pub mod Delivery
pub mod Load
use net_device_mapping.Prelude.{ℕ, List}

pub data EventType : Type 0 where
  fork exec exit clone unshare setns : EventType

pub record EbpfEvent : Type 0 where
  pub kind : EventType
  pub pid : ℕ
  pub tid : ℕ
  pub uid : ℕ
  pub gid : ℕ
  pub parent_pid : ℕ
  -- sixteen bytes
  pub command : List ℕ
