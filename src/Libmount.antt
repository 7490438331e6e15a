-- ===== src/Libmount.antt =====
-- src/util/libmount_monitor.rs: the wrapper of libmount's monitor. The C functions are a parameter, on
-- the state of the monitor object; `SendMonitor` hands every call on to `RcMonitor`.
pub mod Calls
pub mod Handles
pub mod SendMonitor
pub mod Stream
use net_device_mapping.Netlink.{ℤ, pos, negsuc}
use net_device_mapping.Path.{Str, PathBuf}
use net_device_mapping.Path.Equality.{PathBuf-discrete}
use net_device_mapping.Prelude.{ℕ, Option, Key}

-- Each function gives its return code and the monitor afterwards.
pub record Libmnt (M : Type 0) : Type 0 where
  pub new_monitor : M
  pub ref_monitor : M → M
  pub unref_monitor : M → M
  pub enable_userspace : M → ℤ → Option Str → ℤ × M
  pub enable_kernel : M → ℤ → ℤ × M
  pub get_fd : M → ℤ × M
  pub close_fd : M → ℤ × M
  -- The code, and what it stores: the bytes of the path, and the type of the event.
  pub next_change : M → (ℤ × Str × ℤ) × M
  pub event_cleanup : M → ℤ × M
  pub wait : M → ℤ → ℤ × M
  pub type_kernel : ℕ
  pub type_userspace : ℕ

pub data EventKind : Type 0 where
  kernel userspace : EventKind

pub record Event : Type 0 where
  pub path : PathBuf
  pub kind : EventKind

unfoldable pub Event-discrete : Discrete Event
unfolding PathBuf-discrete
Event-discrete = hlevel PathBuf-discrete

instance abbrev pub event_key : Key Event
event_key = record { dec = Event-discrete }

-- A c_uint of milliseconds.
pub data Timeout : Type 0 where
  forever : Timeout
  millis : ℕ → Timeout
