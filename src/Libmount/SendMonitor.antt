-- ===== src/Libmount/SendMonitor.antt =====
-- `SendMonitor` of src/util/libmount_monitor.rs: an `RcMonitor` that may cross threads. It hands every call
-- on to the monitor that it wraps.
use net_device_mapping.Host.{RawFd}
use net_device_mapping.Libmount.{Libmnt, Event, Timeout}
use net_device_mapping.Libmount.Calls
use net_device_mapping.Libmount.Calls.{Called}
use net_device_mapping.Path.{Str}
use net_device_mapping.Prelude.{Bool, Option}

pub record SendMonitor (M : Type 0) : Type 0 where
  pub monitor : M

module _ {M : Type 0} where
  -- `SendMonitor::from_inner` and `RcMonitor::into_send`; neither is a clone nor a drop.
  unfoldable pub from_inner : M → SendMonitor M
  from_inner mon = record { monitor = mon }

  unfoldable pub into_send : M → SendMonitor M
  into_send mon = record { monitor = mon }

  unfoldable pub into_inner : SendMonitor M → M
  into_inner s = s.monitor

  -- The answer, with the wrapper around the monitor afterwards.
  abbrev pub wrapped : {A : Type 0} → Called M A → Called (SendMonitor M) A
  wrapped (answer, m) = (answer, record { monitor = m })

module _ {M : Type 0} (lib : Libmnt M) where
  unfoldable pub new : SendMonitor M
  new = record { monitor = lib.new_monitor }

  unfoldable pub enable_userspace :
      (Str → Str) → Bool → Option Str → SendMonitor M → Called (SendMonitor M) (Unit {0})
  unfolding Calls.enable_userspace
  enable_userspace freed enable filename s =
      wrapped (Calls.enable_userspace lib freed enable filename s.monitor)

  unfoldable pub enable_kernel : Bool → SendMonitor M → Called (SendMonitor M) (Unit {0})
  unfolding Calls.enable_kernel
  enable_kernel enable s = wrapped (Calls.enable_kernel lib enable s.monitor)

  unfoldable pub get_fd : SendMonitor M → Called (SendMonitor M) RawFd
  unfolding Calls.get_fd
  get_fd s = wrapped (Calls.get_fd lib s.monitor)

  unfoldable pub close_fd : SendMonitor M → Called (SendMonitor M) (Unit {0})
  unfolding Calls.close_fd
  close_fd s = wrapped (Calls.close_fd lib s.monitor)

  unfoldable pub next_change : SendMonitor M → Called (SendMonitor M) (Option Event)
  unfolding Calls.next_change
  next_change s = wrapped (Calls.next_change lib s.monitor)

  unfoldable pub event_cleanup : SendMonitor M → Called (SendMonitor M) (Unit {0})
  unfolding Calls.event_cleanup
  event_cleanup s = wrapped (Calls.event_cleanup lib s.monitor)

  unfoldable pub wait : Timeout → SendMonitor M → Called (SendMonitor M) Bool
  unfolding Calls.wait
  wait timeout s = wrapped (Calls.wait lib timeout s.monitor)
