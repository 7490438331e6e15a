-- ===== src/Bin/PrintEvents.antt =====
-- src/bin/nsid_monitor.rs, src/bin/mount_monitor.rs and src/bin/syscall_monitor.rs: each starts one of the
-- monitors and prints its events as they come, up to the stop signal. `debug` is how an event's `Debug`
-- shows it. The monitor's set-up and that of the ctrl-c handler are given by their results, and the calls
-- of `recv` by their wakes.
pub mod Printed
pub mod Ids
pub mod Lines
use net_device_mapping.MountMonitor.{MountChange}
use net_device_mapping.NsidMonitor.{NetnsIdEvent}
use net_device_mapping.Path.{Str, codes}
use net_device_mapping.Prelude.{Bool, List, [], ◌∷◌, ◌++◌, Result, ok, err}
use net_device_mapping.SyscallMonitor.{EbpfEvent}
use net_device_mapping.Util.OneshotRecv.{ready, pending}
use net_device_mapping.Util.StoppableStream.{StoppableStream, Receivers, recv, new}

-- The wakes of each call of `recv`, in turn.
abbrev pub History : Type 0
History = List (List Bool)

-- How a program stands: it returned, or it still waits for an event.
pub data End (E : Type 0) : Type 0 where
  returned : Result E (Unit {0}) → End E
  waiting : End E

module _ {B R T S E : Type 0} (rx : Receivers B R T S) (debug : T → Str) where
  -- `while let Ok(event) = events.recv().await { println!("{event:?}"); }`
  unfoldable pub print_events : History → StoppableStream B R → List Str × End E
  print_events [] events = ([], waiting)
  print_events (orders ∷ history) events =
      let (answer, events') = recv rx orders events in
      let (lines, end) = print_events history events' in
      elim answer [
        | ready (ok event) ↦ (debug event ∷ lines, end)
        | ready (err _) ↦ ([], returned (ok tt))
        | pending ↦ ([], waiting)
      ]

  -- A `main` but for its heading and its monitor.
  abbrev pub main_of : Str → Result E B → Result E (Unit {0}) → R → History → List Str × End E
  main_of heading (err e) handler stop_rx history = ([], returned (err e))
  main_of heading (ok events) (err e) stop_rx history = ([], returned (err e))
  main_of heading (ok events) (ok _) stop_rx history =
      let (lines, end) = print_events history (new events stop_rx) in (heading ∷ lines, end)

module _ {B R S E : Type 0} where
  unfoldable pub nsid_monitor :
      Receivers B R NetnsIdEvent S
      → (NetnsIdEvent → Str)
      → Result E B
      → Result E (Unit {0})
      → R
      → History
      → List Str × End E
  unfolding print_events new
  nsid_monitor rx debug = main_of rx debug (codes "Monitoring namespaces id changes")

  unfoldable pub mount_monitor :
      Receivers B R MountChange S
      → (MountChange → Str)
      → Result E B
      → Result E (Unit {0})
      → R
      → History
      → List Str × End E
  unfolding print_events new
  mount_monitor rx debug = main_of rx debug (codes "Monitoring mounting changes")

  unfoldable pub syscall_monitor :
      Receivers B R EbpfEvent S
      → (EbpfEvent → Str)
      → Result E B
      → Result E (Unit {0})
      → R
      → History
      → List Str × End E
  unfolding print_events new
  syscall_monitor rx debug =
      main_of rx debug (codes "Monitoring specific syscalls from all processes")
