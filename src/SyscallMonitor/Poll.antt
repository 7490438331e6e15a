-- ===== src/SyscallMonitor/Poll.antt =====
-- `poll_messages` of src/syscall_monitor.rs, over what wakes its loop.
use net_device_mapping.Channel.{Sender, send}
use net_device_mapping.Host.{IoError}
use net_device_mapping.Prelude.{
  ℕ, Bool, true, false, List, [], ◌∷◌, Result, ok, err, ◌>>=◌, if◌then◌else◌,
}
use net_device_mapping.SyscallMonitor.{EbpfEvent}
use net_device_mapping.SyscallMonitor.Layout.{Undefined, decode}

-- What wakes the loop: no receiver is left, the items that the ring buffer then yields, or an error of
-- the file descriptor.
pub data Wake : Type 0 where
  closed : Wake
  readable : List (List ℕ) → Wake
  failed : IoError → Wake

-- The items of one wake; `false` breaks the outer loop. The read of an item may be undefined.
unfoldable pub send_items :
    List (List ℕ) → Sender EbpfEvent → Result Undefined (Sender EbpfEvent × Bool)
send_items [] sender = ok (sender, true)
send_items (item ∷ items) sender = do
  event ← decode item
  let (sender', is_ok) = send event sender
  let rest = send_items items sender'
  if is_ok then rest else ok (sender', false)

-- How the loop stands: it waits for a wake, or its future returned.
pub data Loop : Type 0 where
  waiting : Sender EbpfEvent → Loop
  finished : Result IoError (Unit {0}) → Sender EbpfEvent → Loop

unfoldable pub poll_messages : List Wake → Sender EbpfEvent → Result Undefined Loop
poll_messages [] sender = ok (waiting sender)
poll_messages (closed ∷ wakes) sender = ok (finished (ok tt) sender)
poll_messages (failed e ∷ wakes) sender = ok (finished (err e) sender)
poll_messages (readable items ∷ wakes) sender = do
  (sender', is_ok) ← send_items items sender
  let rest = poll_messages wakes sender'
  if is_ok then rest else ok (finished (ok tt) sender')
