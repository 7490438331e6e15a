-- ===== src/Tracker/Streams.antt =====
-- The stream of events that monitor_network_namespaces of src/netns_tracker.rs listens to: four broadcast
-- receivers, turned into events and merged. An item of a receiver is a message, or the count of those that
-- it lost because it lagged behind.
pub mod Delivery
use net_device_mapping.MountMonitor.{MountChange}
use net_device_mapping.NsidMonitor.{NetnsIdEvent}
use net_device_mapping.Prelude.{ℕ, List, [], ◌∷◌, map, filter, filter_map, Result, to_option}
use net_device_mapping.SyscallMonitor.{EbpfEvent}
use net_device_mapping.Tracker.Events.{
  Event, netns_id_event, mount_change, syscall, state_requested, is_relevant,
}

-- `tokio_stream::wrappers::BroadcastStream`, by the items that it has yielded.
abbrev pub BroadcastStream {ℓ} : Type ℓ → Type ℓ
BroadcastStream A = List (Result ℕ A)

-- `filter_map(async |x| x.ok())`: that messages were lost is passed over.
unfoldable pub received {ℓ} : {A : Type ℓ} → BroadcastStream A → List A
unfolding filter_map
received = filter_map to_option

unfoldable pub state_requests : BroadcastStream (Unit {0}) → List Event
unfolding received
state_requests items = map (λ _. state_requested) (received items)

unfoldable pub nsid_events : BroadcastStream NetnsIdEvent → List Event
unfolding received
nsid_events items = map netns_id_event (received items)

unfoldable pub mount_events : BroadcastStream MountChange → List Event
unfolding received is_relevant
mount_events items = map mount_change (filter is_relevant (received items))

unfoldable pub syscalls : BroadcastStream EbpfEvent → List Event
unfolding received
syscalls items = map syscall (received items)

-- `tokio_stream::StreamExt::merge`: either stream's next item is the next one, and no order between the
-- two is promised.
pub data Merge {ℓ} {A : Type ℓ} : List A → List A → List A → Type ℓ where
  done : Merge [] [] []
  left : {x : A} {xs ys zs : List A} → Merge xs ys zs → Merge (x ∷ xs) ys (x ∷ zs)
  right : {y : A} {xs ys zs : List A} → Merge xs ys zs → Merge xs (y ∷ ys) (y ∷ zs)

-- The four receivers, and the events that the merged stream yields for them.
pub record Sources : Type 0 where
  pub nsids : BroadcastStream NetnsIdEvent
  pub mounts : BroadcastStream MountChange
  pub calls : BroadcastStream EbpfEvent
  pub requests : BroadcastStream (Unit {0})

pub record IsMerged (sources : Sources) (events : List Event) : Type 0 where
  pub first : List Event
  pub second : List Event
  pub with_mounts : Merge (nsid_events sources.nsids) (mount_events sources.mounts) first
  pub with_syscalls : Merge first (syscalls sources.calls) second
  pub with_requests : Merge second (state_requests sources.requests) events
