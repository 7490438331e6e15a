-- ===== src/NsidMonitor/Delivery.antt =====
-- What a receiver of the id events of src/nsid_monitor.rs gets.
use mathlib.Core.List.{append_assoc, append-nil}
use net_device_mapping.Channel.{Sender, send}
use net_device_mapping.Netlink.{NetlinkPayload}
use net_device_mapping.NsidMonitor.{NetnsIdEvent, event_of, handle_message, monitor_netns_ids}
use net_device_mapping.NsidMonitor.Messages.{Announce, filter_map-Announce}
use net_device_mapping.Prelude.{
  ℕ, ◌≡◌, inl, inr, true, List, [], ◌∷◌, ◌++◌, filter_map, arith, length, Option-cases,
}

pub sent_lem :
    (messages : List NetlinkPayload) (s : Sender NetnsIdEvent)
    → ((n : ℕ) → s.listening n ≡ true)
    → (monitor_netns_ids messages s).sent ≡ s.sent ++ filter_map event_of messages
unfolding monitor_netns_ids handle_message send filter_map
sent_lem [] s h = ground (arith, append-nil s.sent)
sent_lem (message ∷ messages) s h = elim (Option-cases (event_of message)) [
  | inl absent ↦ ground (arith, sent_lem messages s h)
  | inr (e, found) ↦ ground (
    arith,
    h (length s.sent),
    sent_lem messages (record s { sent = s.sent ++ e ∷ [] }) h,
    append_assoc s.sent (e ∷ []) (filter_map event_of messages),
  )
]

-- While somebody listens, the monitor sends the events that the kernel's messages announce, in the order of
-- the messages, and nothing else: an id that is added for each new namespace id and one that is removed for
-- each deleted one, the first id attribute as a u32, and none for a message of another kind or without an
-- id.
pub monitor_netns_ids-sent :
    (messages : List NetlinkPayload) (s : Sender NetnsIdEvent)
    → ((n : ℕ) → s.listening n ≡ true)
    → (events : List NetnsIdEvent) × Announce messages events
      × ((monitor_netns_ids messages s).sent ≡ s.sent ++ events)
monitor_netns_ids-sent messages s h =
    (filter_map event_of messages, filter_map-Announce messages, sent_lem messages s h)
