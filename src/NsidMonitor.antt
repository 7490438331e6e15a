-- ===== src/NsidMonitor.antt =====
-- src/nsid_monitor.rs: the events about namespace ids, read off the kernel's RTNLGRP_NSID messages.
pub mod Delivery
pub mod Messages
pub mod Subscription
use net_device_mapping.Channel.{Sender, send}
use net_device_mapping.Host.{NsId}
use net_device_mapping.Netlink.{
  as_u32, NsidAttribute, id, new_nsid, del_nsid, NetlinkPayload, inner_message,
}
use net_device_mapping.Prelude.{Bool, true, List, [], ◌∷◌, Option, none, some, if◌then◌else◌}
use mathlib.Core.Option

pub data NetnsIdEvent : Type 0 where
  added : NsId → NetnsIdEvent
  removed : NsId → NetnsIdEvent

unfoldable pub extract_nsid_from_attrs : List NsidAttribute → Option NsId
extract_nsid_from_attrs [] = none
extract_nsid_from_attrs (id n ∷ attrs) = some (as_u32 n)
extract_nsid_from_attrs (_ ∷ attrs) = extract_nsid_from_attrs attrs

-- The event of a message, if it has one: the loop skips all other messages.
unfoldable pub event_of : NetlinkPayload → Option NetnsIdEvent
unfolding extract_nsid_from_attrs
event_of (inner_message (new_nsid attributes)) =
    Option.map added (extract_nsid_from_attrs attributes)
event_of (inner_message (del_nsid attributes)) =
    Option.map removed (extract_nsid_from_attrs attributes)
event_of _ = none

-- One turn of the loop: `false` breaks it, when the channel is closed.
unfoldable pub handle_message : NetlinkPayload → Sender NetnsIdEvent → Sender NetnsIdEvent × Bool
unfolding event_of send
handle_message message sender = elim (event_of message) [
  | some event ↦ send event sender
  | none ↦ (sender, true)
]

-- The loop, over the messages that arrive before it ends: the stream ends, or `send.closed()` wakes it.
unfoldable pub monitor_netns_ids : List NetlinkPayload → Sender NetnsIdEvent → Sender NetnsIdEvent
unfolding handle_message
monitor_netns_ids [] sender = sender
monitor_netns_ids (message ∷ messages) sender =
    let (sender', going) = handle_message message sender in
    let rest = monitor_netns_ids messages sender' in if going then rest else sender'
