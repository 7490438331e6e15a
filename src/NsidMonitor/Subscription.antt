-- ===== src/NsidMonitor/Subscription.antt =====
-- The set-up of `monitor_netns_ids` of src/nsid_monitor.rs: a socket that is bound and joins the group
-- of the messages about namespace ids, before the loop over its messages.
use net_device_mapping.Channel.{Sender}
use net_device_mapping.Host.{IoError}
use net_device_mapping.Netlink.{NetlinkPayload}
use net_device_mapping.NsidMonitor.{NetnsIdEvent, monitor_netns_ids}
use net_device_mapping.Prelude.{ℕ, ◌%◌, ◌^◌, List, Result, ok, map_err, ◌>>=◌}

-- What the program asks of its socket: the port and the groups of the address that it is bound to, and
-- the group that it joins.
pub record RouteSocket : Type 0 where
  pub new_connection : Result IoError (Unit {0})
  pub bind : ℕ → ℕ → Result IoError (Unit {0})
  pub add_membership : ℕ → Result IoError (Unit {0})
  -- `libc::RTNLGRP_NSID`
  pub rtnlgrp_nsid : ℕ

pub data MonitorError : Type 0 where
  netlink : IoError → MonitorError
  io : IoError → MonitorError

unfoldable pub subscribe : RouteSocket → Result MonitorError (Unit {0})
subscribe socket = do
  _ ← map_err io socket.new_connection
  _ ← map_err io (socket.bind 0 0)
  map_err io (socket.add_membership (socket.rtnlgrp_nsid % 2 ^ 32))

-- The messages of a socket that has not joined the group are never looked at.
unfoldable pub start :
    RouteSocket
    → List NetlinkPayload
    → Sender NetnsIdEvent
    → Result MonitorError (Sender NetnsIdEvent)
start socket messages sender = do _ ← subscribe socket; ok (monitor_netns_ids messages sender)
