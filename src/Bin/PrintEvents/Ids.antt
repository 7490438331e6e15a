-- ===== src/Bin/PrintEvents/Ids.antt =====
-- From the kernel's messages to the lines of src/bin/nsid_monitor.rs: the loop of src/nsid_monitor.rs sends
-- the events of the messages, and the program prints them as they come.
use mathlib.Core.List.{append-nil}
use net_device_mapping.Bin.PrintEvents.{History, returned, main_of, nsid_monitor}
use net_device_mapping.Bin.PrintEvents.Printed.{main_of-delivered}
use net_device_mapping.Channel.{Sender}
use net_device_mapping.Netlink.{NetlinkPayload}
use net_device_mapping.NsidMonitor.{NetnsIdEvent, monitor_netns_ids}
use net_device_mapping.NsidMonitor.Messages.{Announce, Announce-filter_map}
use net_device_mapping.NsidMonitor.Delivery.{sent_lem}
use net_device_mapping.Path.{Str, codes}
use net_device_mapping.Prelude.{
  ℕ, ◌≡◌, ap, sym, ◌∙◌, Bool, true, List, [], ◌∷◌, ◌++◌, map, length, ok,
}
use net_device_mapping.Util.OneshotRecv.{Poll}
use net_device_mapping.Util.StoppableStream.{closed}
use net_device_mapping.Util.StoppableStream.Queue.{queue, Undisturbed, IsAnswered, recvs-oks}

-- A channel that has sent nothing yet.
abbrev fresh : (ℕ → Bool) → Sender NetnsIdEvent
fresh listening = record { sent = []; listening = listening }

-- What the monitor sends for the kernel's messages.
abbrev pub sent_for : (ℕ → Bool) → List NetlinkPayload → List NetnsIdEvent
sent_for listening messages = (monitor_netns_ids messages (fresh listening)).sent

-- The program that monitors namespace ids prints its heading and then the events that the kernel's messages
-- announce. Stopped after some calls of `recv`, each of which finds a message before the stop signal, it has
-- printed as many events as it made calls, the first ones, in their order, none left out and none twice; it
-- prints no more and returns Ok. The stop signal comes at a call that polls it first, or when all is
-- printed. The monitor had a listening receiver all the time, and its receiver did not lag behind.
pub nsid_monitor-messages :
    {R S : Type 0} (E : Type 0) (poll_stop : R → Poll S × R) (debug : NetnsIdEvent → Str)
    (messages : List NetlinkPayload) (listening : ℕ → Bool) (printed rest : List NetnsIdEvent)
    (calls : History) (order : Bool) (orders : List Bool) (later : History) (stop_rx r : R)
    → ((n : ℕ) → listening n ≡ true)
    → Announce messages (printed ++ rest)
    → length calls ≡ length printed
    → Undisturbed poll_stop calls stop_rx r
    → IsAnswered poll_stop order rest r
    → nsid_monitor {E = E}
        (queue poll_stop)
        debug
        (ok (sent_for listening messages))
        (ok tt)
        stop_rx
        (calls ++ (order ∷ orders) ∷ later)
      ≡ (codes "Monitoring namespaces id changes" ∷ map debug printed, returned (ok tt))
unfolding nsid_monitor
nsid_monitor-messages E poll_stop debug messages listening printed rest calls order orders later
      stop_rx r present announced count u stop =
    let (after, e) =
      recvs-oks poll_stop calls printed rest order orders later stop_rx r count u stop in
    let history = calls ++ (order ∷ orders) ∷ later in
    let heading = codes "Monitoring namespaces id changes" in
    rw (sent_lem messages (fresh listening) present, Announce-filter_map announced)
      (ap (main_of (queue poll_stop) debug heading (ok (printed ++ rest)) (ok tt) stop_rx)
          (sym (append-nil history))
        ∙ main_of-delivered (queue poll_stop) E debug heading (printed ++ rest) stop_rx history []
            printed closed after e)
