-- ===== src/Tests/Watching.antt =====
-- The programs of src/bin that print events and that watch the namespaces, stopped after two items.
use net_device_mapping.Bin.Display.{Command, display}
use net_device_mapping.Bin.NetnsTracker.{
  SetUp, Joined, End, returned, panicked, heading, receive_states, main,
}
use net_device_mapping.Bin.NetnsTracker.Answered.{main-answers}
use net_device_mapping.Bin.NetnsTracker.Shown.{AllOk}
use net_device_mapping.Tracker.Answers.{requests}
use net_device_mapping.Tracker.Events.{Tracker, Wake, event, no_event, state_requested, track}
use net_device_mapping.Tracker.State.{current_state}
use net_device_mapping.Bin.PrintEvents
use net_device_mapping.Bin.PrintEvents.{print_events, nsid_monitor, main_of}
use net_device_mapping.Bin.PrintEvents.Printed.{main_of-delivered}
use net_device_mapping.HashSet.{HashSet}
use net_device_mapping.Bin.PrintEvents.Ids.{sent_for, nsid_monitor-messages}
use net_device_mapping.Netlink.{as_u32, pos, id, new_nsid, del_nsid, inner_message, NetlinkPayload}
use net_device_mapping.Netns.{NetworkNamespace}
use net_device_mapping.NsidMonitor
use net_device_mapping.NsidMonitor.Messages.{Announce, new_id, del_id, here, nothing}
use net_device_mapping.NsidMonitor.{NetnsIdEvent, event_of}
use net_device_mapping.Path.{Str, PathBuf, codes}
use net_device_mapping.Prelude.{
  ℕ, zero, suc, ◌+◌, ◌≡◌, refl, Bool, true, false, List, [], ◌∷◌, ◌++◌, ◌==◌, if◌then◌else◌, inl,
  ℕ_discrete, none, some, ok, err,
}
use net_device_mapping.Tests.Tracking.{found, host, started}
use net_device_mapping.Tests.Tracking
use net_device_mapping.Util.StoppableStream.Queue.{
  queue, oks, Undisturbed, no_call, stream_first, stop_first,
}
use net_device_mapping.Util.OneshotRecv.{Poll, ready, pending, from, poll, is_closed}
use net_device_mapping.Util.StoppableStream.{
  Receivers, closed, lagged, new, select, selects, recv, recvs,
}

program : Unit {0}
unfolding ℕ_discrete from poll is_closed new select selects recv recvs print_events nsid_monitor
    receive_states main
program = tt

-- The signal is there at the third poll.
abbrev countdown : ℕ → Poll (Unit {0}) × ℕ
countdown zero = (ready tt, 0)
countdown (suc n) = (pending, n)

abbrev ids : Receivers ℕ ℕ NetnsIdEvent (Unit {0})
ids = record { poll_stream = λ n. (ready (ok (NsidMonitor.added n)), suc n); poll_stop = countdown }

abbrev show : NetnsIdEvent → Str
show (NsidMonitor.added n) = codes "added"
show (NsidMonitor.removed n) = codes "removed"

-- The channel is polled first, twice, then the signal.
abbrev history : List (List Bool)
history = (false ∷ []) ∷ (false ∷ []) ∷ (true ∷ []) ∷ []

printed : nsid_monitor {E = ℕ} ids show (ok 5) (ok tt) 0 history ≡ (
  codes "Monitoring namespaces id changes" ∷ codes "added" ∷ codes "added" ∷ [],
  PrintEvents.returned (ok tt),
)
unfolding program
printed = refl

not_set_up :
    nsid_monitor {E = ℕ} ids show (err 7) (ok tt) 0 history ≡ ([], PrintEvents.returned (err 7))
unfolding program
not_set_up = refl

first_two :
    (recvs ids history (new 5 0)).0
    ≡ oks (NsidMonitor.added 5 ∷ NsidMonitor.added 6 ∷ []) ++ ready (err closed) ∷ []
unfolding program
first_two = refl

main_of-delivered_example :
    main_of {E = ℕ} ids show (codes "Ids") (ok 5) (ok tt) 0 (history ++ history)
    ≡ (codes "Ids" ∷ codes "added" ∷ codes "added" ∷ [], PrintEvents.returned (ok tt))
main_of-delivered_example =
    main_of-delivered ids ℕ show (codes "Ids") 5 0 history history
      (NsidMonitor.added 5 ∷ NsidMonitor.added 6 ∷ []) closed [] first_two

-- A receiver that lags after its first event: the program ends there, though the next event is at hand.
abbrev lagging : Receivers ℕ ℕ NetnsIdEvent (Unit {0})
lagging = record {
  poll_stream = λ n. (ready (if n == 6 then err (lagged 2) else ok (NsidMonitor.added n)), suc n);
  poll_stop = countdown;
}

lag_ends :
    nsid_monitor {E = ℕ} lagging show (ok 5) (ok tt) 9 (history ++ history)
    ≡ (codes "Monitoring namespaces id changes" ∷ codes "added" ∷ [], PrintEvents.returned (ok tt))
unfolding program
lag_ends = refl

abbrev states : Receivers ℕ ℕ (List NetworkNamespace) (Unit {0})
states = record { poll_stream = λ n. (ready (ok found), suc n); poll_stop = countdown }

abbrev debug : HashSet PathBuf → Str
debug paths = codes "{}"

abbrev set_up : SetUp ℕ ℕ
set_up = record {
  syscalls = ok tt;
  nsid_events = ok tt;
  mounts = ok tt;
  tracker = ok 5;
  handler = ok tt;
}

abbrev one_failed : Joined ℕ
one_failed = ready (some (ok tt, ok tt, err 7, ok tt))

-- A monitor's error shows when the program is stopped.
failed : (main states {E = ℕ} debug set_up 0 history one_failed).1 ≡ panicked
unfolding program
failed = refl

-- The tracker was asked three times.
abbrev asked : List Wake
asked =
    event Tracking.host state_requested
    ∷ event Tracking.host state_requested
    ∷ no_event
    ∷ event Tracking.host state_requested
    ∷ []

abbrev idle : Tracker
idle = record {
  state = started;
  mount_state = [];
  responses = record { sent = []; listening = λ n. true };
}

abbrev answered : Tracker
answered = record idle {
  responses = record {
    sent = current_state started ∷ current_state started ∷ current_state started ∷ [];
    listening = λ n. true;
  };
}

asked_run : track asked idle ≡ ok answered
unfolding program Tracking.program
asked_run = refl

abbrev connected : SetUp ℕ (List (List NetworkNamespace))
connected = record {
  syscalls = ok tt;
  nsid_events = ok tt;
  mounts = ok tt;
  tracker = ok answered.responses.sent;
  handler = ok tt;
}

-- Two calls that find a message; the signal is polled once, and comes at the second poll.
abbrev calls : List (List Bool)
calls = (true ∷ []) ∷ (false ∷ []) ∷ []

quiet : Undisturbed countdown calls 1 0
quiet = stop_first refl (stream_first no_call)

abbrev Watched : List Command × End ℕ → Type 0
Watched m =
    (2 + 1 ≡ requests asked)
    × (m.0 ≡ heading ∷ display debug none (current_state started ∷ current_state started ∷ []))
    × (m.1 ≡ returned (ok tt) → AllOk one_failed)
    × (AllOk one_failed → m.1 ≡ returned (ok tt))

main-answers_example :
    Watched
      (main (queue countdown) {E = ℕ} debug connected 1 (calls ++ (true ∷ []) ∷ history) one_failed)
main-answers_example =
    main-answers ℕ ℕ countdown debug asked idle answered connected
      (current_state started ∷ current_state started ∷ []) (current_state started ∷ []) calls true
      [] history 1 0 one_failed refl tt (λ n. refl) asked_run
      (record {
        syscalls = refl;
        nsid_events = refl;
        mounts = refl;
        tracker = refl;
        handler = refl;
      })
      refl refl quiet (inl refl, tt, 0, refl)

-- Two ids are given and the first is taken back.
abbrev messages : List NetlinkPayload
messages =
    inner_message (new_nsid (id (pos 3) ∷ []))
    ∷ inner_message (new_nsid (id (pos 4) ∷ []))
    ∷ inner_message (del_nsid (id (pos 3) ∷ []))
    ∷ []

abbrev listening : ℕ → Bool
listening n = true

announced : Announce messages (
    (NsidMonitor.added (as_u32 (pos 3)) ∷ NsidMonitor.added (as_u32 (pos 4)) ∷ [])
    ++ NsidMonitor.removed (as_u32 (pos 3)) ∷ [])
announced = new_id here (new_id here (del_id here nothing))

nsid_monitor-messages_example :
    nsid_monitor {E = ℕ}
      (queue countdown)
      show
      (ok (sent_for listening messages))
      (ok tt)
      1
      (calls ++ (true ∷ []) ∷ history)
    ≡ (
      codes "Monitoring namespaces id changes" ∷ codes "added" ∷ codes "added" ∷ [],
      PrintEvents.returned (ok tt),
    )
nsid_monitor-messages_example =
    nsid_monitor-messages ℕ countdown show messages listening
      (NsidMonitor.added (as_u32 (pos 3)) ∷ NsidMonitor.added (as_u32 (pos 4)) ∷ [])
      (NsidMonitor.removed (as_u32 (pos 3)) ∷ []) calls true [] history 1 0 (λ n. refl) announced
      refl quiet (inl refl, tt, 0, refl)
