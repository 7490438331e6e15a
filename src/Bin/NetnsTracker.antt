-- ===== src/Bin/NetnsTracker.antt =====
-- `main` of src/bin/netns_tracker.rs: the set-up of the monitors and of the tracker, the requests for states,
-- the loop that shows the states, and the wait for the four futures. The set-up's parts and the futures are
-- given by their results, the calls of `recv` by their wakes.
pub mod Shown
pub mod Answered
use net_device_mapping.Bin.Display.{Command, print, display}
use net_device_mapping.Bin.PrintEvents.{History}
use net_device_mapping.Channel.{Sender, send}
use net_device_mapping.HashSet.{HashSet}
use net_device_mapping.Netns.{NetworkNamespace}
use net_device_mapping.Path.{Str, PathBuf, codes}
use net_device_mapping.Prelude.{
  ℕ, zero, suc, Bool, true, false, List, [], ◌∷◌, ◌++◌, Option, none, some, Result, ok, err, ◌>>=◌,
  if◌then◌else◌,
}
use net_device_mapping.Util.OneshotRecv.{Poll, ready, pending}
use net_device_mapping.Util.StoppableStream.{StoppableStream, Receivers, recv, new}

-- The task that asks for states, over the ticks of its interval; it ends where nobody listens.
unfoldable pub request_states : ℕ → Sender (Unit {0}) → Sender (Unit {0})
unfolding send
request_states zero state_req_tx = state_req_tx
request_states (suc ticks) state_req_tx =
    let (state_req_tx', is_ok) = send tt state_req_tx in
    let rest = request_states ticks state_req_tx' in if is_ok then rest else state_req_tx'

-- What `main` asks to be set up, in the order in which a `?` may return.
pub record SetUp (E B : Type 0) : Type 0 where
  pub syscalls : Result E (Unit {0})
  pub nsid_events : Result E (Unit {0})
  pub mounts : Result E (Unit {0})
  -- The receiver of states of `monitor_network_namespaces`.
  pub tracker : Result E B
  pub handler : Result E (Unit {0})

-- The results of the four futures, if they come; `none` if the task that joins them panicked.
abbrev pub Joined : Type 0 → Type 0
Joined F =
    Poll (
      Option
        (Result F (Unit {0}) × Result F (Unit {0}) × Result F (Unit {0}) × Result F (Unit {0})))

pub data End (E : Type 0) : Type 0 where
  returned : Result E (Unit {0}) → End E
  panicked : End E
  waiting : End E

-- `handle.await.unwrap()` and the four `unwrap`s.
abbrev pub shut_down : {E F : Type 0} → Joined F → End E
shut_down pending = waiting
shut_down (ready none) = panicked
shut_down (ready (some (ok _, ok _, ok _, ok _))) = returned (ok tt)
shut_down (ready (some (err _, r₂, r₃, r₄))) = panicked
shut_down (ready (some (ok _, err _, r₃, r₄))) = panicked
shut_down (ready (some (ok _, ok _, err _, r₄))) = panicked
shut_down (ready (some (ok _, ok _, ok _, err _))) = panicked

abbrev pub heading : Command
heading = print (codes "Monitoring changes to network namespaces\n")

module _ {B R S : Type 0} (rx : Receivers B R (List NetworkNamespace) S) where
  -- The states that the loop shows, and whether it has ended.
  unfoldable pub receive_states :
      History → StoppableStream B R → List (List NetworkNamespace) × Bool
  receive_states [] states = ([], false)
  receive_states (orders ∷ history) states =
      let (answer, states') = recv rx orders states in
      let (rest, ended) = receive_states history states' in
      elim answer [
        | ready (ok namespaces) ↦ (namespaces ∷ rest, ended)
        | ready (err _) ↦ ([], true)
        | pending ↦ ([], false)
      ]

  abbrev pub watch :
      {E F : Type 0}
      → (HashSet PathBuf → Str)
      → Joined F
      → List (List NetworkNamespace) × Bool
      → List Command × End E
  watch debug joined (states, ended) =
      (heading ∷ display debug none states, if ended then shut_down joined else waiting)

  -- What reaches the terminal, and how `main` stands.
  unfoldable pub main :
      {E F : Type 0}
      → (HashSet PathBuf → Str)
      → SetUp E B
      → R
      → History
      → Joined F
      → List Command × End E
  unfolding receive_states new
  main debug set_up stop_rx history joined =
      elim (do
        _ ← set_up.syscalls
        _ ← set_up.nsid_events
        _ ← set_up.mounts
        state_rx ← set_up.tracker
        _ ← set_up.handler
        ok state_rx) [
          | err e ↦ ([], returned (err e))
          | ok state_rx ↦ watch debug joined (receive_states history (new state_rx stop_rx))
        ]
