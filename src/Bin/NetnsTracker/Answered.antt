-- ===== src/Bin/NetnsTracker/Answered.antt =====
-- From the tracker to the terminal: what src/bin/netns_tracker.rs shows are the states that the tracker sent.
use net_device_mapping.Bin.Display.{display}
use net_device_mapping.Bin.NetnsTracker.{
  SetUp, Joined, returned, shut_down, heading, request_states, main,
}
use net_device_mapping.Bin.NetnsTracker.Shown.{AllOk, IsSetUp, shut_down-AllOk, main-ended}
use net_device_mapping.Bin.PrintEvents.{History}
use net_device_mapping.Channel.{Sender, send}
use net_device_mapping.HashSet.{HashSet}
use net_device_mapping.Netns.{NetworkNamespace}
use net_device_mapping.Path.{Str, PathBuf}
use net_device_mapping.Prelude.{
  ℕ, zero, suc, ◌+◌, ◌≡◌, sym, ◌∙◌, ap, Bool, List, [], ◌∷◌, ◌++◌, none, ok, length, arith,
  length-append,
}
use net_device_mapping.Tracker.Answers.{requests, track-Sends}
use net_device_mapping.Tracker.Events.{Tracker, Wake, track}
use net_device_mapping.Tracker.Mirror.Merged.{IsOpen, AlwaysListening}
use net_device_mapping.Util.OneshotRecv.{Poll}
use net_device_mapping.Util.StoppableStream.{closed, recvs, new}
use net_device_mapping.Util.StoppableStream.Queue.{queue, Undisturbed, IsAnswered, recvs-oks}

-- While the tracker listens, the task that asks for states sends one request for each tick.
request_states-length :
    (ticks : ℕ) (s : Sender (Unit {0}))
    → AlwaysListening s
    → length (request_states ticks s).sent ≡ length s.sent + ticks
unfolding request_states send
request_states-length zero s l = omega arith
request_states-length (suc ticks) s l =
    let rest = request_states-length ticks (record s { sent = s.sent ++ tt ∷ [] }) l in
    ground (arith, l (length s.sent), rest, length-append s.sent (tt ∷ []))

-- The program shows the states that the tracker sent in answer to its requests. Stopped after some calls of
-- `recv`, each of which finds a state before the stop signal, it has shown as many states as it made calls,
-- the first ones, in their order, none left out and none twice; it shows no more, and returns Ok exactly if
-- all four futures did. The tracker sent one state for each request. The stop signal comes at a call that
-- polls it first, or when all states are shown. All parts had been set up, the tracker met no error and had
-- sent nothing before, its receiver of states was there all the time and did not lag behind.
pub main-answers :
    {R S : Type 0} (E F : Type 0) (poll_stop : R → Poll S × R) (debug : HashSet PathBuf → Str)
    (wakes : List Wake) (t t' : Tracker) (set_up : SetUp E (List (List NetworkNamespace)))
    (shown rest : List (List NetworkNamespace)) (calls : History) (order : Bool)
    (orders : List Bool) (later : History) (stop_rx r : R) (joined : Joined F)
    → t.responses.sent ≡ []
    → IsOpen wakes
    → AlwaysListening t.responses
    → track wakes t ≡ ok t'
    → IsSetUp set_up t'.responses.sent
    → t'.responses.sent ≡ shown ++ rest
    → length calls ≡ length shown
    → Undisturbed poll_stop calls stop_rx r
    → IsAnswered poll_stop order rest r
    → (length shown + length rest ≡ requests wakes)
      × ((main (queue poll_stop) debug set_up stop_rx (calls ++ (order ∷ orders) ∷ later) joined).0
          ≡ heading ∷ display debug none shown)
      × ((main (queue poll_stop) debug set_up stop_rx (calls ++ (order ∷ orders) ∷ later) joined).1
            ≡ returned (ok tt)
          → AllOk joined)
      × (AllOk joined
          → (main
              (queue poll_stop)
              debug
              set_up
              stop_rx
              (calls ++ (order ∷ orders) ∷ later)
              joined).1
            ≡ returned (ok tt))
main-answers E F poll_stop debug wakes t t' set_up shown rest calls order orders later stop_rx r
      joined nothing o l run u split count quiet stop =
    let (answers, sent, answered) = track-Sends wakes t o l run in
    let (after, e) =
      recvs-oks poll_stop calls shown rest order orders later stop_rx r count quiet stop in
    let ended =
      main-ended (queue poll_stop) E F debug set_up t'.responses.sent stop_rx
        (calls ++ (order ∷ orders) ∷ later) joined shown closed after u
        (ap (λ b. (recvs (queue poll_stop) (calls ++ (order ∷ orders) ∷ later) (new b stop_rx)).0)
            split
          ∙ e) in
    (
      omega (
        arith,
        length-append shown rest,
        ap length split,
        ap (λ r. length r.sent) sent,
        length-append t.responses.sent answers,
        ap length nothing,
        answered,
      ),
      ap (λ m. m.0) ended,
      λ success. shut_down-AllOk joined (sym (ap (λ m. m.1) ended) ∙ success),
      λ all_ok. ap (λ m. m.1) ended ∙ ap shut_down all_ok,
    )
