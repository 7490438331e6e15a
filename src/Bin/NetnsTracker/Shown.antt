-- ===== src/Bin/NetnsTracker/Shown.antt =====
-- What src/bin/netns_tracker.rs has shown when it was stopped, and when it reports success.
use net_device_mapping.Bin.Display.{display}
use net_device_mapping.Bin.NetnsTracker.{
  SetUp, Joined, returned, shut_down, receive_states, heading, watch, main,
}
use net_device_mapping.Bin.PrintEvents.{History}
use net_device_mapping.Bin.PrintEvents.Printed.{cons-head, cons-tail}
use net_device_mapping.HashSet.{HashSet}
use net_device_mapping.Netns.{NetworkNamespace}
use net_device_mapping.Path.{Str, PathBuf}
use net_device_mapping.Prelude.{
  ◌≡◌, refl, ap, ◌∙◌, true, List, [], ◌∷◌, ◌++◌, none, some, Result, ok, err, arith,
}
use net_device_mapping.Util.OneshotRecv.{Poll, ready, pending}
use net_device_mapping.Util.StoppableStream.{
  StoppableStream, Receivers, RecvError, recv, recvs, new,
}
use net_device_mapping.Util.StoppableStream.Queue.{oks}

module _ {B R S : Type 0} (rx : Receivers B R (List NetworkNamespace) S) where
  -- The loop shows the states up to the first error of its stream and ends there.
  receive_states-ended :
      (history : History) (s : StoppableStream B R) (shown : List (List NetworkNamespace))
      (error : RecvError) (after : List (Poll (Result RecvError (List NetworkNamespace))))
      → (recvs rx history s).0 ≡ oks shown ++ ready (err error) ∷ after
      → receive_states rx history s ≡ (shown, true)
  unfolding receive_states recvs
  receive_states-ended [] s [] error after e = absurd (ground arith)
  receive_states-ended [] s (x ∷ shown) error after e = absurd (ground arith)
  receive_states-ended (orders ∷ history) s [] error after e = rw (receive_states, cons-head e) refl
  receive_states-ended (orders ∷ history) s (x ∷ shown) error after e =
      rw
        (
          receive_states,
          cons-head e,
          receive_states-ended history (recv rx orders s).1 shown error after (cons-tail e),
        )
        refl

abbrev pub AllOk : {F : Type 0} → Joined F → Type 0
AllOk joined = joined ≡ ready (some (ok tt, ok tt, ok tt, ok tt))

pub shut_down-AllOk :
    {E F : Type 0} (joined : Joined F) → shut_down {E = E} joined ≡ returned (ok tt) → AllOk joined
shut_down-AllOk pending e = absurd (ground arith)
shut_down-AllOk (ready none) e = absurd (ground arith)
shut_down-AllOk (ready (some (ok _, ok _, ok _, ok _))) e = refl
shut_down-AllOk (ready (some (err _, r₂, r₃, r₄))) e = absurd (ground arith)
shut_down-AllOk (ready (some (ok _, err _, r₃, r₄))) e = absurd (ground arith)
shut_down-AllOk (ready (some (ok _, ok _, err _, r₄))) e = absurd (ground arith)
shut_down-AllOk (ready (some (ok _, ok _, ok _, err _))) e = absurd (ground arith)

-- Every part was set up, with this receiver of states.
pub record IsSetUp {E B : Type 0} (set_up : SetUp E B) (state_rx : B) : Type 0 where
  pub syscalls : set_up.syscalls ≡ ok tt
  pub nsid_events : set_up.nsid_events ≡ ok tt
  pub mounts : set_up.mounts ≡ ok tt
  pub tracker : set_up.tracker ≡ ok state_rx
  pub handler : set_up.handler ≡ ok tt

module _ {B R S : Type 0} (rx : Receivers B R (List NetworkNamespace) S) (E F : Type 0)
    (debug : HashSet PathBuf → Str) where
  main-watch :
      (set_up : SetUp E B) (state_rx : B) (stop_rx : R) (history : History) (joined : Joined F)
      → IsSetUp set_up state_rx
      → main rx debug set_up stop_rx history joined
        ≡ watch rx debug joined (receive_states rx history (new state_rx stop_rx))
  unfolding main
  main-watch set_up state_rx stop_rx history joined u =
      rw (u.syscalls, u.nsid_events, u.mounts, u.tracker, u.handler) refl

  -- The program that watches the namespaces has written its heading and the display of every state that
  -- comes before the first error of its stream. It returns Ok exactly if all four futures did.
  pub main-ended :
      (set_up : SetUp E B) (state_rx : B) (stop_rx : R) (history : History) (joined : Joined F)
      (shown : List (List NetworkNamespace)) (error : RecvError)
      (after : List (Poll (Result RecvError (List NetworkNamespace))))
      → IsSetUp set_up state_rx
      → (recvs rx history (new state_rx stop_rx)).0 ≡ oks shown ++ ready (err error) ∷ after
      → main rx debug set_up stop_rx history joined
        ≡ (heading ∷ display debug none shown, shut_down joined)
  main-ended set_up state_rx stop_rx history joined shown error after u e =
      main-watch set_up state_rx stop_rx history joined u
      ∙ ap (watch rx debug joined)
          (receive_states-ended rx history (new state_rx stop_rx) shown error after e)
