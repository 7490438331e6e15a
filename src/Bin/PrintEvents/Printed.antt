-- ===== src/Bin/PrintEvents/Printed.antt =====
-- What the programs of src/bin that print events have printed when they were stopped.
use net_device_mapping.Bin.PrintEvents.{History, returned, print_events, main_of}
use net_device_mapping.Path.{Str}
use net_device_mapping.Prelude.{
  ◌⊎◌, inl, inr, zero, suc, ◌≡◌, refl, ap, ◌∙◌, true, List, [], ◌∷◌, ◌++◌, map, Result, ok, err,
  length, arith,
}
use net_device_mapping.Util.OneshotRecv.{Poll, ready, pending, is_closed}
use net_device_mapping.Util.OneshotRecv.Fused.{repeat}
use net_device_mapping.Util.StoppableStream.{
  StoppableStream, Receivers, RecvError, closed, recv, recvs, new,
}
use net_device_mapping.Util.StoppableStream.Queue.{oks}
use net_device_mapping.Util.StoppableStream.Stop.{recvs-stopped}

-- The events before the first answer that is none: an error, or no answer yet.
abbrev pub delivered : {T : Type 0} → List (Poll (Result RecvError T)) → List T
delivered [] = []
delivered (ready (ok event) ∷ answers) = event ∷ delivered answers
delivered (ready (err _) ∷ answers) = []
delivered (pending ∷ answers) = []

pub delivered-repeat :
    {T : Type 0} (answers : List (Poll (Result RecvError T))) (n : _)
    → delivered (answers ++ repeat n (ready (err closed))) ≡ delivered answers
delivered-repeat [] zero = refl
delivered-repeat [] (suc n) = refl
delivered-repeat (ready (ok event) ∷ answers) n = ap (λ l. event ∷ l) (delivered-repeat answers n)
delivered-repeat (ready (err _) ∷ answers) n = refl
delivered-repeat (pending ∷ answers) n = refl

pub answer_cases :
    {T : Type 0} (answer : Poll (Result RecvError T))
    → ((event : T) × (answer ≡ ready (ok event)))
      ⊎ (((error : RecvError) × (answer ≡ ready (err error))) ⊎ (answer ≡ pending))
answer_cases (ready (ok event)) = inl (event, refl)
answer_cases (ready (err error)) = inr (inl (error, refl))
answer_cases pending = inr (inr refl)

pub cons-head : {T : Type 0} {x y : T} {xs ys : List T} → ◌≡◌ {A = List T} (x ∷ xs) (y ∷ ys) → x ≡ y
cons-head e = cc

pub cons-tail :
    {T : Type 0} {x y : T} {xs ys : List T} → ◌≡◌ {A = List T} (x ∷ xs) (y ∷ ys) → xs ≡ ys
cons-tail e = cc

module _ {B R T S : Type 0} (rx : Receivers B R T S) where
  pub recvs-append :
      (history later : History) (s : StoppableStream B R)
      → (recvs rx (history ++ later) s).0
        ≡ (recvs rx history s).0 ++ (recvs rx later (recvs rx history s).1).0
  unfolding recvs
  recvs-append [] later s = refl
  recvs-append (orders ∷ history) later s =
      ap (λ l. (recv rx orders s).0 ∷ l) (recvs-append history later (recv rx orders s).1)

  module _ (E : Type 0) (debug : T → Str) where
    print_events-delivered :
        (history : History) (s : StoppableStream B R)
        → (print_events {E = E} rx debug history s).0 ≡ map debug (delivered (recvs rx history s).0)
    unfolding print_events recvs
    print_events-delivered [] s = refl
    print_events-delivered (orders ∷ history) s =
        let rest = print_events-delivered history (recv rx orders s).1 in
        elim (answer_cases (recv rx orders s).0) [
          | inl (event, e) ↦ ground (arith, e, rest)
          | inr (inl (error, e)) ↦ ground (arith, e)
          | inr (inr e) ↦ ground (arith, e)
        ]

    -- The loop prints the events up to the first error of its stream and ends there.
    print_events-ended :
        (history later : History) (s : StoppableStream B R) (shown : List T) (error : RecvError)
        (after : List (Poll (Result RecvError T)))
        → (recvs rx history s).0 ≡ oks shown ++ ready (err error) ∷ after
        → print_events {E = E} rx debug (history ++ later) s ≡ (map debug shown, returned (ok tt))
    unfolding print_events recvs
    print_events-ended [] later s [] error after e = absurd (ground arith)
    print_events-ended [] later s (x ∷ shown) error after e = absurd (ground arith)
    print_events-ended (orders ∷ history) later s [] error after e =
        rw (print_events, cons-head e) refl
    print_events-ended (orders ∷ history) later s (x ∷ shown) error after e =
        rw
          (
            print_events,
            cons-head e,
            print_events-ended history later (recv rx orders s).1 shown error after (cons-tail e),
          )
          refl

    pub main_of-stopped :
        (heading : Str) (events : B) (stop_rx : R) (history later : History)
        → is_closed (recvs rx history (new events stop_rx)).1.stop ≡ true
        → (main_of {E = E} rx debug heading (ok events) (ok tt) stop_rx (history ++ later)).0
          ≡ heading ∷ map debug (delivered (recvs rx history (new events stop_rx)).0)
    main_of-stopped heading events stop_rx history later taken =
        let (gone, ended) = recvs-stopped rx history later events stop_rx taken in
        let answers = (recvs rx history (new events stop_rx)).0 in
        ap (λ l. heading ∷ l)
          (print_events-delivered (history ++ later) (new events stop_rx)
            ∙ ap (λ l. map debug (delivered l))
                (recvs-append history later (new events stop_rx) ∙ ap (λ r. answers ++ r.0) ended)
            ∙ ap (map debug) (delivered-repeat answers (length later)))

    -- A program that prints events, whose monitor and ctrl-c handler were set up, prints its heading and the
    -- events that its stream answers before its first error, in their order and each on a line of its own,
    -- and then returns Ok, whatever would come after. The error may be the end of the channel, the stop
    -- signal, or a lag behind the channel: an event that comes after a lag is not printed.
    pub main_of-delivered :
        (heading : Str) (events : B) (stop_rx : R) (history later : History) (shown : List T)
        (error : RecvError) (after : List (Poll (Result RecvError T)))
        → (recvs rx history (new events stop_rx)).0 ≡ oks shown ++ ready (err error) ∷ after
        → main_of {E = E} rx debug heading (ok events) (ok tt) stop_rx (history ++ later)
          ≡ (heading ∷ map debug shown, returned (ok tt))
    main_of-delivered heading events stop_rx history later shown error after e =
        ap (λ p. (heading ∷ p.0, p.1))
          (print_events-ended history later (new events stop_rx) shown error after e)
