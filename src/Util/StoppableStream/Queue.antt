-- ===== src/Util/StoppableStream/Queue.antt =====
-- A stoppable stream over a channel that is a queue: which messages come before the stop signal.
use net_device_mapping.Prelude.{
  ◌≡◌, ◌⊎◌, inl, inr, refl, ap, Bool, true, false, List, [], ◌∷◌, ◌++◌, map, none, Result, ok, err,
  length, arith,
}
use net_device_mapping.Util.OneshotRecv.{Poll, ready, pending, from, poll, is_closed}
use net_device_mapping.Util.StoppableStream.{
  Receivers, RecvError, closed, select, selects, recv, recvs, new,
}

-- A broadcast receiver that does not lag behind: its messages are there in order, and it waits for more.
abbrev pub poll_queue : {T : Type 0} → List T → Poll (Result RecvError T) × List T
poll_queue [] = (pending, [])
poll_queue (x ∷ xs) = (ready (ok x), xs)

abbrev pub queue : {R T S : Type 0} → (R → Poll S × R) → Receivers (List T) R T S
queue poll_stop = record { poll_stream = poll_queue; poll_stop = poll_stop }

-- The answers that bring these messages.
abbrev pub oks : {T : Type 0} → List T → List (Poll (Result RecvError T))
oks = map (λ x. ready (ok x))

module _ {R S : Type 0} (poll_stop : R → Poll S × R) where
  -- The first wakes of these calls, which find a message: the stop signal is not there whenever it is polled
  -- before the channel, and its receiver goes from one state to another.
  pub data Undisturbed : List (List Bool) → R → R → Type 0 where
    no_call : {r : R} → Undisturbed [] r r
    stream_first :
        {orders : List Bool} {calls : List (List Bool)} {r r' : R}
        → Undisturbed calls r r'
        → Undisturbed ((false ∷ orders) ∷ calls) r r'
    stop_first :
        {orders : List Bool} {calls : List (List Bool)} {r r₁ r' : R}
        → poll_stop r ≡ (pending, r₁)
        → Undisturbed calls r₁ r'
        → Undisturbed ((true ∷ orders) ∷ calls) r r'

  module _ {T : Type 0} where
    -- The call that the stop signal answers: it polls the signal before the channel, or finds no message.
    abbrev pub IsAnswered : Bool → List T → R → Type 0
    IsAnswered order rest r =
        ((order ≡ true) ⊎ (rest ≡ []))
        × (signal : S) × (r' : R) × (poll_stop r ≡ (ready signal, r'))

    -- The answers after the signal was taken.
    stopped : List (List Bool) → List (Poll (Result RecvError T))
    stopped later =
        (recvs (queue {T = T} poll_stop) later
          (record { stream = none; stop = record { receiver = none } })).0

    -- The calls before the stop signal bring one message each, in order, and the next one ends the stream.
    pub recvs-oks :
        (calls : List (List Bool)) (shown rest : List T) (order : Bool) (orders : List Bool)
        (later : List (List Bool)) (r r' : R)
        → length calls ≡ length shown
        → Undisturbed calls r r'
        → IsAnswered order rest r'
        → (after : List (Poll (Result RecvError T))) × ((recvs
              (queue poll_stop)
              (calls ++ (order ∷ orders) ∷ later)
              (new (shown ++ rest) r)).0
            ≡ oks shown ++ ready (err closed) ∷ after)
    unfolding stopped recvs recv selects select poll is_closed from new
    recvs-oks [] [] rest true orders later r r' e no_call (_, signal, r'', taken) =
        (stopped later, rw taken refl)
    recvs-oks [] [] rest false orders later r r' e no_call (inl turn, signal, r'', taken) =
        absurd (ground arith)
    recvs-oks [] [] rest false orders later r r' e no_call (inr none_left, signal, r'', taken) =
        (stopped later, rw (none_left, taken) refl)
    recvs-oks ((false ∷ _) ∷ calls) (x ∷ shown) rest order orders later r r' e (stream_first u) a =
        let (after, rest_of) =
          recvs-oks calls shown rest order orders later r r' (omega arith) u a in
        (after, ap (λ l. ready (ok x) ∷ l) rest_of)
    recvs-oks ((true ∷ _) ∷ calls) (x ∷ shown) rest order orders later r r' e
          (stop_first {r₁} quiet u) a =
        let (after, rest_of) =
          recvs-oks calls shown rest order orders later r₁ r' (omega arith) u a in
        (after, rw quiet (ap (λ l. ready (ok x) ∷ l) rest_of))
    recvs-oks [] (x ∷ shown) rest order orders later r r' e u a = absurd (ground arith)
    recvs-oks ([] ∷ calls) (x ∷ shown) rest order orders later r r' e u a = elim u [ ]
    recvs-oks (call ∷ calls) [] rest order orders later r r' e u a = absurd (ground arith)
