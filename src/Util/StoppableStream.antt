-- ===== src/Util/StoppableStream.antt =====
-- src/util/stoppable_stream.rs, over the channel's receiver and the stop signal's: what a poll of each
-- answers. `select!` polls its two branches in an order that it draws at each wake.
pub mod Queue
pub mod Stop
use net_device_mapping.Prelude.{
  ℕ, Bool, true, false, List, [], ◌∷◌, Option, none, some, Result, ok, err, if◌then◌else◌,
}
use net_device_mapping.Util.OneshotRecv.{Poll, ready, pending, OneshotRecv, from, poll, is_closed}

-- `tokio::sync::broadcast::error::RecvError`
pub data RecvError : Type 0 where
  closed : RecvError
  lagged : ℕ → RecvError

pub record StoppableStream (B R : Type 0) : Type 0 where
  pub stream : Option B
  pub stop : OneshotRecv R

module _ {B R : Type 0} where
  -- The receiver of the signal is that of a fresh `oneshot()`.
  unfoldable pub new : B → R → StoppableStream B R
  unfolding from
  new stream stop_rx = record { stream = some stream; stop = from stop_rx }

  -- `inner` and `inner_mut`.
  unfoldable pub inner : StoppableStream B R → Option B
  inner s = s.stream

  unfoldable pub into_inner : StoppableStream B R → Option B × OneshotRecv R
  into_inner s = (s.stream, s.stop)

  unfoldable pub from_inner : Option B → OneshotRecv R → StoppableStream B R
  from_inner stream stop = record { stream = stream; stop = stop }

-- The two receivers: a signal is a value or the loss of its sender, and both count.
pub record Receivers (B R T S : Type 0) : Type 0 where
  pub poll_stream : B → Poll (Result RecvError T) × B
  pub poll_stop : R → Poll S × R

-- How a wake of `select!` leaves it: with an answer and the fields, or waiting again.
pub data Selected (B R T : Type 0) : Type 0 where
  answered : Result RecvError T → Option B → OneshotRecv R → Selected B R T
  again : B → OneshotRecv R → Selected B R T

module _ {B R T S : Type 0} (rx : Receivers B R T S) where
  abbrev stop_polled : Poll S × OneshotRecv R → B → Selected B R T
  stop_polled (ready _, stop) b = answered (err closed) none stop
  stop_polled (pending, stop) b = again b stop

  abbrev stream_polled : Poll (Result RecvError T) × B → OneshotRecv R → Selected B R T
  stream_polled (ready result, b) stop = answered result (some b) stop
  stream_polled (pending, b) stop = again b stop

  abbrev stream_last : Selected B R T → Selected B R T
  stream_last (answered result stream stop) = answered result stream stop
  stream_last (again b stop) = stream_polled (rx.poll_stream b) stop

  abbrev stop_last : Selected B R T → Selected B R T
  stop_last (answered result stream stop) = answered result stream stop
  stop_last (again b stop) = stop_polled (poll rx.poll_stop stop) b

  -- One poll of the `select!`; `true` draws the stop signal's branch first.
  unfoldable pub select : Bool → B → OneshotRecv R → Selected B R T
  select true b stop = stream_last (stop_polled (poll rx.poll_stop stop) b)
  select false b stop = stop_last (stream_polled (rx.poll_stream b) stop)

  abbrev pub Answer : Type 0
  Answer = Poll (Result RecvError T) × StoppableStream B R

  -- The wakes of one `select!`, with the order that each draws; `pending` where they run out.
  unfoldable pub selects : List Bool → B → OneshotRecv R → Answer
  selects [] b stop = (pending, record { stream = some b; stop = stop })
  selects (order ∷ orders) b stop = elim (select order b stop) [
    | answered result stream stop' ↦ (ready result, record { stream = stream; stop = stop' })
    | again b' stop' ↦ selects orders b' stop'
  ]

  -- The `unwrap` of the receiver follows the test that there is one.
  abbrev received : List Bool → Option B → OneshotRecv R → Answer
  received orders none stop = (ready (err closed), record { stream = none; stop = stop })
  received orders (some b) stop =
      let rest = selects orders b stop in
      if is_closed stop then (ready (err closed), record { stream = some b; stop = stop }) else rest

  unfoldable pub recv : List Bool → StoppableStream B R → Answer
  recv orders s = received orders s.stream s.stop

  -- Calls of `recv` in a row, each with its wakes.
  unfoldable pub recvs :
      List (List Bool)
      → StoppableStream B R
      → List (Poll (Result RecvError T)) × StoppableStream B R
  recvs [] s = ([], s)
  recvs (orders ∷ history) s =
      let (answer, s') = recv orders s in
      let (answers, s'') = recvs history s' in (answer ∷ answers, s'')
