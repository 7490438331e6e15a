-- ===== src/Util/OneshotRecv.antt =====
-- src/util/oneshot_recv.rs, over the receiver of the `async_oneshot` crate: what a poll of it answers.
pub mod Fused
use net_device_mapping.Prelude.{Bool, not, Option, none, some, is_some}

-- `std::task::Poll`
pub data Poll {ℓ} (A : Type ℓ) : Type ℓ where
  ready : A → Poll A
  pending : Poll A

-- No receiver is left once it has answered.
pub record OneshotRecv (R : Type 0) : Type 0 where
  pub receiver : Option R

module _ {R : Type 0} where
  unfoldable pub is_closed : OneshotRecv R → Bool
  is_closed r = not (is_some r.receiver)

  unfoldable pub from : R → OneshotRecv R
  from value = record { receiver = some value }

module _ {R A : Type 0} (poll_receiver : R → Poll A × R) where
  abbrev settled : Poll A × R → Poll A × OneshotRecv R
  settled (ready result, r) = (ready result, record { receiver = none })
  settled (pending, r) = (pending, record { receiver = some r })

  abbrev polled : Option R → Poll A × OneshotRecv R
  polled (some x) = settled (poll_receiver x)
  polled none = (pending, record { receiver = none })

  unfoldable pub poll : OneshotRecv R → Poll A × OneshotRecv R
  poll r = polled r.receiver
