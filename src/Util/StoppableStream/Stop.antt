-- ===== src/Util/StoppableStream/Stop.antt =====
-- When a stoppable stream ends, and that it has ended for good.
use net_device_mapping.Prelude.{
  ◌≡◌, refl, Bool, true, false, List, [], ◌∷◌, Option, none, some, Result, err, length, inl, inr,
  ◌⊎◌,
}
use net_device_mapping.Util.OneshotRecv.{Poll, ready, pending, OneshotRecv, poll, is_closed}
use net_device_mapping.Util.OneshotRecv.Fused.{repeat}
use net_device_mapping.Util.StoppableStream.{
  StoppableStream, Receivers, RecvError, closed, Selected, answered, again, select, selects, recv,
  recvs, new,
}

-- The result of a poll, with its equation.
Poll-cases {ℓ κ} :
    {A : Type ℓ} {X : Type κ} (p : Poll A × X)
    → ((a : A) × (x : X) × (p ≡ (ready a, x))) ⊎ ((x : X) × (p ≡ (pending, x)))
Poll-cases (ready a, x) = inl (a, x, refl)
Poll-cases (pending, x) = inr (x, refl)

module _ {B R T S : Type 0} (rx : Receivers B R T S) where
  -- The stream holds both of its receivers, or neither.
  pub data IsConsistent : StoppableStream B R → Type 0 where
    running :
        (b : B) (r : R)
        → IsConsistent (record { stream = some b; stop = record { receiver = some r } })
    ended : IsConsistent (record { stream = none; stop = record { receiver = none } })

  abbrev IsRight : Selected B R T → Type 0
  IsRight (answered result stream stop) = IsConsistent (record { stream = stream; stop = stop })
  IsRight (again b stop) = (r : R) × (stop ≡ record { receiver = some r })

  select-IsRight :
      (order : Bool) (b : B) (r : R) → IsRight (select rx order b (record { receiver = some r }))
  unfolding select poll
  select-IsRight true b r = elim (Poll-cases (rx.poll_stop r)) [
    | inl (a, r', e) ↦ rw e ended
    | inr (r', e) ↦ elim (Poll-cases (rx.poll_stream b)) [
      | inl (x, b', f) ↦ rw (e, f) (running b' r')
      | inr (b', f) ↦ rw (e, f) (r', refl)
    ]
  ]
  select-IsRight false b r = elim (Poll-cases (rx.poll_stream b)) [
    | inl (x, b', f) ↦ rw f (running b' r)
    | inr (b', f) ↦ elim (Poll-cases (rx.poll_stop r)) [
      | inl (a, r', e) ↦ rw (f, e) ended
      | inr (r', e) ↦ rw (f, e) (r', refl)
    ]
  ]

  selects-IsConsistent :
      (orders : List Bool) (b : B) (r : R)
      → IsConsistent (selects rx orders b (record { receiver = some r })).1
  unfolding selects
  selects-IsConsistent [] b r = running b r
  selects-IsConsistent (order ∷ orders) b r =
      go (select rx order b (record { receiver = some r })) refl (select-IsRight order b r)
        (selects-IsConsistent orders)
    where
      go :
          (s : Selected B R T)
          → select rx order b (record { receiver = some r }) ≡ s
          → IsRight s
          → ((b' : B) (r' : R)
              → IsConsistent (selects rx orders b' (record { receiver = some r' })).1)
          → IsConsistent (selects rx (order ∷ orders) b (record { receiver = some r })).1
      go (answered result stream stop) e h rest = rw (selects, e) h
      go (again b' stop) e (r', h) rest = rw (selects, e, h) (rest b' r')

  recv-ended :
      (orders : List Bool)
      → recv rx orders (record { stream = none; stop = record { receiver = none } })
        ≡ (ready (err closed), record { stream = none; stop = record { receiver = none } })
  unfolding recv
  recv-ended orders = refl

  recv-IsConsistent :
      (orders : List Bool) (s : StoppableStream B R)
      → IsConsistent s
      → IsConsistent (recv rx orders s).1
  unfolding recv is_closed
  recv-IsConsistent orders _ (running b r) = selects-IsConsistent orders b r
  recv-IsConsistent orders _ ended = ended

  recvs-ended :
      (history : List (List Bool))
      → recvs rx history (record { stream = none; stop = record { receiver = none } }) ≡ (
        repeat (length history) (ready (err closed)),
        record { stream = none; stop = record { receiver = none } },
      )
  unfolding recvs
  recvs-ended [] = refl
  recvs-ended (orders ∷ history) = rw (recv-ended orders, recvs-ended history) refl

  recvs-IsConsistent :
      (history : List (List Bool)) (s : StoppableStream B R)
      → IsConsistent s
      → IsConsistent (recvs rx history s).1
  unfolding recvs
  recvs-IsConsistent [] s h = h
  recvs-IsConsistent (orders ∷ history) s h =
      recvs-IsConsistent history _ (recv-IsConsistent orders s h)

  closed-ended :
      (s : StoppableStream B R)
      → IsConsistent s
      → is_closed s.stop ≡ true
      → s ≡ record { stream = none; stop = record { receiver = none } }
  unfolding is_closed
  closed-ended _ (running b r) e = cc
  closed-ended _ ended e = refl

  -- Along calls of `recv` on a new stream, whatever is polled first and whenever a call is given up: once the
  -- stop signal has been taken the channel's receiver is gone, and all later calls answer `Closed` at once.
  pub recvs-stopped :
      (history later : List (List Bool)) (b : B) (r : R)
      → is_closed (recvs rx history (new b r)).1.stop ≡ true
      → ((recvs rx history (new b r)).1.stream ≡ none)
        × (recvs rx later (recvs rx history (new b r)).1 ≡ (
          repeat (length later) (ready (err closed)),
          record { stream = none; stop = record { receiver = none } },
        ))
  unfolding new
  recvs-stopped history later b r e =
      let gone = closed-ended _ (recvs-IsConsistent history (new b r) (running b r)) e in
      (rw gone refl, rw gone (recvs-ended later))

  -- A first wake that answers is the whole call.
  recv-answered :
      (order : Bool) (orders : List Bool) (b : B) (r : R) (result : Result RecvError T)
      (stream : Option B) (stop : OneshotRecv R)
      → select rx order b (record { receiver = some r }) ≡ answered result stream stop
      → recv rx (order ∷ orders) (new b r) ≡ (ready result, record { stream = stream; stop = stop })
  unfolding recv selects is_closed new
  recv-answered order orders b r result stream stop e = rw (selects, e) refl

  -- A call of `recv` on a stream whose stop signal has come ends at its first wake: with the end of the
  -- stream, or with what the channel has ready, where the channel is polled first.
  recv-signalled :
      (order : Bool) (orders : List Bool) (b : B) (r r' : R) (signal : S)
      → rx.poll_stop r ≡ (ready signal, r')
      → (recv rx (order ∷ orders) (new b r)
          ≡ (ready (err closed), record { stream = none; stop = record { receiver = none } }))
        ⊎ ((result : Result RecvError T) × (b' : B) × (order ≡ false)
            × (rx.poll_stream b ≡ (ready result, b'))
            × (recv rx (order ∷ orders) (new b r) ≡ (ready result, new b' r)))
  unfolding select poll new
  recv-signalled true orders b r r' signal e =
      inl (recv-answered true orders b r _ none (record { receiver = none }) (rw e refl))
  recv-signalled false orders b r r' signal e = elim (Poll-cases (rx.poll_stream b)) [
    | inl (result, b', f) ↦ inr (
      result,
      b',
      refl,
      f,
      recv-answered false orders b r _ (some b') (record { receiver = some r }) (rw f refl),
    )
    | inr (b', f) ↦
        inl (recv-answered false orders b r _ none (record { receiver = none }) (rw (f, e) refl))
  ]
