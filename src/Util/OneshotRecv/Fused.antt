-- ===== src/Util/OneshotRecv/Fused.antt =====
-- A `OneshotRecv` answers once: later polls find it closed and wait.
use net_device_mapping.Prelude.{
  ℕ, zero, suc, ◌+◌, ◌≡◌, refl, true, false, List, [], ◌∷◌, ◌++◌, none, some, arith,
}
use net_device_mapping.Util.OneshotRecv.{Poll, ready, pending, OneshotRecv, from, poll, is_closed}

-- `n` times the same.
abbrev pub repeat {ℓ} : {A : Type ℓ} → ℕ → A → List A
repeat zero a = []
repeat (suc n) a = a ∷ repeat n a

module _ {R A : Type 0} (poll_receiver : R → Poll A × R) where
  -- The answers of so many polls in a row, and what is left then.
  unfoldable pub polls : ℕ → OneshotRecv R → List (Poll A) × OneshotRecv R
  polls zero r = ([], r)
  polls (suc n) r =
      let (answer, r') = poll poll_receiver r in
      let (rest, r'') = polls n r' in (answer ∷ rest, r'')

  -- The receiver is pending for `n` polls, and then gives its answer.
  pub data Answers : ℕ → R → A → Type 0 where
    now : {r r' : R} {a : A} → poll_receiver r ≡ (ready a, r') → Answers 0 r a
    wait :
        {n : ℕ} {r r' : R} {a : A}
        → poll_receiver r ≡ (pending, r')
        → Answers n r' a
        → Answers (suc n) r a

  polls-closed :
      (k : ℕ)
      → polls k (record { receiver = none }) ≡ (repeat k pending, record { receiver = none })
  unfolding polls poll
  polls-closed zero = refl
  polls-closed (suc k) = rw (polls-closed k) refl

  polls-answer :
      (n k : ℕ) (r : R) (a : A)
      → Answers n r a
      → polls (n + suc k) (record { receiver = some r })
        ≡ (repeat n pending ++ ready a ∷ repeat k pending, record { receiver = none })
  unfolding polls poll
  polls-answer zero k r a (now call) =
      let e : (0 + suc k ≡ suc k) = omega arith in rw (e, call, polls-closed k) refl
  polls-answer (suc n) k r a (wait {r' = r'} call rest) =
      let e : (suc n + suc k ≡ suc (n + suc k)) = omega arith in
      rw (e, call, polls-answer n k r' a rest) refl

  -- A `OneshotRecv` answers when its receiver does and never again: it may be polled `k` more times, where
  -- the receiver may not, and it is then closed. It was not closed to begin with.
  pub polls-once :
      (n k : ℕ) (r : R) (a : A)
      → Answers n r a
      → (is_closed (from r) ≡ false)
        × (polls (n + suc k) (from r)
            ≡ (repeat n pending ++ ready a ∷ repeat k pending, record { receiver = none }))
        × (is_closed (polls (n + suc k) (from r)).1 ≡ true)
  unfolding is_closed from
  polls-once n k r a h = let e = polls-answer n k r a h in (refl, e, rw e refl)
