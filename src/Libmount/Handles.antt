-- ===== src/Libmount/Handles.antt =====
-- The reference counting of `RcMonitor`: `new`, `Clone`, `Drop`, `from_inner` and `into_inner`, and the two
-- ways between it and `SendMonitor`. A handle is a pointer to the one monitor object, so each operation acts
-- on that object.
use net_device_mapping.Libmount.{Libmnt}
use net_device_mapping.Libmount.SendMonitor
use net_device_mapping.Libmount.SendMonitor.{SendMonitor}
use net_device_mapping.Prelude.{ℕ, suc, ◌+◌, ◌-◌, ◌≡◌, List, [], ◌∷◌, arith}

-- What a program does with its handles, one of which it uses up by `drop` and `into_inner`. `from_send` is
-- `SendMonitor::into_inner`.
pub data Use : Type 0 where
  clone drop into_inner from_inner into_send from_send : Use

module _ {M : Type 0} (lib : Libmnt M) where
  unfoldable pub new : M
  new = lib.new_monitor

  -- `into_inner(self)` copies the pointer out and then drops `self`.
  unfoldable pub act : Use → M → M
  unfolding SendMonitor.into_send SendMonitor.into_inner
  act clone m = lib.ref_monitor m
  act drop m = lib.unref_monitor m
  act into_inner m = lib.unref_monitor m
  act from_inner m = m
  act into_send m = (SendMonitor.into_send m).monitor
  act from_send m = SendMonitor.into_inner (record { monitor = m })

  unfoldable pub acts : List Use → M → M
  unfolding act
  acts [] m = m
  acts (u ∷ uses) m = acts uses (act u m)

-- `Holds n uses k`: a program with `n` handles can do this, a handle at hand each time, and has `k` in the
-- end. It turns no raw pointer back into a handle.
pub data Holds : ℕ → List Use → ℕ → Type 0 where
  done : {n : ℕ} → Holds n [] n
  cloned : {n k : ℕ} {uses : List Use} → Holds (suc (suc n)) uses k → Holds (suc n) (clone ∷ uses) k
  dropped : {n k : ℕ} {uses : List Use} → Holds n uses k → Holds (suc n) (drop ∷ uses) k
  taken : {n k : ℕ} {uses : List Use} → Holds n uses k → Holds (suc n) (into_inner ∷ uses) k
  sent : {n k : ℕ} {uses : List Use} → Holds (suc n) uses k → Holds (suc n) (into_send ∷ uses) k
  received : {n k : ℕ} {uses : List Use} → Holds (suc n) uses k → Holds (suc n) (from_send ∷ uses) k

module _ {M : Type 0} (lib : Libmnt M) (refs : M → ℕ)
    (ref_counts : (m : M) → refs (lib.ref_monitor m) ≡ refs m + 1)
    (unref_counts : (m : M) → refs (lib.unref_monitor m) ≡ refs m - 1) where
  acts-refs :
      {n k : ℕ} {uses : List Use}
      → Holds n uses k
      → (m : M) → refs m ≡ n
      → refs (acts lib uses m) ≡ k
  unfolding acts act
  acts-refs done m e = e
  acts-refs (cloned h) m e = acts-refs h (lib.ref_monitor m) (omega (arith, ref_counts m))
  acts-refs (dropped h) m e = acts-refs h (lib.unref_monitor m) (omega (arith, unref_counts m))
  acts-refs (sent h) m e = acts-refs h m e
  acts-refs (received h) m e = acts-refs h m e
  acts-refs (taken h) m e = acts-refs h (lib.unref_monitor m) (omega (arith, unref_counts m))

  -- From `new` on, whatever a program does with its handles, libmount's counter is the number of its
  -- handles, so the monitor is freed with the last of them. A raw pointer of `into_inner` is not
  -- counted: where it was the last handle, `from_inner` makes a handle of a freed monitor.
  -- Libmount's ref and unref add and take one, and a new monitor has one reference.
  pub acts-handles :
      (uses : List Use) (k : ℕ)
      → refs lib.new_monitor ≡ 1
      → Holds 1 uses k
      → (refs (acts lib uses (new lib)) ≡ k)
        × (k ≡ 1 → refs (act lib from_inner (act lib into_inner (acts lib uses (new lib)))) ≡ 0)
  unfolding new act
  acts-handles uses k one h =
      let e = acts-refs h lib.new_monitor one in
      (e, λ last. omega (arith, unref_counts (acts lib uses lib.new_monitor)))
