-- ===== src/MountMonitor/Setup.antt =====
-- The first part of `monitor_mountinfo` of src/mount_monitor.rs, before its future: libmount's monitor is
-- made and asked for its stream, and the mount table is read.
use net_device_mapping.Host.{Host, IoError, RawFd}
use net_device_mapping.Libmount.{Libmnt}
use net_device_mapping.Libmount.Calls.{Called, after, checked, descriptor}
use net_device_mapping.Libmount.SendMonitor
use net_device_mapping.Libmount.SendMonitor.{
  SendMonitor, wrapped, enable_kernel, enable_userspace, get_fd,
}
use net_device_mapping.MountMonitor.{Uuid}
use net_device_mapping.MountMonitor.Rescan.{Mounts, new}
use net_device_mapping.Netlink.{ℤ, pos, negsuc}
use net_device_mapping.Prelude.{
  ℕ, zero, suc, ◌≡◌, refl, ap, subst, true, none, Result, ok, err, Outcome, returns, panics, arith,
  Result-cases, inl, inr,
}

-- `?` on a method that may panic.
abbrev pub and_then :
    {M A B : Type 0}
    → Called M A
    → (A → M → Outcome (Result IoError B))
    → Outcome (Result IoError B)
and_then (returns (ok a), m) next = next a m
and_then (returns (err e), m) next = returns (err e)
and_then (panics, m) next = panics

-- The end of the set-up, where the table has been asked for.
abbrev loaded :
    {M : Type 0}
    → M
    → RawFd
    → Result IoError (Mounts × ℕ)
    → Outcome (Result IoError (M × RawFd × Mounts × ℕ))
loaded m fd (ok (mountinfo, drawn)) = returns (ok (m, fd, mountinfo, drawn))
loaded m fd (err e) = returns (err e)

abbrev result_or : {A : Type 0} → A → Outcome (Result IoError A) → A
result_or a (returns (ok b)) = b
result_or a (returns (err e)) = a
result_or a panics = a

module _ {M : Type 0} (lib : Libmnt M) (new_v4 : ℕ → Uuid) where
  -- The monitor, its file descriptor, and the table with the UUIDs drawn for it.
  unfoldable pub set_up : Host → Outcome (Result IoError (SendMonitor M × RawFd × Mounts × ℕ))
  set_up h = and_then (enable_kernel lib true (SendMonitor.new lib)) λ _ m₁.
      and_then (enable_userspace lib (λ s. s) true none m₁)
        λ _ m₂. and_then (get_fd lib m₂) λ fd m₃. loaded m₃ fd (new new_v4 h)

  -- Each call of libmount answered without an error, in this order.
  pub record IsEnabled (m : M) (fd : RawFd) : Type 0 where
    pub m₁ : M
    pub m₂ : M
    pub kernel : lib.enable_kernel lib.new_monitor (pos 1) ≡ (pos 0, m₁)
    pub userspace : lib.enable_userspace m₁ (pos 1) none ≡ (pos 0, m₂)
    pub descriptor : lib.get_fd m₂ ≡ (pos fd, m)

  checked-and_then :
      {B : Type 0} (call : ℤ × M) (next : Unit {0} → SendMonitor M → Outcome (Result IoError B))
      {b : B}
      → and_then (wrapped (after checked call)) next ≡ returns (ok b)
      → (m : M) × (call ≡ (pos 0, m)) × (next tt (record { monitor = m }) ≡ returns (ok b))
  checked-and_then (pos zero, m) next e = (m, refl, e)
  checked-and_then (pos (suc n), m) next e = absurd (ground arith)
  checked-and_then (negsuc n, m) next e = absurd (ground arith)

  descriptor-and_then :
      {B : Type 0} (call : ℤ × M) (next : RawFd → SendMonitor M → Outcome (Result IoError B))
      {b : B}
      → and_then (wrapped (after descriptor call)) next ≡ returns (ok b)
      → (fd : RawFd) × (m : M) × (call ≡ (pos fd, m))
        × (next fd (record { monitor = m }) ≡ returns (ok b))
  descriptor-and_then (pos fd, m) next e = (fd, m, refl, e)
  descriptor-and_then (negsuc n, m) next e = absurd (ground arith)

  -- Where the set-up succeeds, libmount has enabled the kernel's and the userspace monitor and then given
  -- a file descriptor, each call on the monitor that the one before left, and the mount table was read
  -- with a UUID for each mount point.
  pub set_up-IsEnabled :
      (h : Host) (m : SendMonitor M) (fd : RawFd) (mountinfo : Mounts) (drawn : ℕ)
      → set_up h ≡ returns (ok (m, fd, mountinfo, drawn))
      → IsEnabled m.monitor fd × (new new_v4 h ≡ ok (mountinfo, drawn))
  unfolding set_up enable_kernel enable_userspace get_fd SendMonitor.new
  set_up-IsEnabled h m fd mountinfo drawn e =
      let (m₁, kernel, e₁) = checked-and_then (lib.enable_kernel lib.new_monitor (pos 1)) _ e in
      let (m₂, userspace, e₂) = checked-and_then (lib.enable_userspace m₁ (pos 1) none) _ e₁ in
      let (fd', m₃, given, e₃) = descriptor-and_then (lib.get_fd m₂) _ e₂ in
      elim (Result-cases (new new_v4 h)) [
        | inl ((mounts, n), read) ↦
            let same = ap (result_or (m, fd, mountinfo, drawn)) (
              subst
                (λ r.
                  loaded (record { monitor = m₃ }) fd' r ≡ returns (ok (m, fd, mountinfo, drawn)))
                read e₃) in
            subst (λ q. IsEnabled q.0.monitor q.1 × (new new_v4 h ≡ ok (q.2, q.3))) same
              (
                record {
                  m₁ = m₁;
                  m₂ = m₂;
                  kernel = kernel;
                  userspace = userspace;
                  descriptor = given;
                },
                read,
              )
        | inr (failed, unread) ↦ absurd (ground arith)
      ]
