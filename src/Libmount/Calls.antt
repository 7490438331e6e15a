-- ===== src/Libmount/Calls.antt =====
-- The methods of `RcMonitor` that call libmount. A positive code that libmount does not document
-- panics; a negative one is an errno.
pub mod Bounds
use net_device_mapping.Host.{IoError, RawFd}
use net_device_mapping.Libmount.{
  Libmnt, Event, EventKind, kernel, userspace, Timeout, forever, millis,
}
use net_device_mapping.Netlink.{ℤ, pos, negsuc}
use net_device_mapping.Path.{Str}
use net_device_mapping.Path.Lossy.{from_utf8_lossy}
use net_device_mapping.Path.Parse.{from_text}
use net_device_mapping.Prelude.{
  ℕ, zero, suc, ◌-◌, ◌^◌, Bool, true, false, List, Option, none, some, Result, ok, err, Outcome,
  returns, panics, ◌==◌, ltb, any, map, if◌then◌else◌,
}
use mathlib.Core.Option

-- `0 => Ok(())`, an errno, or a panic.
abbrev pub checked : ℤ → Outcome (Result IoError (Unit {0}))
checked (pos zero) = returns (ok tt)
checked (pos (suc n)) = panics
checked (negsuc n) = returns (err (suc n))

abbrev pub waited : ℤ → Outcome (Result IoError Bool)
waited (pos zero) = returns (ok false)
waited (pos (suc zero)) = returns (ok true)
waited (pos (suc (suc n))) = panics
waited (negsuc n) = returns (err (suc n))

abbrev pub flag : Bool → ℤ
flag true = pos 1
flag false = pos 0

-- `x as c_int` of a c_uint.
unfoldable pub as_c_int : ℕ → ℤ
as_c_int n = if ltb n (2 ^ 31) then pos n else negsuc (2 ^ 32 - 1 - n)

unfoldable pub c_timeout : Timeout → ℤ
unfolding as_c_int
c_timeout forever = negsuc 0
c_timeout (millis n) = if n == 2 ^ 32 - 1 then as_c_int (n - 1) else as_c_int n

-- An event's type, where both types are u32 constants.
abbrev pub event_kind : ℕ → ℕ → ℤ → Option EventKind
event_kind type_kernel type_userspace (pos n) =
    if n == type_kernel then some kernel else if n == type_userspace then some userspace else none
event_kind type_kernel type_userspace (negsuc n) = none

-- The event of a change: an unknown type panics.
abbrev pub changed : Str → Option EventKind → Outcome (Result IoError (Option Event))
changed path none = panics
changed path (some kind) =
    returns (ok (some (record { path = from_text (from_utf8_lossy path); kind = kind })))

abbrev pub next_of : ℤ → Str → Option EventKind → Outcome (Result IoError (Option Event))
next_of (pos zero) path kind = changed path kind
next_of (pos (suc zero)) path kind = returns (ok none)
next_of (pos (suc (suc n))) path kind = panics
next_of (negsuc n) path kind = returns (err (suc n))

-- What a method returns or does instead, and the monitor afterwards.
abbrev pub Called : Type 0 → Type 0 → Type 0
Called M A = Outcome (Result IoError A) × M

abbrev pub after : {M A : Type 0} → (ℤ → Outcome (Result IoError A)) → ℤ × M → Called M A
after read (code, m) = (read code, m)

-- A file descriptor, or an errno.
abbrev pub descriptor : ℤ → Outcome (Result IoError RawFd)
descriptor (pos fd) = returns (ok fd)
descriptor (negsuc n) = returns (err (suc n))

module _ {M : Type 0} (lib : Libmnt M) where
  -- `CString::new(…).unwrap()` panics at a NUL. The pointer that is passed on is that of a CString which
  -- the closure has dropped: `freed` is what C then finds there.
  unfoldable pub enable_userspace : (Str → Str) → Bool → Option Str → M → Called M (Unit {0})
  enable_userspace freed enable none m = after checked (lib.enable_userspace m (flag enable) none)
  enable_userspace freed enable (some filename) m =
      if any (λ b. b == 0) filename
      then (panics, m)
      else after checked (lib.enable_userspace m (flag enable) (some (freed filename)))

  unfoldable pub enable_kernel : Bool → M → Called M (Unit {0})
  enable_kernel enable m = after checked (lib.enable_kernel m (flag enable))

  unfoldable pub get_fd : M → Called M RawFd
  get_fd m = after descriptor (lib.get_fd m)

  unfoldable pub close_fd : M → Called M (Unit {0})
  close_fd m = after checked (lib.close_fd m)

  unfoldable pub next_change : M → Called M (Option Event)
  unfolding from_text from_utf8_lossy
  next_change m =
      let ((code, path, etype), m') = lib.next_change m in
      (next_of code path (event_kind lib.type_kernel lib.type_userspace etype), m')

  unfoldable pub event_cleanup : M → Called M (Unit {0})
  event_cleanup m = after checked (lib.event_cleanup m)

  unfoldable pub wait : Timeout → M → Called M Bool
  unfolding c_timeout
  wait timeout m = after waited (lib.wait m (c_timeout timeout))
