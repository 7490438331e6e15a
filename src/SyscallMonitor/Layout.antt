-- ===== src/SyscallMonitor/Layout.antt =====
-- The read of an `EbpfEvent` out of the bytes of a ring buffer's item in src/syscall_monitor.rs, as its
-- `repr(C)` lays it out on a little-endian machine: six u32 and sixteen bytes.
use net_device_mapping.Prelude.{
  ℕ, zero, suc, ◌+◌, ◌*◌, ◌/◌, ◌%◌, ◌^◌, ◌<◌, ◌≡◌, refl, ap, List, [], ◌∷◌, ◌++◌, Result, ok, err,
  ◌>>=◌, ◌==◌, arith, if◌then◌else◌, length,
}
use net_device_mapping.SyscallMonitor.{
  EventType, fork, exec, exit, clone, unshare, setns, EbpfEvent,
}

-- What makes the read undefined behaviour: too few bytes, or a number that is no `EventType`.
pub data Undefined : Type 0 where
  short_read no_such_kind : Undefined

unfoldable pub read_u32 : List ℕ → Result Undefined (ℕ × List ℕ)
read_u32 (a ∷ b ∷ c ∷ d ∷ rest) = ok (a + 256 * b + 65536 * c + 16777216 * d, rest)
read_u32 _ = err short_read

unfoldable pub event_type : ℕ → Result Undefined EventType
event_type n =
    if n == 0
    then ok fork
    else if n == 1
    then ok exec
    else if n == 2
    then ok exit
    else if n == 3
    then ok clone
    else if n == 4
    then ok unshare
    else if n == 5
    then ok setns
    else err no_such_kind

unfoldable pub read_bytes : ℕ → List ℕ → Result Undefined (List ℕ × List ℕ)
read_bytes zero bytes = ok ([], bytes)
read_bytes (suc n) [] = err short_read
read_bytes (suc n) (b ∷ bytes) = do (taken, rest) ← read_bytes n bytes; ok (b ∷ taken, rest)

unfoldable pub decode : List ℕ → Result Undefined EbpfEvent
decode item = do
  (number, r₀) ← read_u32 item
  kind ← event_type number
  (pid, r₁) ← read_u32 r₀
  (tid, r₂) ← read_u32 r₁
  (uid, r₃) ← read_u32 r₂
  (gid, r₄) ← read_u32 r₃
  (parent_pid, r₅) ← read_u32 r₄
  (command, _) ← read_bytes 16 r₅
  ok (record {
    kind = kind;
    pid = pid;
    tid = tid;
    uid = uid;
    gid = gid;
    parent_pid = parent_pid;
    command = command;
  })

-- The bytes of a u32.
unfoldable pub u32_bytes : ℕ → List ℕ
u32_bytes n = n % 256 ∷ (n / 256 % 256) ∷ (n / 65536 % 256) ∷ (n / 16777216 % 256) ∷ []

pub read_u32-u32_bytes :
    (n : ℕ) (rest : List ℕ) → n < 2 ^ 32 → read_u32 (u32_bytes n ++ rest) ≡ ok (n, rest)
unfolding read_u32 u32_bytes
read_u32-u32_bytes n rest h = ap (λ m. ok (m, rest)) (omega arith)

pub read_bytes-all :
    (bytes : List ℕ) (n : ℕ) → length bytes ≡ n → read_bytes n bytes ≡ ok (bytes, [])
unfolding read_bytes
read_bytes-all [] zero h = refl
read_bytes-all [] (suc n) h = absurd (omega arith)
read_bytes-all (b ∷ bytes) zero h = absurd (omega arith)
read_bytes-all (b ∷ bytes) (suc n) h = rw (read_bytes-all bytes n (omega arith)) refl
