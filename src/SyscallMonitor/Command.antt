-- ===== src/SyscallMonitor/Command.antt =====
-- `EbpfEvent::command_as_string` of src/syscall_monitor.rs.
use mathlib.Core.Option
use net_device_mapping.Path.{Str, is_utf8}
use net_device_mapping.Path.Lossy.{
  from_utf8_lossy, from_utf8_lossy-valid, from_utf8_lossy-is_utf8, from_utf8_lossy-All,
}
use net_device_mapping.Prelude.{
  ℕ, ◌≡◌, ◌≢◌, refl, ◌∙◌, ap, true, List, [], ◌∷◌, ◌++◌, ◌==◌, arith, if◌then◌else◌, All, length,
  position, take, Bool-cases, Option-cases, inl, inr, ◌⊎◌,
}
use net_device_mapping.SyscallMonitor.{EbpfEvent}

-- The bytes in front of the first NUL, or all of them.
unfoldable pub command_as_string : EbpfEvent → Str
command_as_string e =
    from_utf8_lossy
      (take (Option.get_or (position (λ b. b == 0) e.command) (length e.command)) e.command)

abbrev up_to_nul : List ℕ → List ℕ
up_to_nul bytes = take (Option.get_or (position (λ b. b == 0) bytes) (length bytes)) bytes

up_to_nul_cons :
    (b : ℕ) (bytes : List ℕ) → up_to_nul (b ∷ bytes) ≡ (if b == 0 then [] else b ∷ up_to_nul bytes)
up_to_nul_cons b bytes = elim (Option-cases (position (λ b. b == 0) bytes)) [
  | inl e ↦ rw e (ground arith)
  | inr (k, e) ↦ rw e (ground arith)
]

up_to_nul-All : (bytes : List ℕ) → All (λ b. b ≢ 0) (up_to_nul bytes)
up_to_nul-All [] = tt
up_to_nul-All (b ∷ bytes) = elim (Bool-cases (b == 0)) [
  | inl z ↦ rw (up_to_nul_cons b bytes, z) tt
  | inr n ↦ rw (up_to_nul_cons b bytes, n) (ground arith, up_to_nul-All bytes)
]

up_to_nul-append :
    (name rest : List ℕ)
    → All (λ b. b ≢ 0) name
    → (rest ≡ []) ⊎ ((padding : List ℕ) × (rest ≡ 0 ∷ padding))
    → up_to_nul (name ++ rest) ≡ name
up_to_nul-append [] rest h (inl e) = rw e refl
up_to_nul-append [] rest h (inr (padding, e)) = rw e refl
up_to_nul-append (b ∷ name) rest (ne, h) r =
    ground (arith, up_to_nul_cons b (name ++ rest), up_to_nul-append name rest h r)

-- The string is valid UTF-8 and holds no NUL, whatever the sixteen bytes are.
command_as_string-is_utf8 :
    (e : EbpfEvent)
    → (is_utf8 (command_as_string e) ≡ true) × All (λ b. b ≢ 0) (command_as_string e)
unfolding command_as_string
command_as_string-is_utf8 e = (
  from_utf8_lossy-is_utf8 _,
  from_utf8_lossy-All (λ b. b ≢ 0) (omega arith) _ (up_to_nul-All e.command),
)

-- A name in valid UTF-8 without a NUL that fills the array, or that is followed by a NUL and any
-- bytes after it, is the string.
pub command_as_string-name :
    (e : EbpfEvent) (name rest : List ℕ)
    → is_utf8 name ≡ true
    → All (λ b. b ≢ 0) name
    → (rest ≡ []) ⊎ ((padding : List ℕ) × (rest ≡ 0 ∷ padding))
    → e.command ≡ name ++ rest
    → command_as_string e ≡ name
unfolding command_as_string
command_as_string-name e name rest v h r c =
    ap (λ bytes. from_utf8_lossy (up_to_nul bytes)) c
    ∙ ap from_utf8_lossy (up_to_nul-append name rest h r)
    ∙ from_utf8_lossy-valid name v
