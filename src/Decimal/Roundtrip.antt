-- ===== src/Decimal/Roundtrip.antt =====
-- A printed number parses back.
use net_device_mapping.Decimal.{scan, parse_u64, digits, to_string, u64_max}
use net_device_mapping.Path.{Str}
use net_device_mapping.Prelude.{
  ℕ, zero, suc, ◌+◌, ◌-◌, ◌*◌, ◌/◌, ◌%◌, ◌≤◌, ◌<◌, ◌≡◌, ◌≢◌, ap, ◌∙◌, inl, inr, [], ◌∷◌, arith, ok,
  ◌==◌, Bool-cases,
}

scan-cons :
    (bound n d : ℕ) (s : Str)
    → d < 10
    → n * 10 + d ≤ bound
    → scan bound n ((48 + d) ∷ s) ≡ scan bound (n * 10 + d) s
unfolding scan
scan-cons bound n d s h k = let e : 48 + d - 48 ≡ d = omega arith in rw e (ground arith)

scan-digits :
    (f n bound : ℕ) (out : Str)
    → n < f
    → n ≤ bound
    → scan bound 0 (digits f n out) ≡ scan bound n out
unfolding digits
scan-digits zero n bound out h k = absurd (omega arith)
scan-digits (suc f) n bound out h k = elim (Bool-cases (n / 10 == 0)) [
  | inl short ↦
      let small : n / 10 ≡ 0 = ground arith in
      rw short (
        scan-cons bound 0 (n % 10) out (omega arith) (omega arith)
        ∙ ap (λ t. scan bound t out) (omega arith))
  | inr long ↦
      let many : n / 10 ≢ 0 = ground arith in
      rw long (
        scan-digits f (n / 10) bound ((48 + n % 10) ∷ out) (omega arith) (omega arith)
        ∙ scan-cons bound (n / 10) (n % 10) out (omega arith) (omega arith)
        ∙ ap (λ t. scan bound t out) (omega arith))
]

digits-head :
    (f n : ℕ) (out : Str) → n < f → (c : ℕ) × (s : Str) × (digits f n out ≡ c ∷ s) × (48 ≤ c)
unfolding digits
digits-head zero n out h = absurd (omega arith)
digits-head (suc f) n out h = elim (Bool-cases (n / 10 == 0)) [
  | inl short ↦ (48 + n % 10, out, ground arith, omega arith)
  | inr long ↦
      let (c, s, e, k) = digits-head f (n / 10) ((48 + n % 10) ∷ out) (ground arith) in
      (c, s, ground arith, k)
]

pub parse_u64-to_string : (n : ℕ) → n ≤ u64_max → parse_u64 (to_string n) ≡ ok n
unfolding parse_u64 to_string
parse_u64-to_string n h =
    let (c, s, e, k) = digits-head (suc n) n [] (omega arith) in
    ground (arith, scan-digits (suc n) n u64_max [] (omega arith) h)
