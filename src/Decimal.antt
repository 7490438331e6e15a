-- ===== src/Decimal.antt =====
-- Rust's `u64::from_str` (`parse::<u64>()`) and the `to_string` of an unsigned number, on text as
-- code points.
pub mod Roundtrip
use net_device_mapping.Path.{Str}
use net_device_mapping.Prelude.{
  ℕ, zero, suc, ◌+◌, ◌-◌, ◌*◌, ◌/◌, ◌%◌, ◌^◌, ◌||◌, [], ◌∷◌, Result, ok, err, ltb, ◌==◌,
  if◌then◌else◌,
}

pub data ParseIntError : Type 0 where
  empty invalid_digit pos_overflow : ParseIntError

abbrev pub u64_max : ℕ
u64_max = 2 ^ 64 - 1

-- The loop over the digits: `checked_mul` by ten and `checked_add` of the digit, at most `bound`.
unfoldable pub scan : ℕ → ℕ → Str → Result ParseIntError ℕ
scan bound n [] = ok n
scan bound n (c ∷ s) =
    let next = scan bound (n * 10 + (c - 48)) s in
    if ltb c 48 || ltb 57 c
    then err invalid_digit
    else if ltb bound (n * 10 + (c - 48))
    then err pos_overflow
    else next

-- One leading `+` is accepted, unless it stands alone.
unfoldable pub from_plus : Str → Result ParseIntError ℕ
unfolding scan
from_plus [] = err invalid_digit
from_plus (c ∷ s) = scan u64_max 0 (c ∷ s)

unfoldable pub parse_u64 : Str → Result ParseIntError ℕ
unfolding scan from_plus
parse_u64 [] = err empty
parse_u64 (c ∷ s) = if c == b'+' then from_plus s else scan u64_max 0 (c ∷ s)

-- The digits of `n` in front of `out`; the fuel is more than the number of digits.
unfoldable pub digits : ℕ → ℕ → Str → Str
digits zero n out = out
digits (suc f) n out =
    let rest = digits f (n / 10) ((48 + n % 10) ∷ out) in
    if n / 10 == 0 then (48 + n % 10) ∷ out else rest

unfoldable pub to_string : ℕ → Str
unfolding digits
to_string n = digits (suc n) n []
