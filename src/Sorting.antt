-- ===== src/Sorting.antt =====
-- `slice::sort_by_key` of the standard library, which keeps the order of elements with equal keys, on
-- keys that are numbers.
pub mod Order
use net_device_mapping.Prelude.{ℕ, List, [], ◌∷◌, leb, if◌then◌else◌}

module _ {ℓ} {A : Type ℓ} (key : A → ℕ) where
  unfoldable pub insert : A → List A → List A
  insert a [] = a ∷ []
  insert a (b ∷ xs) = let rest = insert a xs in if leb (key a) (key b) then a ∷ b ∷ xs else b ∷ rest

  unfoldable pub sort_by_key : List A → List A
  sort_by_key [] = []
  sort_by_key (a ∷ xs) = insert a (sort_by_key xs)

-- `sort` of a list of numbers.
unfoldable pub sort : List ℕ → List ℕ
sort xs = sort_by_key (λ n. n) xs
