-- ===== src/HashSet.antt =====
-- std::collections::HashSet, as the list of its elements in the order in which an iterator meets
-- them.
use net_device_mapping.Prelude.{
  ◌≡◌, Bool, false, not, ◌||◌, ◌&&◌, List, [], ◌∷◌, ◌++◌, ite, Key, key_eq, arith, if◌then◌else◌,
}

abbrev pub HashSet {ℓ} : Type ℓ → Type ℓ
HashSet K = List K

module _ {ℓ} {K : Type ℓ} ⦃e : Key K⦄ where
  unfoldable pub contains : K → HashSet K → Bool
  contains k [] = false
  contains k (x ∷ s) = key_eq x k || contains k s

  unfoldable pub insert : K → HashSet K → HashSet K
  unfolding contains
  insert k s = if contains k s then s else s ++ k ∷ []

  unfoldable pub remove : K → HashSet K → HashSet K
  remove k [] = []
  remove k (x ∷ s) = ite (e.dec x k) (remove k s) (x ∷ remove k s)

  contains-append_one :
      (k j : K) (s : HashSet K) → contains j (s ++ k ∷ []) ≡ (contains j s || key_eq k j)
  unfolding contains
  contains-append_one k j [] = ground arith
  contains-append_one k j (x ∷ s) = ground (arith, contains-append_one k j s)

  pub contains-insert :
      (k j : K) (s : HashSet K) → contains j (insert k s) ≡ (key_eq k j || contains j s)
  unfolding insert
  contains-insert k j s = ground (arith, contains-append_one k j s)

  pub contains-remove :
      (k j : K) (s : HashSet K) → contains j (remove k s) ≡ (not (key_eq k j) && contains j s)
  unfolding contains remove
  contains-remove k j [] = ground arith
  contains-remove k j (x ∷ s) = ground (arith, contains-remove k j s)
