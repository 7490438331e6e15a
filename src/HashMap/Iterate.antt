-- ===== src/HashMap/Iterate.antt =====
-- What iterating over a map's entries shows of `get`: filters, searches and tests.
use net_device_mapping.HashMap
use net_device_mapping.HashMap.{HashMap, IsMap}
use net_device_mapping.Prelude.{
  ◌≡◌, refl, inl, inr, Bool-cases, Bool, true, false, [], ◌∷◌, Option, none, some, Key, arith,
  filter, any, find?, if◌then◌else◌,
}

abbrev pub keep_if {ℓ} : {V : Type ℓ} → (V → Bool) → Option V → Option V
keep_if p none = none
keep_if p (some v) = if p v then some v else none

module _ {ℓ} {K V : Type ℓ} ⦃e : Key K⦄ where
  filter-fresh :
      (k : K) (p : K × V → Bool) (m : HashMap K V)
      → HashMap.get k m ≡ none
      → HashMap.get k (filter p m) ≡ none
  unfolding HashMap.get
  filter-fresh k p [] h = refl
  filter-fresh k p ((j, w) ∷ m) h = ground (arith, filter-fresh k p m)

  pub filter-IsMap : (p : K × V → Bool) (m : HashMap K V) → IsMap m → IsMap (filter p m)
  unfolding HashMap.get
  filter-IsMap p [] h = tt
  filter-IsMap p ((j, w) ∷ m) (fresh, h) = ground (arith, filter-fresh j p m, filter-IsMap p m h)

  pub get-filter :
      (k : K) (p : K × V → Bool) (m : HashMap K V)
      → IsMap m
      → HashMap.get k (filter p m) ≡ keep_if (λ v. p (k, v)) (HashMap.get k m)
  unfolding HashMap.get
  get-filter k p [] h = refl
  get-filter k p ((j, w) ∷ m) (fresh, h) = ground (arith, get-filter k p m h, filter-fresh k p m)

  pub any-get :
      (p : K × V → Bool) (k : K) (v : V) (m : HashMap K V)
      → HashMap.get k m ≡ some v
      → p (k, v) ≡ true
      → any p m ≡ true
  unfolding HashMap.get
  any-get p k v [] h t = absurd (ground arith)
  any-get p k v ((j, w) ∷ m) h t = ground (arith, any-get p k v m)

  -- A search of the entries finds one that `get` finds too.
  pub find?-get :
      (p : K × V → Bool) (k : K) (v : V) (m : HashMap K V)
      → IsMap m
      → find? p m ≡ some (k, v)
      → (HashMap.get k m ≡ some v) × (p (k, v) ≡ true)
  unfolding HashMap.get
  find?-get p k v [] i h = absurd (ground arith)
  find?-get p k v ((j, w) ∷ m) (fresh, i) h = ground (arith, find?-get p k v m i)

  pub find?-none :
      (p : K × V → Bool) (k : K) (v : V) (m : HashMap K V)
      → find? p m ≡ none
      → HashMap.get k m ≡ some v
      → p (k, v) ≡ false
  unfolding HashMap.get
  find?-none p k v [] h g = absurd (ground arith)
  find?-none p k v ((j, w) ∷ m) h g = ground (arith, find?-none p k v m)

  pub any-find? :
      (p : K × V → Bool) (m : HashMap K V)
      → IsMap m
      → any p m ≡ true
      → (k : K) × (v : V) × (HashMap.get k m ≡ some v) × (p (k, v) ≡ true)
  unfolding HashMap.get
  any-find? p [] i h = absurd (ground arith)
  any-find? p ((j, w) ∷ m) (fresh, i) h = elim (Bool-cases (p (j, w))) [
    | inl t ↦ (j, w, ground arith, t)
    | inr f ↦ let (k, v, g, t) = any-find? p m i (ground arith) in (k, v, ground arith, t)
  ]
