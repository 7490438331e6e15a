-- ===== src/HashMap/Laws.antt =====
-- What `get` finds after `insert` and `remove`, and that both keep a map a map.
use mathlib.Core.List.{map-append}
use net_device_mapping.HashMap
use net_device_mapping.HashMap.{HashMap, IsMap}
use net_device_mapping.Prelude.{
  ◌≡◌, ◌≢◌, refl, [], ◌∷◌, ◌++◌, none, some, ite, if_pos, if_neg, Key, arith,
}

module _ {ℓ} {K V : Type ℓ} ⦃e : Key K⦄ where
  pub get-insert :
      (k j : K) (v : V) (m : HashMap K V)
      → HashMap.get j (HashMap.insert k v m) ≡ ite (e.dec k j) (some v) (HashMap.get j m)
  unfolding HashMap.get HashMap.insert
  get-insert k j v [] = refl
  get-insert k j v ((i, w) ∷ m) = ground (arith, get-insert k j v m)

  pub get-insert_self :
      (k : K) (v : V) (m : HashMap K V) → HashMap.get k (HashMap.insert k v m) ≡ some v
  get-insert_self k v m = ground (arith, get-insert k k v m)

  pub get-insert_ne :
      {k j : K} (v : V) (m : HashMap K V)
      → k ≢ j
      → HashMap.get j (HashMap.insert k v m) ≡ HashMap.get j m
  get-insert_ne {k} {j} v m h = ground (arith, get-insert k j v m)

  pub get-remove :
      (k j : K) (m : HashMap K V)
      → HashMap.get j (HashMap.remove k m) ≡ ite (e.dec k j) none (HashMap.get j m)
  unfolding HashMap.get HashMap.remove
  get-remove k j [] = ground arith
  get-remove k j ((i, w) ∷ m) = ground (arith, get-remove k j m)

  pub insert-IsMap : (k : K) (v : V) (m : HashMap K V) → IsMap m → IsMap (HashMap.insert k v m)
  unfolding HashMap.get HashMap.insert
  insert-IsMap k v [] h = (refl, tt)
  insert-IsMap k v ((j, w) ∷ m) (fresh, h) = elim (e.dec j k) [
    | yes p ↦ rw (if_pos _ p) (ground arith)
    | no p ↦ rw (if_neg _ p) (ground (arith, get-insert k j v m), insert-IsMap k v m h)
  ]

  pub remove-IsMap : (k : K) (m : HashMap K V) → IsMap m → IsMap (HashMap.remove k m)
  unfolding HashMap.get HashMap.remove
  remove-IsMap k [] h = tt
  remove-IsMap k ((j, w) ∷ m) (fresh, h) = elim (e.dec j k) [
    | yes p ↦ rw (if_pos _ p) (remove-IsMap k m h)
    | no p ↦ rw (if_neg _ p) (ground (arith, get-remove k j m), remove-IsMap k m h)
  ]

  -- An insertion under a new key adds its entry at the end.
  pub insert-absent :
      (k : K) (v : V) (m : HashMap K V)
      → HashMap.get k m ≡ none
      → HashMap.insert k v m ≡ m ++ (k, v) ∷ []
  unfolding HashMap.get HashMap.insert
  insert-absent k v [] h = refl
  insert-absent k v ((j, w) ∷ m) h = ground (arith, insert-absent k v m)

  pub values-insert-absent :
      (k : K) (v : V) (m : HashMap K V)
      → HashMap.get k m ≡ none
      → HashMap.values (HashMap.insert k v m) ≡ HashMap.values m ++ v ∷ []
  values-insert-absent k v m h = rw (insert-absent k v m h) (map-append (λ e. e.1) m ((k, v) ∷ []))
