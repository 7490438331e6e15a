-- ===== src/Sorting/Order.antt =====
-- The sorted list does not depend on the order of the input, where the elements have keys of their own.
use mathlib.Core.List.{Permᴰ}
use net_device_mapping.Prelude.{ℕ, ◌≡◌, ◌≢◌, refl, sym, ◌∙◌, ap₂, subst, List, [], ◌∷◌, arith, All}
use net_device_mapping.Sorting.{insert, sort_by_key}

All-Permᴰ {ℓ κ} : {A : Type ℓ} (P : A → Type κ) {xs ys : List A} → Permᴰ xs ys → All P xs → All P ys
All-Permᴰ P Permᴰ.nil h = tt
All-Permᴰ P (Permᴰ.cons e p) (x, h) = (subst P e x, All-Permᴰ P p h)
All-Permᴰ P (Permᴰ.swap e f) (x, (y, h)) = (subst P f y, (subst P e x, h))
All-Permᴰ P (Permᴰ.trans p q) h = All-Permᴰ P q (All-Permᴰ P p h)

module _ {ℓ} {A : Type ℓ} (key : A → ℕ) where
  -- No two elements of the list share a key.
  abbrev pub HaveOwnKeys : List A → Type 0
  HaveOwnKeys [] = Unit
  HaveOwnKeys (a ∷ xs) = All (λ b. key b ≢ key a) xs × HaveOwnKeys xs

  HaveOwnKeys-Permᴰ : {xs ys : List A} → Permᴰ xs ys → HaveOwnKeys xs → HaveOwnKeys ys
  HaveOwnKeys-Permᴰ Permᴰ.nil h = tt
  HaveOwnKeys-Permᴰ (Permᴰ.cons {l₂ = ys} e p) (fresh, h) =
      (subst (λ a. All (λ b. key b ≢ key a) ys) e (All-Permᴰ _ p fresh), HaveOwnKeys-Permᴰ p h)
  HaveOwnKeys-Permᴰ (Permᴰ.swap {b = b} {b' = b'} {l = l} e f) ((other, fresh), (fresh', h)) =
      subst (λ x. HaveOwnKeys (x ∷ b' ∷ l)) f
        (subst (λ y. HaveOwnKeys (b ∷ y ∷ l)) e (((λ same. other (sym same)), fresh'), (fresh, h)))
  HaveOwnKeys-Permᴰ (Permᴰ.trans p q) h = HaveOwnKeys-Permᴰ q (HaveOwnKeys-Permᴰ p h)

  insert-insert :
      (a b : A) (xs : List A)
      → key b ≢ key a
      → insert key a (insert key b xs) ≡ insert key b (insert key a xs)
  unfolding insert
  insert-insert a b [] other = ground arith
  insert-insert a b (x ∷ xs) other = ground (arith, insert-insert a b xs other)

  pub sort_by_key-Permᴰ :
      {xs ys : List A} → Permᴰ xs ys → HaveOwnKeys xs → sort_by_key key xs ≡ sort_by_key key ys
  unfolding sort_by_key
  sort_by_key-Permᴰ Permᴰ.nil h = refl
  sort_by_key-Permᴰ (Permᴰ.cons e p) (fresh, h) = ap₂ (insert key) e (sort_by_key-Permᴰ p h)
  sort_by_key-Permᴰ (Permᴰ.swap {a} {b} {l = l} e f) ((other, fresh), h) =
      insert-insert a b (sort_by_key key l) other
      ∙ ap₂ (λ x y. insert key x (insert key y (sort_by_key key l))) f e
  sort_by_key-Permᴰ (Permᴰ.trans p q) h =
      sort_by_key-Permᴰ p h ∙ sort_by_key-Permᴰ q (HaveOwnKeys-Permᴰ p h)
