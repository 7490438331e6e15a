-- ===== src/Path/Order.antt =====
-- The order of paths, and `sorted().dedup()` over it: component by component, names by their bytes.
use net_device_mapping.Path.{Component, root_dir, cur_dir, parent_dir, normal, PathBuf}
use net_device_mapping.Path.Equality.{path_key}
use net_device_mapping.Prelude.{ℕ, Bool, true, false, List, [], ◌∷◌, ltb, key_eq, if◌then◌else◌}

bytes_lt : List ℕ → List ℕ → Bool
bytes_lt s [] = false
bytes_lt [] (c ∷ t) = true
bytes_lt (b ∷ s) (c ∷ t) =
    let rest = bytes_lt s t in if ltb b c then true else if ltb c b then false else rest

-- The order in which the variants of `Component` stand.
rank : Component → ℕ
rank root_dir = 1
rank cur_dir = 2
rank parent_dir = 3
rank (normal _) = 4

name : Component → List ℕ
name (normal x) = x
name _ = []

component_lt : Component → Component → Bool
unfolding rank name bytes_lt
component_lt a b =
    if ltb (rank a) (rank b)
    then true
    else if ltb (rank b) (rank a)
    then false
    else bytes_lt (name a) (name b)

unfoldable pub path_lt : PathBuf → PathBuf → Bool
unfolding component_lt
path_lt p [] = false
path_lt [] (c ∷ q) = true
path_lt (b ∷ p) (c ∷ q) =
    let rest = path_lt p q in
    if component_lt b c then true else if component_lt c b then false else rest

insert_sorted : PathBuf → List PathBuf → List PathBuf
insert_sorted p [] = p ∷ []
insert_sorted p (q ∷ l) = if path_lt q p then q ∷ insert_sorted p l else p ∷ q ∷ l

unfoldable pub sorted : List PathBuf → List PathBuf
unfolding insert_sorted path_lt
sorted [] = []
sorted (p ∷ l) = insert_sorted p (sorted l)

-- Drops a path that is equal to the one before it.
unfoldable pub dedup : List PathBuf → List PathBuf
dedup [] = []
dedup (p ∷ []) = p ∷ []
dedup (p ∷ q ∷ l) = if key_eq p q then dedup (q ∷ l) else p ∷ dedup (q ∷ l)
