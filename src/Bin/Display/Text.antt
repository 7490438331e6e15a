-- ===== src/Bin/Display/Text.antt =====
-- How many lines the display has.
use net_device_mapping.Bin.Display.{
  inode_of, id_text, namespace_text, namespace_line, namespace_lines, frame,
}
use net_device_mapping.Decimal.{to_string, digits}
use net_device_mapping.HashSet.{HashSet}
use net_device_mapping.Netns.{NetworkNamespace}
use net_device_mapping.Path.{Str, PathBuf, codes}
use net_device_mapping.Prelude.{
  ℕ, zero, suc, ◌+◌, ◌/◌, ◌%◌, ◌≡◌, refl, ◌∙◌, ap, List, [], ◌∷◌, ◌++◌, Option, none, some, arith,
  length, filter, length-append, filter-append, ◌==◌,
}
use net_device_mapping.Sorting.{insert, sort_by_key}
use net_device_mapping.Util.LineCountWriter.{newlines}

pub newlines-append : (xs ys : Str) → newlines (xs ++ ys) ≡ newlines xs + newlines ys
unfolding newlines
newlines-append xs ys =
    ap length (filter-append (λ b. b == 10) xs ys) ∙ length-append (filter (λ b. b == 10) xs) _

-- The text has `n` newlines.
data HasLines (text : Str) (n : ℕ) : Type 0 where
  counted : newlines text ≡ n → HasLines text n

lines_of : {text : Str} {n : ℕ} → HasLines text n → newlines text ≡ n
lines_of (counted e) = e

-- The newlines of a text and of what follows it.
both :
    (m n : ℕ) (xs ys : Str) {k : ℕ}
    → HasLines xs m
    → HasLines ys n
    → m + n ≡ k
    → HasLines (xs ++ ys) k
both m n xs ys (counted e) (counted f) g = counted (omega (arith, newlines-append xs ys))

skip : (xs ys : Str) {n : ℕ} → HasLines xs 0 → HasLines ys n → HasLines (xs ++ ys) n
skip xs ys {n} h k = both 0 n xs ys h k (omega arith)

newlines-digit : (d : ℕ) (out : Str) → newlines ((48 + d) ∷ out) ≡ newlines out
unfolding newlines
newlines-digit d out = ground arith

newlines-digits : (fuel n : ℕ) (out : Str) → newlines (digits fuel n out) ≡ newlines out
unfolding digits
newlines-digits zero n out = refl
newlines-digits (suc fuel) n out =
    ground (arith, newlines-digits fuel (n / 10) ((48 + n % 10) ∷ out), newlines-digit (n % 10) out)

pub newlines-to_string : (n : ℕ) → newlines (to_string n) ≡ 0
unfolding to_string newlines
newlines-to_string n = newlines-digits (suc n) n []

length-insert {ℓ} :
    {A : Type ℓ} (key : A → ℕ) (a : A) (xs : List A) → length (insert key a xs) ≡ suc (length xs)
unfolding insert
length-insert key a [] = refl
length-insert key a (x ∷ xs) = ground (arith, length-insert key a xs)

length-sort_by_key {ℓ} :
    {A : Type ℓ} (key : A → ℕ) (xs : List A) → length (sort_by_key key xs) ≡ length xs
unfolding sort_by_key
length-sort_by_key key [] = refl
length-sort_by_key key (x ∷ xs) = length-insert key x _ ∙ ap suc (length-sort_by_key key xs)

module _ (debug : HashSet PathBuf → Str)
    (clean : (paths : HashSet PathBuf) → newlines (debug paths) ≡ 0) where
  text_of_id : (id : Option ℕ) → HasLines (id_text id) 0
  unfolding id_text newlines
  text_of_id none = counted refl
  text_of_id (some id) = counted (newlines-to_string id)

  text_of_namespace : (netns : NetworkNamespace) → HasLines (namespace_text debug netns) 0
  unfolding namespace_text newlines
  text_of_namespace netns = skip (codes "Network namespace : INode = ") _ (counted refl) (
      skip (to_string netns.inode) _ (counted (newlines-to_string netns.inode)) (
        skip (codes "\t| Id = ") _ (counted refl) (
          skip (id_text netns.id) _ (text_of_id netns.id) (
            skip (codes "\t Path = ") _ (counted refl)
              (skip (debug netns.fs_path) [] (counted (clean netns.fs_path)) (counted refl))))))

  line_of_namespace : (netns : NetworkNamespace) → HasLines (namespace_line debug netns) 1
  unfolding namespace_line newlines
  line_of_namespace netns = skip (namespace_text debug netns) _ (text_of_namespace netns) (
      skip (codes "\t| Pids: ") _ (counted refl) (
        skip (to_string (length netns.pids)) _ (counted (newlines-to_string (length netns.pids)))
          (both 1 0 (codes ".\n") [] (counted refl) (counted refl) refl)))

  lines_of_namespaces :
      (namespaces : List NetworkNamespace)
      → HasLines (namespace_lines debug namespaces) (length namespaces)
  unfolding namespace_lines newlines
  lines_of_namespaces [] = counted refl
  lines_of_namespaces (netns ∷ namespaces) =
      both 1 (length namespaces) (namespace_line debug netns) _ (line_of_namespace netns)
        (lines_of_namespaces namespaces) (omega arith)

  text_of_frame :
      (namespaces : List NetworkNamespace)
      → HasLines (frame debug namespaces) (4 + length (sort_by_key inode_of namespaces))
  unfolding frame newlines
  text_of_frame namespaces =
      let n = length (sort_by_key inode_of namespaces) in
      both 3 (1 + n) (codes "\n\n\n") _ (counted refl)
        (skip (codes "Namespaces: ") _ (counted refl) (
          skip (to_string (length namespaces)) _ (counted (newlines-to_string (length namespaces)))
            (both 1 n (codes "\n") _ (counted refl)
              (both n 0 (namespace_lines debug (sort_by_key inode_of namespaces)) []
                (lines_of_namespaces (sort_by_key inode_of namespaces)) (counted refl)
                (omega arith))
              refl)))
        (omega arith)

  pub newlines-frame :
      (namespaces : List NetworkNamespace)
      → newlines (frame debug namespaces) ≡ 4 + length namespaces
  newlines-frame namespaces =
      lines_of (text_of_frame namespaces) ∙ ap (λ n. 4 + n) (length-sort_by_key inode_of namespaces)
