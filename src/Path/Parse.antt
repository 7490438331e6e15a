-- ===== src/Path/Parse.antt =====
-- The components of a path that is given as text: `PathBuf::from` and the other conversions from
-- strings.
use net_device_mapping.Path.{Str, PathBuf, root_dir, cur_dir, parent_dir, normal, codes}
use net_device_mapping.Path.Equality.{OsString-discrete}
use net_device_mapping.Prelude.{
  ◌≡◌, ◌≢◌, refl, ◌∙◌, ap, ap₂, false, List, [], ◌∷◌, ◌++◌, ite, if_neg, if◌then◌else◌, ◌==◌, arith,
  All,
}
use mathlib.Core.List.{append_assoc, append-nil}

-- The pieces between the slashes; `piece` is the one that has begun.
segments : Str → Str → List Str
segments piece [] = piece ∷ []
segments piece (c ∷ s) =
    let rest = segments (if c == b'/' then [] else piece ++ c ∷ []) s in
    if c == b'/' then piece ∷ rest else rest

-- An empty piece and `.` are no components.
component : Str → PathBuf
component x = ite (OsString-discrete x []) [] (
    ite (OsString-discrete x (codes ".")) []
      (ite (OsString-discrete x (codes "..")) (parent_dir ∷ []) (normal x ∷ [])))

components : List Str → PathBuf
unfolding component
components [] = []
components (x ∷ xs) = component x ++ components xs

-- `.` counts where the path begins.
leading : Str → PathBuf
unfolding component
leading x = ite (OsString-discrete x (codes ".")) (cur_dir ∷ []) (component x)

abbrev begun : List Str → PathBuf
begun [] = []
begun (x ∷ xs) = leading x ++ components xs

unfoldable pub from_text : Str → PathBuf
unfolding segments components leading component OsString-discrete
from_text [] = []
from_text (c ∷ s) =
    if c == b'/' then root_dir ∷ components (segments [] s) else begun (segments [] (c ∷ s))

-- A name that a path can hold: not empty, without a slash, neither `.` nor `..`.
abbrev pub IsName : Str → Type 0
IsName x = (x ≢ []) × (x ≢ codes ".") × (x ≢ codes "..") × All (λ c. (c == b'/') ≡ false) x

-- The text of an absolute path.
abbrev pub to_text : List Str → Str
to_text [] = []
to_text (x ∷ xs) = b'/' ∷ x ++ to_text xs

abbrev pub normals : List Str → PathBuf
normals [] = []
normals (x ∷ xs) = normal x ∷ normals xs

component_lem : (x : Str) → IsName x → component x ≡ normal x ∷ []
unfolding component
component_lem x (a, b, c, h) = rw (if_neg _ a, if_neg _ b, if_neg _ c) refl

segments-piece :
    (x piece s : Str)
    → All (λ c. (c == b'/') ≡ false) x
    → segments piece (x ++ s) ≡ segments (piece ++ x) s
unfolding segments
segments-piece [] piece s h = rw append-nil refl
segments-piece (c ∷ x) piece s (no_slash, h) =
    ground (arith, segments-piece x (piece ++ c ∷ []) s h, append_assoc piece (c ∷ []) x)

components-to_text :
    (x : Str) (xs : List Str)
    → IsName x
    → All IsName xs
    → components (segments [] (x ++ to_text xs)) ≡ normals (x ∷ xs)
unfolding segments components
components-to_text x [] (a, b, c, h) hs =
    ap components (segments-piece x [] [] h) ∙ rw (component_lem x (a, b, c, h)) refl
components-to_text x (y ∷ ys) (a, b, c, h) (hy, hs) =
    ap components (segments-piece x [] (to_text (y ∷ ys)) h)
    ∙ ap₂ ◌++◌ (component_lem x (a, b, c, h)) (components-to_text y ys hy hs)

-- The text of an absolute path of names is parsed back to the path.
pub from_text-to_text :
    (x : Str) (xs : List Str)
    → IsName x
    → All IsName xs
    → from_text (to_text (x ∷ xs)) ≡ root_dir ∷ normals (x ∷ xs)
unfolding from_text
from_text-to_text x xs h hs = ap (λ p. root_dir ∷ p) (components-to_text x xs h hs)
