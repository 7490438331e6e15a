-- ===== src/Path/Lossy.antt =====
-- `String::from_utf8_lossy`, which src/syscall_monitor.rs and src/util/libmount_monitor.rs call: every
-- longest piece that only begins a character, and every byte that begins none, becomes U+FFFD.
use net_device_mapping.Path.{Str, followers, utf8_after, is_utf8, begin_char}
use net_device_mapping.Prelude.{
  ℕ, ◌≡◌, refl, sym, ◌∙◌, ap, true, ◌&&◌, List, [], ◌∷◌, ◌++◌, none, some, leb, if◌then◌else◌,
  arith, Bool-cases, Option-cases, inl, inr, All,
}
use mathlib.Core.List.{append_assoc}

-- U+FFFD in UTF-8.
abbrev pub replacement : Str
replacement = 0xef ∷ 0xbf ∷ 0xbd ∷ []

-- A byte where a character may begin, and how the text goes on after it.
start : ℕ → (Str → List (ℕ × ℕ) → Str) → Str
start b next = elim (followers b) [
  | none ↦ replacement ++ next [] []
  | some [] ↦ b ∷ next [] []
  | some (r ∷ due) ↦ next (b ∷ []) (r ∷ due)
]

-- A byte of a character that has begun with `taken`, after which `due` is still to come.
extend : Str → ℕ → List (ℕ × ℕ) → (Str → List (ℕ × ℕ) → Str) → Str
extend taken b [] next = taken ++ b ∷ next [] []
extend taken b (r ∷ due) next = next (taken ++ b ∷ []) (r ∷ due)

lossy_after : Str → List (ℕ × ℕ) → List ℕ → Str
lossy_after taken [] [] = []
lossy_after taken (_ ∷ _) [] = replacement
lossy_after taken [] (b ∷ s) = start b (λ t d. lossy_after t d s)
lossy_after taken ((lo, hi) ∷ due) (b ∷ s) =
    if leb lo b && leb b hi
    then extend taken b due (λ t d. lossy_after t d s)
    else replacement ++ start b (λ t d. lossy_after t d s)

unfoldable pub from_utf8_lossy : List ℕ → Str
unfolding lossy_after start extend followers
from_utf8_lossy s = lossy_after [] [] s

abbrev pending : Str → List (ℕ × ℕ) → Str
pending taken [] = []
pending taken (_ ∷ _) = taken

-- What is left of a text goes through unchanged where it is valid after `d`.
abbrev Keeps : List ℕ → Type 0
Keeps s =
    (t : Str) (d : List (ℕ × ℕ)) → utf8_after s d ≡ true → lossy_after t d s ≡ pending t d ++ s

start-valid :
    (b : ℕ) (s : List ℕ)
    → Keeps s
    → begin_char (followers b) (utf8_after s) ≡ true
    → start b (λ t d. lossy_after t d s) ≡ b ∷ s
unfolding start begin_char
start-valid b s ih v = elim (Option-cases (followers b)) [
  | inl bad ↦ absurd (ground arith)
  | inr ([], e) ↦
      rw (start, e) (ap (λ l. b ∷ l) (ih [] [] (sym (ap (λ o. begin_char o (utf8_after s)) e) ∙ v)))
  | inr (r ∷ due, e) ↦
      rw (start, e) (ih (b ∷ []) (r ∷ due) (sym (ap (λ o. begin_char o (utf8_after s)) e) ∙ v))
]

extend-valid :
    (taken : Str) (b : ℕ) (due : List (ℕ × ℕ)) (s : List ℕ)
    → Keeps s
    → utf8_after s due ≡ true
    → extend taken b due (λ t d. lossy_after t d s) ≡ taken ++ b ∷ s
unfolding extend
extend-valid taken b [] s ih v = ap (λ l. taken ++ b ∷ l) (ih [] [] v)
extend-valid taken b (r ∷ due) s ih v =
    ih (taken ++ b ∷ []) (r ∷ due) v ∙ append_assoc taken (b ∷ []) s

lossy_after-valid : (s : List ℕ) → Keeps s
unfolding lossy_after utf8_after
lossy_after-valid [] taken [] v = refl
lossy_after-valid [] taken (r ∷ due) v = cc
lossy_after-valid (b ∷ s) taken [] v = start-valid b s (lossy_after-valid s) v
lossy_after-valid (b ∷ s) taken ((lo, hi) ∷ due) v = elim (Bool-cases (leb lo b && leb b hi)) [
  | inl fits ↦
      rw (lossy_after, fits) (extend-valid taken b due s (lossy_after-valid s) (ground arith))
  | inr bad ↦ absurd (ground arith)
]

-- Text that is valid UTF-8 is kept as it is.
pub from_utf8_lossy-valid : (s : List ℕ) → is_utf8 s ≡ true → from_utf8_lossy s ≡ s
unfolding is_utf8 from_utf8_lossy
from_utf8_lossy-valid s v = lossy_after-valid s [] [] v

-- `taken` begins a character of which `due` is still to come.
abbrev Begins : Str → List (ℕ × ℕ) → Type 0
Begins taken due = (t : Str) → utf8_after (taken ++ t) [] ≡ utf8_after t due

-- A property of output that every way on keeps: it is valid.
abbrev Valid : (Str → List (ℕ × ℕ) → Str) → Type 0
Valid next = (t : Str) (d : List (ℕ × ℕ)) → Begins t d → utf8_after (next t d) [] ≡ true

Begins-start :
    (b : ℕ) (r : ℕ × ℕ) (due : List (ℕ × ℕ))
    → followers b ≡ some (r ∷ due)
    → Begins (b ∷ []) (r ∷ due)
unfolding utf8_after begin_char
Begins-start b r due e t = rw e refl

start-Valid :
    (b : ℕ) (next : Str → List (ℕ × ℕ) → Str) → Valid next → utf8_after (start b next) [] ≡ true
unfolding start utf8_after begin_char
start-Valid b next v = elim (Option-cases (followers b)) [
  | inl bad ↦ rw (start, bad) (v [] [] (λ t. refl))
  | inr ([], e) ↦ rw (start, e) (rw e (v [] [] (λ t. refl)))
  | inr (r ∷ due, e) ↦ rw (start, e) (v (b ∷ []) (r ∷ due) (Begins-start b r due e))
]

extend-Valid :
    (taken : Str) (lo hi b : ℕ) (due : List (ℕ × ℕ)) (next : Str → List (ℕ × ℕ) → Str)
    → Begins taken ((lo, hi) ∷ due)
    → (leb lo b && leb b hi) ≡ true
    → Valid next
    → utf8_after (extend taken b due next) [] ≡ true
unfolding extend utf8_after
extend-Valid taken lo hi b [] next begun fits v =
    ground (arith, begun (b ∷ next [] []), v [] [] (λ t. refl))
extend-Valid taken lo hi b (r ∷ due) next begun fits v =
    v (taken ++ b ∷ []) (r ∷ due) (λ t. rw append_assoc (ground (arith, begun (b ∷ t))))

lossy_after-Valid : (s : List ℕ) → Valid (λ t d. lossy_after t d s)
unfolding lossy_after utf8_after
lossy_after-Valid [] taken [] begun = refl
lossy_after-Valid [] taken (r ∷ due) begun = refl
lossy_after-Valid (b ∷ s) taken [] begun = start-Valid b _ (lossy_after-Valid s)
lossy_after-Valid (b ∷ s) taken ((lo, hi) ∷ due) begun = elim (Bool-cases (leb lo b && leb b hi)) [
  | inl fits ↦
      rw (lossy_after, fits) (extend-Valid taken lo hi b due _ begun fits (lossy_after-Valid s))
  | inr bad ↦ rw (lossy_after, bad) (start-Valid b _ (lossy_after-Valid s))
]

-- Whatever the bytes, the result is valid UTF-8.
pub from_utf8_lossy-is_utf8 : (s : List ℕ) → is_utf8 (from_utf8_lossy s) ≡ true
unfolding is_utf8 from_utf8_lossy
from_utf8_lossy-is_utf8 s = lossy_after-Valid s [] [] (λ t. refl)

module _ (P : ℕ → Type 0) (marked : All P replacement) where
  All-append : (xs ys : List ℕ) → All P xs → All P ys → All P (xs ++ ys)
  All-append [] ys hx hy = hy
  All-append (x ∷ xs) ys hx hy = (hx.0, All-append xs ys hx.1 hy)

  abbrev Stays : (Str → List (ℕ × ℕ) → Str) → Type 0
  Stays next = (t : Str) (d : List (ℕ × ℕ)) → All P t → All P (next t d)

  start-All : (b : ℕ) (next : Str → List (ℕ × ℕ) → Str) → P b → Stays next → All P (start b next)
  unfolding start
  start-All b next h v = elim (Option-cases (followers b)) [
    | inl bad ↦ rw (start, bad) (All-append replacement (next [] []) marked (v [] [] tt))
    | inr ([], e) ↦ rw (start, e) (h, v [] [] tt)
    | inr (r ∷ due, e) ↦ rw (start, e) (v (b ∷ []) (r ∷ due) (h, tt))
  ]

  extend-All :
      (taken : Str) (b : ℕ) (due : List (ℕ × ℕ)) (next : Str → List (ℕ × ℕ) → Str)
      → All P taken
      → P b
      → Stays next
      → All P (extend taken b due next)
  unfolding extend
  extend-All taken b [] next ht h v = All-append taken _ ht (h, v [] [] tt)
  extend-All taken b (r ∷ due) next ht h v =
      v (taken ++ b ∷ []) (r ∷ due) (All-append taken _ ht (h, tt))

  lossy_after-All : (s : List ℕ) → All P s → Stays (λ t d. lossy_after t d s)
  unfolding lossy_after
  lossy_after-All [] hs taken [] ht = tt
  lossy_after-All [] hs taken (r ∷ due) ht = marked
  lossy_after-All (b ∷ s) (h, hs) taken [] ht = start-All b _ h (lossy_after-All s hs)
  lossy_after-All (b ∷ s) (h, hs) taken ((lo, hi) ∷ due) ht =
      elim (Bool-cases (leb lo b && leb b hi)) [
        | inl fits ↦ rw (lossy_after, fits) (extend-All taken b due _ ht h (lossy_after-All s hs))
        | inr bad ↦
            rw (lossy_after, bad)
              (All-append replacement _ marked (start-All b _ h (lossy_after-All s hs)))
      ]

  -- What holds of all the bytes, and of the replacement's, holds of the bytes of the result.
  pub from_utf8_lossy-All : (s : List ℕ) → All P s → All P (from_utf8_lossy s)
  unfolding from_utf8_lossy
  from_utf8_lossy-All s h = lossy_after-All s h [] [] tt
