-- ===== src/Bin/Display/Rows.antt =====
-- Where the cursor is after the display has been written over itself.
use net_device_mapping.Bin.Display.{
  Command, move_up, clear_from_cursor_down, print, clear_from_n_lines_above, clear_last, display,
  frame,
}
use net_device_mapping.Bin.Display.Text.{newlines-frame}
use net_device_mapping.HashSet.{HashSet}
use net_device_mapping.Netns.{NetworkNamespace}
use net_device_mapping.Path.{Str, PathBuf}
use net_device_mapping.Prelude.{
  ℕ, ◌+◌, ◌-◌, ◌%◌, ◌^◌, ◌<◌, ◌≡◌, refl, ◌∙◌, ap, List, [], ◌∷◌, ◌++◌, none, some, arith, All,
  length,
}
use net_device_mapping.Util.LineCountWriter.{newlines}

-- The row of the cursor on a terminal with rows enough; the top one is 0.
unfoldable pub row : List Command → ℕ → ℕ
row [] r = r
row (move_up n ∷ commands) r = row commands (r - n)
row (clear_from_cursor_down ∷ commands) r = row commands r
row (print text ∷ commands) r = row commands (r + newlines text)

-- The rows of the last of these frames.
abbrev pub last_rows : (HashSet PathBuf → Str) → ℕ → List (List NetworkNamespace) → ℕ
last_rows debug n [] = n
last_rows debug n (namespaces ∷ states) = last_rows debug (newlines (frame debug namespaces)) states

module _ (debug : HashSet PathBuf → Str) where
  row-append : (xs ys : List Command) (r : ℕ) → row (xs ++ ys) r ≡ row ys (row xs r)
  unfolding row
  row-append [] ys r = refl
  row-append (move_up n ∷ xs) ys r = row-append xs ys (r - n)
  row-append (clear_from_cursor_down ∷ xs) ys r = row-append xs ys r
  row-append (print text ∷ xs) ys r = row-append xs ys (r + newlines text)

  row-clear_last :
      (n r : ℕ) → n < 2 ^ 16 → row (clear_last (some (n % 2 ^ 64 % 2 ^ 16))) (r + n) ≡ r
  unfolding row clear_from_n_lines_above
  row-clear_last n r small = ground arith

  row-display :
      (n r : ℕ) (states : List (List NetworkNamespace))
      → n < 2 ^ 16
      → All (λ namespaces. newlines (frame debug namespaces) < 2 ^ 16) states
      → row (display debug (some (n % 2 ^ 64 % 2 ^ 16)) states) (r + n)
        ≡ r + last_rows debug n states
  unfolding row display
  row-display n r [] small h = refl
  row-display n r (namespaces ∷ states) small (h, hs) =
      row-append (clear_last (some (n % 2 ^ 64 % 2 ^ 16))) _ (r + n)
      ∙ ap
          (row (
            print (frame debug namespaces)
            ∷ display debug (some (newlines (frame debug namespaces) % 2 ^ 64 % 2 ^ 16)) states))
          (row-clear_last n r small)
      ∙ row-display (newlines (frame debug namespaces)) r states h hs

  small-frame :
      ((paths : HashSet PathBuf) → newlines (debug paths) ≡ 0)
      → (states : List (List NetworkNamespace))
      → All (λ namespaces. length namespaces < 2 ^ 16 - 4) states
      → All (λ namespaces. newlines (frame debug namespaces) < 2 ^ 16) states
  small-frame clean [] h = tt
  small-frame clean (namespaces ∷ states) (h, hs) =
      (omega (arith, newlines-frame debug clean namespaces), small-frame clean states hs)

  -- While `Debug` shows paths without a newline and there are fewer than 2^16 - 4 namespaces, each display is
  -- written over the one before it: after any number of states the cursor is as many rows below its
  -- first row as the last display has lines, on a terminal with rows enough.
  pub display-rows :
      ((paths : HashSet PathBuf) → newlines (debug paths) ≡ 0)
      → (states : List (List NetworkNamespace)) (r : ℕ)
      → All (λ namespaces. length namespaces < 2 ^ 16 - 4) states
      → row (display debug none states) r ≡ r + last_rows debug 0 states
  unfolding row display
  display-rows clean [] r h = omega arith
  display-rows clean (namespaces ∷ states) r small =
      let (h, hs) = small-frame clean (namespaces ∷ states) small in
      row-display (newlines (frame debug namespaces)) r states h hs
