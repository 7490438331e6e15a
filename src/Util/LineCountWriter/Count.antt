-- ===== src/Util/LineCountWriter/Count.antt =====
-- What the counter says after a text has been written, however the wrapped writer cuts it up.
use net_device_mapping.Host.{IoError}
use net_device_mapping.Prelude.{
  ℕ, zero, suc, ◌+◌, ◌%◌, ◌^◌, ◌≤◌, ◌<◌, ◌≡◌, refl, subst, List, [], ◌∷◌, ok, err, returns, arith,
  length, take,
}
use net_device_mapping.Util.LineCountWriter.{Write, LineCountWriter, newlines, write}

-- `buf[n..]`
abbrev drop : ℕ → List ℕ → List ℕ
drop zero buf = buf
drop (suc n) [] = []
drop (suc n) (b ∷ buf) = drop n buf

module _ {W : Type 0} (out : Write W) where
  -- The wrapped writer takes this text from `i` and is at `j` after it: over calls that each take what
  -- they like of the bytes that are left, some of which may fail and are made again.
  pub data Takes : List ℕ → W → W → Type 0 where
    all_taken : {i : W} → Takes [] i i
    failed :
        {i j k : W} {buf : List ℕ} (e : IoError)
        → out.write buf i ≡ (err e, j)
        → Takes buf j k
        → Takes buf i k
    taken :
        {i j k : W} {buf : List ℕ} (n : ℕ)
        → out.write buf i ≡ (ok n, j)
        → n ≤ length buf
        → Takes (drop n buf) j k
        → Takes buf i k

  -- The same calls of the writer that counts.
  pub data Writes : List ℕ → LineCountWriter W → LineCountWriter W → Type 0 where
    all_written : {v : LineCountWriter W} → Writes [] v v
    failed :
        {v w x : LineCountWriter W} {buf : List ℕ} (e : IoError)
        → write out buf v ≡ (returns (err e), w)
        → Writes buf w x
        → Writes buf v x
    written :
        {v w x : LineCountWriter W} {buf : List ℕ} (n : ℕ)
        → write out buf v ≡ (returns (ok n), w)
        → Writes (drop n buf) w x
        → Writes buf v x

newlines-take-drop :
    (n : ℕ) (buf : List ℕ) → newlines (take n buf) + newlines (drop n buf) ≡ newlines buf
unfolding newlines
newlines-take-drop zero buf = ground arith
newlines-take-drop (suc n) [] = ground arith
newlines-take-drop (suc n) (b ∷ buf) = ground (arith, newlines-take-drop n buf)

module _ {W : Type 0} (out : Write W) where
  write-ok :
      (buf : List ℕ) (i j : W) (n lines : ℕ)
      → out.write buf i ≡ (ok n, j)
      → n ≤ length buf
      → write out buf (record { inner = i; lines = lines })
        ≡ (returns (ok n), record { inner = j; lines = (lines + newlines (take n buf)) % 2 ^ 64 })
  unfolding write
  write-ok buf i j n lines call fits = rw call (ground arith)

  -- However the wrapped writer cuts a text up, the counting writer answers each call as that writer
  -- does, and in the end it has counted the newlines of the text on top of what it had
  -- counted before, modulo 2^64.
  pub write-newlines :
      (buf : List ℕ) (i j : W) (lines : ℕ)
      → lines < 2 ^ 64
      → Takes out buf i j
      → Writes out buf
          (record { inner = i; lines = lines })
          (record { inner = j; lines = (lines + newlines buf) % 2 ^ 64 })
  unfolding write newlines
  write-newlines [] i j lines small all_taken =
      subst
        (λ l. Writes out [] (record { inner = i; lines = lines }) (record { inner = i; lines = l }))
        (omega arith) all_written
  write-newlines buf i j lines small (failed e call rest) =
      failed e (rw call refl) (write-newlines buf _ j lines small rest)
  write-newlines buf i j lines small (taken n call fits rest) =
      subst
        (λ l.
          Writes out buf (record { inner = i; lines = lines }) (record { inner = j; lines = l }))
        (omega (arith, newlines-take-drop n buf))
        (written n (write-ok buf i _ n lines call fits) (
          write-newlines (drop n buf) _ j ((lines + newlines (take n buf)) % 2 ^ 64) (omega arith)
            rest))
