-- ===== src/Util/LineCountWriter.antt =====
-- src/util/line_count_writer.rs, over a writer that is free to take a part of what it is given.
pub mod Count
use net_device_mapping.Host.{IoError}
use net_device_mapping.Prelude.{
  ℕ, zero, suc, ◌+◌, ◌%◌, ◌^◌, List, [], ◌∷◌, Result, ok, err, Outcome, returns, panics, length,
  filter, take, leb, ◌==◌, if◌then◌else◌,
}

-- `std::io::Write` for the wrapped writer: the number of bytes that it took, or an error.
pub record Write (W : Type 0) : Type 0 where
  pub write : List ℕ → W → Result IoError ℕ × W
  pub flush : W → Result IoError (Unit {0}) × W

pub record LineCountWriter (W : Type 0) : Type 0 where
  pub inner : W
  pub lines : ℕ

-- The number of `\n` among these bytes.
unfoldable pub newlines : List ℕ → ℕ
newlines buf = length (filter (λ b. b == 10) buf)

module _ {W : Type 0} where
  unfoldable pub new : W → LineCountWriter W
  new inner = record { inner = inner; lines = 0 }

  unfoldable pub lines : LineCountWriter W → ℕ
  lines w = w.lines

  unfoldable pub into_inner : LineCountWriter W → W × ℕ
  into_inner w = (w.inner, w.lines)

  -- `buf[..n]` panics past the end; `usize` wraps around at 64 bits.
  abbrev counted :
      List ℕ
      → LineCountWriter W
      → Result IoError ℕ × W
      → Outcome (Result IoError ℕ) × LineCountWriter W
  counted buf w (err e, inner) = (returns (err e), record w { inner = inner })
  counted buf w (ok n, inner) =
      if leb n (length buf)
      then (
        returns (ok n),
        record { inner = inner; lines = (w.lines + newlines (take n buf)) % 2 ^ 64 },
      )
      else (panics, record w { inner = inner })

  unfoldable pub write :
      Write W → List ℕ → LineCountWriter W → Outcome (Result IoError ℕ) × LineCountWriter W
  write out buf w = counted buf w (out.write buf w.inner)

  unfoldable pub flush : Write W → LineCountWriter W → Result IoError (Unit {0}) × LineCountWriter W
  flush out w = let (result, inner) = out.flush w.inner in (result, record w { inner = inner })
