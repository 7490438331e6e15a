-- ===== src/Libmount/Stream.antt =====
-- `RcMonitor::stream` and `SendMonitor::stream`, over what wakes the loop.
pub mod Drained
pub mod Wakes
use net_device_mapping.Channel.{Sender, send}
use net_device_mapping.HashSet
use net_device_mapping.HashSet.{HashSet}
use net_device_mapping.Host.{IoError, RawFd}
use net_device_mapping.Libmount.{Libmnt, Event, event_key}
use net_device_mapping.Libmount.Calls.{Called, next_change, get_fd, event_cleanup}
use net_device_mapping.Prelude.{
  ℕ, zero, suc, Bool, true, false, not, List, [], ◌∷◌, Option, none, some, Result, ok, err, Outcome,
  returns, panics, if◌then◌else◌,
}

-- What wakes the loop: no receiver is left, or the file descriptor is readable.
pub data Wake : Type 0 where
  closed readable : Wake

-- How the inner loop ends: by a call that is not `Ok(Some(event))`, by a closed channel, by a panic in
-- libmount's wrapper, or not within the fuel.
pub data Drain (M : Type 0) : Type 0 where
  drained : M → Sender Event → Drain M
  deserted : M → Sender Event → Drain M
  panicked : Drain M
  out_of_fuel : Drain M

-- An event that the wake has seen already is not sent again; `false` if nobody listens.
unfoldable pub send_new :
    Event → HashSet Event → Sender Event → (HashSet Event × Sender Event) × Bool
send_new event changed_files sender =
    if HashSet.contains event changed_files
    then ((changed_files, sender), true)
    else (let (sender', is_ok) = send event sender in
        ((HashSet.insert event changed_files, sender'), is_ok))

module _ {M : Type 0} (lib : Libmnt M) where
  -- `while let Ok(Some(event)) = self.next_change()`
  unfoldable pub drain : ℕ → M → HashSet Event → Sender Event → Drain M
  drain zero m changed_files sender = out_of_fuel
  drain (suc fuel) m changed_files sender =
      let (change, m') = next_change lib m in
      elim change [
        | returns (ok (some event)) ↦
            let ((changed_files', sender'), is_ok) = send_new event changed_files sender in
            let rest = drain fuel m' changed_files' sender' in
            if is_ok then rest else deserted m' sender'
        | returns (ok none) ↦ drained m' sender
        | returns (err e) ↦ drained m' sender
        | panics ↦ panicked
      ]

-- The loop's end: it goes on, its future returned, it panicked, or the fuel of a wake ran out.
pub data Loop (M : Type 0) : Type 0 where
  waiting : M → Sender Event → Loop M
  finished : Result IoError (Unit {0}) → M → Sender Event → Loop M
  panicked : Loop M
  out_of_fuel : Loop M

abbrev pub cleaned : {M : Type 0} → Called M (Unit {0}) → Sender Event → Loop M
cleaned (returns r, m) sender = finished r m sender
cleaned (panics, m) sender = panicked

module _ {M : Type 0} (lib : Libmnt M) where
  unfoldable pub run : ℕ → List Wake → M → Sender Event → Loop M
  run fuel [] m sender = waiting m sender
  run fuel (closed ∷ wakes) m sender = cleaned (event_cleanup lib m) sender
  run fuel (readable ∷ wakes) m sender = elim (drain lib fuel m [] sender) [
    | drained m' sender' ↦ run fuel wakes m' sender'
    | deserted m' sender' ↦ cleaned (event_cleanup lib m') sender'
    | panicked ↦ panicked
    | out_of_fuel ↦ out_of_fuel
  ]

  abbrev opened :
      ℕ
      → List Wake
      → Result IoError (Unit {0})
      → Called M RawFd
      → Sender Event
      → Result IoError (Loop M)
  opened fuel wakes (ok _) (returns (ok fd), m) sender = ok (run fuel wakes m sender)
  opened fuel wakes (err e) (returns (ok fd), m) sender = ok (finished (err e) m sender)
  opened fuel wakes async_fd (returns (err e), m) sender = err e
  opened fuel wakes async_fd (panics, m) sender = ok panicked

  -- The descriptor is asked for first; without it there is no stream. `async_fd` is tokio's answer to it.
  unfoldable pub stream :
      ℕ → List Wake → Result IoError (Unit {0}) → M → Sender Event → Result IoError (Loop M)
  stream fuel wakes async_fd m sender = opened fuel wakes async_fd (get_fd lib m) sender
