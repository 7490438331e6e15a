-- ===== src/Libmount/Stream/Wakes.antt =====
-- The stream over any number of wakes.
use mathlib.Core.List.{append_assoc, append-nil}
use net_device_mapping.Channel.{Sender}
use net_device_mapping.Libmount.{Libmnt, Event}
use net_device_mapping.Libmount.Stream.{Wake, readable, waiting, run}
use net_device_mapping.Libmount.Stream.Drained.{Reports, firsts, drain-firsts}
use net_device_mapping.Prelude.{ℕ, ◌<◌, ◌≡◌, refl, ◌∙◌, true, List, [], ◌∷◌, ◌++◌, map, length, All}

-- What the receiver gets of these wakes.
abbrev pub sent_of : List (List Event) → List Event
sent_of [] = []
sent_of (events ∷ batches) = firsts events ++ sent_of batches

abbrev pub wakes_of : List (List Event) → List Wake
wakes_of batches = map (λ events. readable) batches

module _ {M : Type 0} (lib : Libmnt M) where
  -- From `m` on, libmount reports these batches, one at each wake, and is at `m'` after them.
  pub data ReportsAll : M → List (List Event) → M → Type 0 where
    silent : {m : M} → ReportsAll m [] m
    batch :
        {m m' m'' : M} {events : List Event} {batches : List (List Event)}
        → Reports lib m events m'
        → ReportsAll m' batches m''
        → ReportsAll m (events ∷ batches) m''

  -- Where libmount reports a batch of changes at each wake, with fewer of them than the fuel, the stream
  -- waits again after all the wakes, and a listening receiver has got each event of each batch once.
  pub run-firsts :
      (fuel : ℕ) (m m' : M) (batches : List (List Event)) (s : Sender Event)
      → ReportsAll m batches m'
      → All (λ events. length events < fuel) batches
      → ((n : ℕ) → s.listening n ≡ true)
      → run lib fuel (wakes_of batches) m s
        ≡ waiting m' (record s { sent = s.sent ++ sent_of batches })
  unfolding run
  run-firsts fuel m m' [] s silent f h = rw append-nil refl
  run-firsts fuel m m' (events ∷ batches) s (batch {m' = m₁} r rs) (f, fs) h =
      rw (run, drain-firsts lib fuel m m₁ events s r f h)
        (run-firsts fuel m₁ m' batches (record s { sent = s.sent ++ firsts events }) rs fs h
          ∙ rw append_assoc refl)
