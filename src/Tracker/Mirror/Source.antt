-- ===== src/Tracker/Mirror/Source.antt =====
-- From libmount to the mount table: the stream of src/util/libmount_monitor.rs wakes the monitor of
-- src/mount_monitor.rs.
use net_device_mapping.Channel.{Sender}
use net_device_mapping.Host.{Host}
use net_device_mapping.Libmount.{Libmnt, Event, event_key}
use net_device_mapping.Libmount.Stream.{waiting, run}
use net_device_mapping.Libmount.Stream.Drained.{firsts}
use net_device_mapping.Libmount.Stream.Wakes.{sent_of, wakes_of, ReportsAll, run-firsts}
use net_device_mapping.MountMonitor.{Uuid, MountChange}
use net_device_mapping.MountMonitor.Monitor
use net_device_mapping.MountMonitor.Monitor.{mountinfo_path, Wake, changed, monitor_mountinfo}
use net_device_mapping.MountMonitor.Rescan.{Monitor}
use net_device_mapping.MountMonitor.Runs.{Listening}
use net_device_mapping.Prelude.{
  ℕ, suc, ◌<◌, ◌≡◌, refl, sym, ap, subst, Bool, true, List, [], ◌∷◌, ◌++◌, length, All, filter,
  Bool-cases, inl, inr,
}
use net_device_mapping.Tracker.Mirror.Monitor.{
  IsReadable, AreReadable, GoesOn, last_host, Follows, monitor_mountinfo-IsSynced,
}

abbrev pub IsTable : Event → Type 0
IsTable e = e.path ≡ mountinfo_path

-- The monitor's wakes for these events of the stream, each against the system as it is at that time.
abbrev pub heard : (ℕ → Host) → List Event → List Wake
heard hosts [] = []
heard hosts (e ∷ events) = changed (hosts 0) e.path ∷ heard (λ n. hosts (suc n)) events

filter-All :
    (P : Event → Type 0) (p : Event → Bool) (events : List Event)
    → All P events
    → All P (filter p events)
filter-All P p [] h = tt
filter-All P p (e ∷ events) (x, h) = elim (Bool-cases (p e)) [
  | inl y ↦ rw y (x, filter-All P p events h)
  | inr y ↦ rw y (filter-All P p events h)
]

firsts-All : (events : List Event) → All IsTable events → All IsTable (firsts events)
unfolding firsts
firsts-All [] h = tt
firsts-All (e ∷ events) (x, h) = (x, filter-All IsTable _ (firsts events) (firsts-All events h))

append-All : (xs ys : List Event) → All IsTable xs → All IsTable ys → All IsTable (xs ++ ys)
append-All [] ys h k = k
append-All (x ∷ xs) ys (a, h) k = (a, append-All xs ys h k)

sent_of-All :
    (batches : List (List Event)) → All (All IsTable) batches → All IsTable (sent_of batches)
sent_of-All [] h = tt
sent_of-All (events ∷ batches) (x, h) =
    append-All (firsts events) (sent_of batches) (firsts-All events x) (sent_of-All batches h)

heard-AreReadable :
    (hosts : ℕ → Host) (events : List Event)
    → ((n : ℕ) → IsReadable (hosts n))
    → All IsTable events
    → AreReadable (heard hosts events)
heard-AreReadable hosts [] r t = tt
heard-AreReadable hosts (e ∷ events) r (t, ts) =
    (t, r 0, heard-AreReadable (λ n. hosts (suc n)) events (λ n. r (suc n)) ts)

heard-GoesOn : (hosts : ℕ → Host) (events : List Event) → GoesOn (heard hosts events)
heard-GoesOn hosts [] = tt
heard-GoesOn hosts (e ∷ events) = heard-GoesOn (λ n. hosts (suc n)) events

last_host-heard :
    (hosts : ℕ → Host) (events : List Event)
    → last_host (hosts 0) (heard (λ n. hosts (suc n)) events) ≡ hosts (length events)
last_host-heard hosts [] = refl
last_host-heard hosts (e ∷ events) = last_host-heard (λ n. hosts (suc n)) events

module _ {M : Type 0} (lib : Libmnt M) (new_v4 : ℕ → Uuid)
    (distinct : (n m : ℕ) → new_v4 n ≡ new_v4 m → n ≡ m) where
  -- Where libmount reports only changes of the mount table, in batches smaller than the fuel, its
  -- stream waits again after all of them, and the monitor of mount points that is woken by all that the
  -- stream has sent waits as well: neither has returned, failed or panicked. The monitor's mount points are
  -- then those of the mount table at the last event that was sent, or at the start if there was none, and
  -- its receiver has the same table. The mount table can be read each time with distinct ids, both channels
  -- have a listening receiver and have carried nothing before, and the UUIDs differ.
  pub stream-IsSynced :
      (fuel : ℕ) (m m' : M) (batches : List (List Event)) (events : Sender Event) (hosts : ℕ → Host)
      (send : Sender MountChange)
      → ReportsAll lib m batches m'
      → All (λ b. length b < fuel) batches
      → All (All IsTable) batches
      → ((n : ℕ) → events.listening n ≡ true)
      → events.sent ≡ []
      → ((n : ℕ) → IsReadable (hosts n))
      → Listening send
      → send.sent ≡ []
      → (events' : Sender Event) × (s' : Monitor) × (run lib fuel (wakes_of batches) m events
          ≡ waiting m' events')
        × (events'.sent ≡ sent_of batches)
        × (monitor_mountinfo new_v4 (hosts 0) (heard (λ n. hosts (suc n)) events'.sent) send
            ≡ Monitor.waiting s')
        × Follows new_v4 (hosts (length events'.sent)) s'
  stream-IsSynced fuel m m' batches events hosts send reports f table listening none_sent rs l
        nothing =
      let events' = record events { sent = events.sent ++ sent_of batches } in
      let same = ap (λ l. l ++ sent_of batches) none_sent in
      let handled = subst (All IsTable) (sym same) (sent_of-All batches table) in
      let later = λ (n : ℕ). hosts (suc n) in
      let (s', done, follows, closing, failing) =
        monitor_mountinfo-IsSynced new_v4 distinct (hosts 0) (heard later events'.sent) [] send
          (rs 0) (heard-AreReadable later events'.sent (λ n. rs (suc n)) handled)
          (heard-GoesOn later events'.sent) l nothing in
      (
        events',
        s',
        run-firsts lib fuel m m' batches events reports f listening,
        same,
        done,
        subst (λ h. Follows new_v4 h s') (last_host-heard hosts events'.sent) follows,
      )
