-- ===== src/Libmount/Stream/Drained.antt =====
-- What one wake of the stream sends: each event that libmount reports, once, at its first report.
use mathlib.Core.List.{append_assoc, append-nil}
use net_device_mapping.Channel.{Sender, send}
use net_device_mapping.HashSet
use net_device_mapping.HashSet.{HashSet, contains-insert}
use net_device_mapping.Libmount.{Libmnt, Event, event_key}
use net_device_mapping.Libmount.Calls.{next_change}
use net_device_mapping.Libmount.Stream.{drained, drain, send_new}
use net_device_mapping.Prelude.{
  ℕ, zero, suc, ◌<◌, ◌≡◌, refl, sym, ◌∙◌, ap, Bool, true, false, not, ◌&&◌, List, [], ◌∷◌, ◌++◌,
  none, some, ok, err, returns, arith, length, filter, key_eq, Bool-cases, inl, inr,
}

-- The first of each event, in order: later ones that are equal are left out.
unfoldable pub firsts : List Event → List Event
firsts [] = []
firsts (e ∷ events) = e ∷ filter (λ x. not (key_eq e x)) (firsts events)

module _ {M : Type 0} (lib : Libmnt M) where
  -- From `m` on, libmount reports these events and then, once, that there are no more changes or an error,
  -- which leaves the monitor at `m'`.
  pub data Reports : M → List Event → M → Type 0 where
    no_more : {m m' : M} → next_change lib m ≡ (returns (ok none), m') → Reports m [] m'
    failed : {m m' : M} (e : ℕ) → next_change lib m ≡ (returns (err e), m') → Reports m [] m'
    report :
        {m m' m'' : M} {e : Event} {events : List Event}
        → next_change lib m ≡ (returns (ok (some e)), m')
        → Reports m' events m''
        → Reports m (e ∷ events) m''

  abbrev new_to : HashSet Event → List Event → List Event
  new_to seen events = filter (λ x. not (HashSet.contains x seen)) (firsts events)

  filter-filter :
      (p q r : Event → Bool)
      → ((x : Event) → (q x && p x) ≡ r x)
      → (events : List Event) → filter p (filter q events) ≡ filter r events
  filter-filter p q r h [] = refl
  filter-filter p q r h (x ∷ events) = ground (arith, h x, filter-filter p q r h events)

  send_new_seen :
      (x : Event) (seen : HashSet Event) (s : Sender Event)
      → HashSet.contains x seen ≡ true
      → send_new x seen s ≡ ((seen, s), true)
  unfolding send_new
  send_new_seen x seen s e = rw e refl

  send_new_new :
      (x : Event) (seen : HashSet Event) (s : Sender Event)
      → HashSet.contains x seen ≡ false
      → s.listening (length s.sent) ≡ true
      → send_new x seen s ≡ ((HashSet.insert x seen, record s { sent = s.sent ++ x ∷ [] }), true)
  unfolding send_new send
  send_new_new x seen s e h = rw (e, h) refl

  new_to_seen :
      (x : Event) (events : List Event) (seen : HashSet Event)
      → HashSet.contains x seen ≡ true
      → new_to seen (x ∷ events) ≡ new_to seen events
  unfolding firsts
  new_to_seen x events seen e = rw e (
      filter-filter _ _ _
        (λ y. elim (event_key.dec x y) [ yes same ↦ ground arith | no other ↦ ground arith ])
        (firsts events))

  new_to_new :
      (x : Event) (events : List Event) (seen : HashSet Event)
      → HashSet.contains x seen ≡ false
      → new_to seen (x ∷ events) ≡ x ∷ new_to (HashSet.insert x seen) events
  unfolding firsts
  new_to_new x events seen e = rw e (
      ap (λ l. x ∷ l)
        (filter-filter _ _ _ (λ y. ground (arith, contains-insert x y seen)) (firsts events)))

  drain-new :
      (fuel : ℕ) {m m' : M} {events : List Event} (seen : HashSet Event) (s : Sender Event)
      → Reports m events m'
      → length events < fuel
      → ((n : ℕ) → s.listening n ≡ true)
      → drain lib fuel m seen s ≡ drained m' (record s { sent = s.sent ++ new_to seen events })
  unfolding drain firsts
  drain-new zero seen s r f h = absurd (omega arith)
  drain-new (suc fuel) {m} {m'} seen s (no_more e) f h =
      rw (drain, e, e) (ap (λ l. drained m' (record s { sent = l })) (sym (append-nil s.sent)))
  drain-new (suc fuel) {m} {m'} seen s (failed x e) f h =
      rw (drain, e, e) (ap (λ l. drained m' (record s { sent = l })) (sym (append-nil s.sent)))
  drain-new (suc fuel) {m} {m'} seen s (report {e = x} {events = events} e r) f h =
      elim (Bool-cases (HashSet.contains x seen)) [
        | inl old ↦
            rw (drain, e, send_new_seen x seen s old, e, new_to_seen x events seen old)
              (drain-new fuel seen s r (omega arith) h)
        | inr new ↦
            rw
              (
                drain,
                e,
                send_new_new x seen s new (h (length s.sent)),
                e,
                new_to_new x events seen new,
              )
              (drain-new fuel (HashSet.insert x seen) (record s { sent = s.sent ++ x ∷ [] }) r
                  (omega arith) h
                ∙ rw append_assoc refl)
      ]

  filter_all : (events : List Event) → filter (λ x. not (HashSet.contains x [])) events ≡ events
  unfolding HashSet.contains
  filter_all [] = refl
  filter_all (x ∷ events) = ap (λ l. x ∷ l) (filter_all events)

  -- Where libmount reports finitely many changes before it reports no more of them or an error, the inner
  -- loop ends with more fuel than there are reports, and a listening receiver gets each event of this
  -- wake once, at its first report.
  pub drain-firsts :
      (fuel : ℕ) (m m' : M) (events : List Event) (s : Sender Event)
      → Reports m events m'
      → length events < fuel
      → ((n : ℕ) → s.listening n ≡ true)
      → drain lib fuel m [] s ≡ drained m' (record s { sent = s.sent ++ firsts events })
  drain-firsts fuel m m' events s r f h =
      drain-new fuel [] s r f h ∙ rw (filter_all (firsts events)) refl
