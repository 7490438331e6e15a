-- ===== src/Tracker/Answers.antt =====
-- The requests for a state among the events of src/netns_tracker.rs: that each is answered, in its turn.
use net_device_mapping.Netns.{NetworkNamespace}
use net_device_mapping.Host.{Host}
use net_device_mapping.Prelude.{
  ℕ, ◌+◌, ◌≡◌, refl, ap, ◌∙◌, subst, Bool, false, List, [], ◌∷◌, ◌++◌, ok, >>=-eq-ok, ok-injective,
  if◌then◌else◌, length, length-append, filter_map, arith,
}
use net_device_mapping.Tracker.Events.{
  Event, netns_id_event, mount_change, syscall, state_requested, Tracker, process_event, Wake,
  closed, event, no_event, track, on_netns_id,
}
use net_device_mapping.Tracker.Mirror.Merged.{IsOpen, AlwaysListening, send-listening}
use net_device_mapping.Tracker.Mirror.Streams.{events}
use net_device_mapping.Tracker.State.{State, current_state}
use net_device_mapping.Tracker.Streams.Delivery.{as_request}
use mathlib.Core.List.{append_assoc, append-nil}

abbrev pub requests : List Wake → ℕ
requests wakes = length (filter_map as_request (events wakes))

-- What an event adds to the states that were sent.
abbrev answer_to : Event → State → List (List NetworkNamespace)
answer_to state_requested s = current_state s ∷ []
answer_to _ s = []

module _ (h : Host) where
  process_event-answer :
      (e : Event) (t : Tracker) {t' : Tracker} {quits : Bool}
      → AlwaysListening t.responses
      → process_event h e t ≡ ok (t', quits)
      → (quits ≡ false)
        × (t'.responses ≡ record t.responses { sent = t.responses.sent ++ answer_to e t.state })
  unfolding process_event
  process_event-answer (netns_id_event x) t l p =
      let (s, asked, same) = >>=-eq-ok (on_netns_id h x t.state) _ p in
      ground (arith, ok-injective same, append-nil t.responses.sent)
  process_event-answer (mount_change x) t l p =
      ground (arith, ok-injective p, append-nil t.responses.sent)
  process_event-answer (syscall x) t l p =
      ground (arith, ok-injective p, append-nil t.responses.sent)
  process_event-answer state_requested t l p =
      let sent = send-listening (current_state t.state) t.responses (l (length t.responses.sent)) in
      ground (arith, p, sent)

-- The states that a run sends, with how many they are, and that its receivers are still there.
abbrev pub Sends : List Wake → Tracker → Tracker → Type 0
Sends wakes t t' =
    (answers : List (List NetworkNamespace)) × (t'.responses
      ≡ record t.responses { sent = t.responses.sent ++ answers })
    × (length answers ≡ requests wakes)

count-answer :
    (h : Host) (e : Event) (wakes : List Wake) (s : State)
    → length (answer_to e s) + requests wakes ≡ requests (event h e ∷ wakes)
unfolding filter_map
count-answer h (netns_id_event x) wakes s = omega arith
count-answer h (mount_change x) wakes s = omega arith
count-answer h (syscall x) wakes s = omega arith
count-answer h state_requested wakes s = omega arith

step-Sends :
    (h : Host) (e : Event) (wakes : List Wake) (t t₁ t' : Tracker)
    → t₁.responses ≡ record t.responses { sent = t.responses.sent ++ answer_to e t.state }
    → Sends wakes t₁ t'
    → Sends (event h e ∷ wakes) t t'
step-Sends h e wakes t t₁ t' first (answers, rest, count) = (
  answer_to e t.state ++ answers,
  ground (arith, append_assoc t.responses.sent (answer_to e t.state) answers),
  omega (arith, length-append (answer_to e t.state) answers, count, count-answer h e wakes t.state),
)

still-listening :
    (t t' : Tracker) (sent : List (List NetworkNamespace))
    → t'.responses ≡ record t.responses { sent = sent }
    → AlwaysListening t.responses
    → AlwaysListening t'.responses
still-listening t t' sent e l n = ap (λ r. r.listening n) e ∙ l n

pub track-Sends :
    (wakes : List Wake) (t : Tracker) {t' : Tracker}
    → IsOpen wakes
    → AlwaysListening t.responses
    → track wakes t ≡ ok t'
    → Sends wakes t t'
unfolding track filter_map
track-Sends [] t o l p = ([], ground (arith, ok-injective p, append-nil t.responses.sent), refl)
track-Sends (closed ∷ wakes) t o l p = absurd o
track-Sends (no_event ∷ wakes) t o l p = track-Sends wakes t o l p
track-Sends (event h e ∷ wakes) t {t'} o l p =
    let ((t₁, quits), handled, rest) = >>=-eq-ok (process_event h e t) _ p in
    let (goes_on, answered) = process_event-answer h e t l handled in
    step-Sends h e wakes t t₁ t' answered (
      track-Sends wakes t₁ o (still-listening t t₁ _ answered l)
        (subst (λ q. (if q then ok t₁ else track wakes t₁) ≡ ok t') goes_on rest))

track-event :
    (h : Host) (e : Event) (wakes : List Wake) (t t₁ : Tracker)
    → process_event h e t ≡ ok (t₁, false)
    → track (event h e ∷ wakes) t ≡ track wakes t₁
unfolding track
track-event h e wakes t t₁ handled = rw handled refl

-- A run passes through the state before each of its wakes.
track-split :
    (before after : List Wake) (t : Tracker) {t' : Tracker}
    → IsOpen (before ++ after)
    → AlwaysListening t.responses
    → track (before ++ after) t ≡ ok t'
    → (t₁ : Tracker) × (track before t ≡ ok t₁) × (track after t₁ ≡ ok t')
unfolding track
track-split [] after t o l p = (t, refl, p)
track-split (closed ∷ before) after t o l p = absurd o
track-split (no_event ∷ before) after t o l p = track-split before after t o l p
track-split (event h e ∷ before) after t {t'} o l p =
    let ((t₁, quits), handled, rest) = >>=-eq-ok (process_event h e t) _ p in
    let (goes_on, answered) = process_event-answer h e t l handled in
    let (t₂, first, second) =
      track-split before after t₁ o (still-listening t t₁ _ answered l)
        (subst (λ q. (if q then ok t₁ else track (before ++ after) t₁) ≡ ok t') goes_on rest) in
    (t₂, track-event h e before t t₁ (handled ∙ ap (λ q. ok (t₁, q)) goes_on) ∙ first, second)

IsOpen-append : (before after : List Wake) → IsOpen (before ++ after) → IsOpen before × IsOpen after
IsOpen-append [] after o = (tt, o)
IsOpen-append (closed ∷ before) after o = absurd o
IsOpen-append (no_event ∷ before) after o = IsOpen-append before after o
IsOpen-append (event h e ∷ before) after o = IsOpen-append before after o

-- Every request for a state is answered, once and in its turn: with the tracker's state after the events
-- before the request, behind one answer for each earlier request. The run met no error and its receivers of
-- states were there all the time.
pub requests-answers :
    (before after : List Wake) (h : Host) (t t' : Tracker)
    → IsOpen (before ++ event h state_requested ∷ after)
    → AlwaysListening t.responses
    → track (before ++ event h state_requested ∷ after) t ≡ ok t'
    → (t₁ : Tracker) × (later : List (List NetworkNamespace)) × (track before t ≡ ok t₁)
      × (t'.responses.sent ≡ t₁.responses.sent ++ current_state t₁.state ∷ later)
      × (length t₁.responses.sent ≡ length t.responses.sent + requests before)
      × (length later ≡ requests after)
unfolding track
requests-answers before after h t t' o l p =
    let (open_before, open_after) = IsOpen-append before (event h state_requested ∷ after) o in
    let (t₁, first, second) = track-split before (event h state_requested ∷ after) t o l p in
    let (answers, sent, count) = track-Sends before t open_before l first in
    let l₁ = still-listening t t₁ _ sent l in
    let ((t₂, quits), handled, rest) = >>=-eq-ok (process_event h state_requested t₁) _ second in
    let (goes_on, answered) = process_event-answer h state_requested t₁ l₁ handled in
    let (later, sent_later, count_later) =
      track-Sends after t₂ open_after (still-listening t₁ t₂ _ answered l₁)
        (subst (λ q. (if q then ok t₂ else track after t₂) ≡ ok t') goes_on rest) in
    (
      t₁,
      later,
      first,
      (ap (λ r. r.sent) sent_later
          ∙ ap (λ r. r.sent ++ later) answered
          ∙ append_assoc t₁.responses.sent (current_state t₁.state ∷ []) later),
      (ap (λ r. length r.sent) sent
          ∙ length-append t.responses.sent answers
          ∙ ap (λ n. length t.responses.sent + n) count),
      count_later,
    )
