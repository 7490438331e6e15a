-- ===== src/NsidMonitor/Messages.antt =====
-- What the kernel's messages about namespace ids announce, described apart from the code of
-- src/nsid_monitor.rs.
use net_device_mapping.Netlink.{
  as_u32, ℤ, NsidAttribute, id, current_nsid, fd, other_attribute, new_nsid, del_nsid, get_nsid,
  other_message, NetlinkPayload, inner_message, other_payload,
}
use net_device_mapping.NsidMonitor.{NetnsIdEvent, added, removed, extract_nsid_from_attrs, event_of}
use net_device_mapping.Prelude.{◌≡◌, refl, ap, ◌∙◌, List, [], ◌∷◌, none, some, All, filter_map}

-- The attribute is not the id.
abbrev pub IsOther : NsidAttribute → Type 0
IsOther (id n) = ⊥
IsOther _ = Unit

-- The first id among the attributes.
pub data HasId : List NsidAttribute → ℤ → Type 0 where
  here : {n : ℤ} {attributes : List NsidAttribute} → HasId (id n ∷ attributes) n
  there :
      {n : ℤ} {attribute : NsidAttribute} {attributes : List NsidAttribute}
      → IsOther attribute
      → HasId attributes n
      → HasId (attribute ∷ attributes) n

-- A message that announces nothing: it is of another kind, or it has no id.
pub data IsSilent : NetlinkPayload → Type 0 where
  payload : IsSilent other_payload
  message : IsSilent (inner_message other_message)
  query : {attributes : List NsidAttribute} → IsSilent (inner_message (get_nsid attributes))
  new_without :
      {attributes : List NsidAttribute}
      → All IsOther attributes
      → IsSilent (inner_message (new_nsid attributes))
  del_without :
      {attributes : List NsidAttribute}
      → All IsOther attributes
      → IsSilent (inner_message (del_nsid attributes))

-- These events are what the messages announce, in order: a new namespace id is added and a deleted one
-- removed, each as a u32.
pub data Announce : List NetlinkPayload → List NetnsIdEvent → Type 0 where
  nothing : Announce [] []
  new_id :
      {n : ℤ} {attributes : List NsidAttribute} {messages : List NetlinkPayload}
      {events : List NetnsIdEvent}
      → HasId attributes n
      → Announce messages events
      → Announce (inner_message (new_nsid attributes) ∷ messages) (added (as_u32 n) ∷ events)
  del_id :
      {n : ℤ} {attributes : List NsidAttribute} {messages : List NetlinkPayload}
      {events : List NetnsIdEvent}
      → HasId attributes n
      → Announce messages events
      → Announce (inner_message (del_nsid attributes) ∷ messages) (removed (as_u32 n) ∷ events)
  silent :
      {message : NetlinkPayload} {messages : List NetlinkPayload} {events : List NetnsIdEvent}
      → IsSilent message
      → Announce messages events
      → Announce (message ∷ messages) events

-- The id that is extracted is the first.
data Extracted (attributes : List NsidAttribute) : Type 0 where
  found :
      (n : ℤ)
      → HasId attributes n
      → extract_nsid_from_attrs attributes ≡ some (as_u32 n)
      → Extracted attributes
  missing :
      All IsOther attributes → extract_nsid_from_attrs attributes ≡ none → Extracted attributes

past :
    (attribute : NsidAttribute) (attributes : List NsidAttribute)
    → IsOther attribute
    → extract_nsid_from_attrs (attribute ∷ attributes) ≡ extract_nsid_from_attrs attributes
    → Extracted attributes
    → Extracted (attribute ∷ attributes)
past attribute attributes other e (found n has f) = found n (there other has) (e ∙ f)
past attribute attributes other e (missing others f) = missing (other, others) (e ∙ f)

extracted : (attributes : List NsidAttribute) → Extracted attributes
unfolding extract_nsid_from_attrs
extracted [] = missing tt refl
extracted (id n ∷ attributes) = found n here refl
extracted (current_nsid n ∷ attributes) =
    past (current_nsid n) attributes tt refl (extracted attributes)
extracted (fd n ∷ attributes) = past (fd n) attributes tt refl (extracted attributes)
extracted (other_attribute ∷ attributes) =
    past other_attribute attributes tt refl (extracted attributes)

new_nsid-Announce :
    (attributes : List NsidAttribute) (messages : List NetlinkPayload)
    → Extracted attributes
    → Announce messages (filter_map event_of messages)
    → Announce
        (inner_message (new_nsid attributes) ∷ messages)
        (filter_map event_of (inner_message (new_nsid attributes) ∷ messages))
unfolding event_of filter_map
new_nsid-Announce attributes messages (found n has e) rest = rw e (new_id has rest)
new_nsid-Announce attributes messages (missing others e) rest =
    rw e (silent (new_without others) rest)

del_nsid-Announce :
    (attributes : List NsidAttribute) (messages : List NetlinkPayload)
    → Extracted attributes
    → Announce messages (filter_map event_of messages)
    → Announce
        (inner_message (del_nsid attributes) ∷ messages)
        (filter_map event_of (inner_message (del_nsid attributes) ∷ messages))
unfolding event_of filter_map
del_nsid-Announce attributes messages (found n has e) rest = rw e (del_id has rest)
del_nsid-Announce attributes messages (missing others e) rest =
    rw e (silent (del_without others) rest)

extract-IsOther :
    (attributes : List NsidAttribute)
    → All IsOther attributes
    → extract_nsid_from_attrs attributes ≡ none
unfolding extract_nsid_from_attrs
extract-IsOther [] h = refl
extract-IsOther (id n ∷ attributes) (h, hs) = absurd h
extract-IsOther (current_nsid n ∷ attributes) (h, hs) = extract-IsOther attributes hs
extract-IsOther (fd n ∷ attributes) (h, hs) = extract-IsOther attributes hs
extract-IsOther (other_attribute ∷ attributes) (h, hs) = extract-IsOther attributes hs

extract-HasId :
    {attributes : List NsidAttribute} {n : ℤ}
    → HasId attributes n
    → extract_nsid_from_attrs attributes ≡ some (as_u32 n)
unfolding extract_nsid_from_attrs
extract-HasId here = refl
extract-HasId (there {attribute = id m} other has) = absurd other
extract-HasId (there {attribute = current_nsid m} other has) = extract-HasId has
extract-HasId (there {attribute = fd m} other has) = extract-HasId has
extract-HasId (there {attribute = other_attribute} other has) = extract-HasId has

event_of-IsSilent : {message : NetlinkPayload} → IsSilent message → event_of message ≡ none
unfolding event_of
event_of-IsSilent payload = refl
event_of-IsSilent message = refl
event_of-IsSilent query = refl
event_of-IsSilent (new_without {attributes} others) = rw (extract-IsOther attributes others) refl
event_of-IsSilent (del_without {attributes} others) = rw (extract-IsOther attributes others) refl

-- Messages announce no other events than these.
pub Announce-filter_map :
    {messages : List NetlinkPayload} {events : List NetnsIdEvent}
    → Announce messages events
    → filter_map event_of messages ≡ events
unfolding event_of filter_map
Announce-filter_map nothing = refl
Announce-filter_map (new_id {n} {messages} {events} has rest) =
    rw (extract-HasId has) (ap (λ l. added (as_u32 n) ∷ l) (Announce-filter_map rest))
Announce-filter_map (del_id {n} {messages} {events} has rest) =
    rw (extract-HasId has) (ap (λ l. removed (as_u32 n) ∷ l) (Announce-filter_map rest))
Announce-filter_map (silent {message} {messages} quiet rest) =
    rw (filter_map, event_of-IsSilent quiet) (Announce-filter_map rest)

-- The events of the messages are those that they announce.
pub filter_map-Announce :
    (messages : List NetlinkPayload) → Announce messages (filter_map event_of messages)
unfolding event_of filter_map
filter_map-Announce [] = nothing
filter_map-Announce (other_payload ∷ messages) = silent payload (filter_map-Announce messages)
filter_map-Announce (inner_message other_message ∷ messages) =
    silent message (filter_map-Announce messages)
filter_map-Announce (inner_message (get_nsid attributes) ∷ messages) =
    silent query (filter_map-Announce messages)
filter_map-Announce (inner_message (new_nsid attributes) ∷ messages) =
    new_nsid-Announce attributes messages (extracted attributes) (filter_map-Announce messages)
filter_map-Announce (inner_message (del_nsid attributes) ∷ messages) =
    del_nsid-Announce attributes messages (extracted attributes) (filter_map-Announce messages)
