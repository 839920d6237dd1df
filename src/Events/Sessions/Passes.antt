-- ===== src/Events/Sessions/Passes.antt =====
-- The passes of `group_sessions`, in their order: addon/petkit_local/events/sessions.py.
pub mod Shown
use petkit_local.Prelude.{
  ℕ, ◌+◌, ◌-◌, ◌*◌, String, Bool, true, false, ◌&&◌, ◌||◌, not, Option, none, some, List, [], ◌∷◌,
  ◌++◌, map, str_eq, leb, ltb, ◌==◌, if◌then◌else◌, filter, find, any, contains, length, get_elem?,
}
use petkit_local.Prelude.Dict.{Dict, lookup}
use petkit_local.Events.Rows.{
  Event, CodeTables, unit, truthy, is_text, same_text, same_id, kind_toilet, kind_cleaning,
  kind_pet, kind_motion, kind_error,
}
use petkit_local.Events.Sessions.Cards.{
  Card, session_from_visit, relabel, attach_all, standalone_row,
}
use petkit_local.Events.Sessions.Groups.{
  Groups, add_to, sort_events, anchor_events, Episodes, episodes_of,
}
use petkit_local.Events.Sessions.Board.{Board, empty, attach, add_card, is_used, nearest}

abbrev pub sub_event_window : ℕ
sub_event_window = 600 * unit

abbrev pub cycle_tail_window : ℕ
cycle_tail_window = 120 * unit

last_of : List Event → Option Event
last_of [] = none
last_of (e ∷ []) = some e
last_of (e ∷ f ∷ es) = last_of (f ∷ es)

-- The head of an episode: its first anchor code, else its last event.
head_of : CodeTables → List Event → Option Event
unfolding last_of
head_of codes group = elim (find (λ e. codes.is_anchor e.event_type) group) [
  | some e ↦ some e
  | none ↦ last_of group
]

-- The other members of the episode.
unfoldable pub others : Event → List Event → List Event
others anchor group = filter (λ e. not (e.id == anchor.id)) group

kind_of : Option String → String
kind_of kind = elim (truthy kind) [ some k ↦ k | none ↦ kind_pet ]

-- The card of an episode with a given head, before its steps are attached.
episode_head : List Event → Event → Card
unfolding session_from_visit kind_of relabel
episode_head group anchor =
    let card =
      session_from_visit anchor (find (λ e. str_eq e.event_type "pet_in") group) anchor.media in
    if any (λ e. is_text e.event_kind kind_toilet) group
    then card
    else relabel (kind_of anchor.event_kind) card

-- A card with its steps, and the ids that they take up.
unfoldable pub add_episode : CodeTables → Card → Event → List Event → Board → Board
unfolding others attach_all add_card
add_episode codes card anchor group board =
    add_card (attach_all codes (others anchor group) card)
      (anchor.id ∷ map (λ e. e.id) (others anchor group)) board

-- The board of an episode pass, with the places of the cards by episode id.
pub record Indexed : Type 0 where
  pub board : Board
  pub by_episode : Dict ℕ

card_from_episode : CodeTables → String → List Event → Option Event → Indexed → Indexed
unfolding add_episode episode_head
card_from_episode codes rel group none ix = ix
card_from_episode codes rel group (some anchor) ix = record {
  board = add_episode codes (episode_head group anchor) anchor group ix.board;
  by_episode = ix.by_episode ++ (rel, length ix.board.cards) ∷ [];
}

-- _cards_from_episodes
unfoldable pub cards_from_episodes : CodeTables → Groups Event → Indexed → Indexed
unfolding card_from_episode head_of sort_events
cards_from_episodes codes [] ix = ix
cards_from_episodes codes ((rel, group) ∷ groups) ix =
    cards_from_episodes codes groups
      (card_from_episode codes rel (sort_events group) (head_of codes (sort_events group)) ix)

-- _cards_from_loose_visits
unfoldable pub cards_from_loose_visits : List Event → Board → Board
unfolding add_card session_from_visit
cards_from_loose_visits [] board = board
cards_from_loose_visits (e ∷ es) board =
    cards_from_loose_visits es (add_card (session_from_visit e none e.media) (e.id ∷ []) board)

set_default : String → String → Dict String → Dict String
set_default k v d = elim (lookup k d) [ some w ↦ d | none ↦ d ++ (k, v) ∷ [] ]

note_parent : Option String → Option String → Dict String → Dict String
unfolding set_default
note_parent (some rel) (some parent) d = if str_eq rel parent then d else set_default rel parent d
note_parent rel parent d = d

parents_from : List Event → Dict String → Dict String
unfolding note_parent
parents_from [] d = d
parents_from (e ∷ es) d =
    parents_from es (note_parent (truthy e.related_event) (truthy e.parent_event) d)

-- _episode_parents
unfoldable pub episode_parents : List Event → Dict String
unfolding parents_from
episode_parents events = parents_from events []

lookup_text : Option String → Dict String → Option String
lookup_text none d = none
lookup_text (some k) d = lookup k d

-- parents.get(e.related_event) or e.parent_event, if that is truthy
parent_of : Dict String → Event → Option String
unfolding lookup_text
parent_of parents e = elim (lookup_text e.related_event parents) [
  | some parent ↦ some parent
  | none ↦ truthy e.parent_event
]

same_device_place : ℕ → Option Card → Event → Option ℕ
same_device_place i none e = none
same_device_place i (some card) e = if same_id card.device_id e.device_id then some i else none

device_place : Option ℕ → List Card → Event → Option ℕ
unfolding same_device_place
device_place none cards e = none
device_place (some i) cards e = same_device_place i (get_elem? cards i) e

-- The place of the card of an episode, if that card is of the same device.
place_of : Dict ℕ → List Card → Event → Option String → Option ℕ
unfolding device_place
place_of by_episode cards e none = none
place_of by_episode cards e (some parent) = device_place (lookup parent by_episode) cards e

-- Attaching at a place that was found, or not at all.
unfoldable pub attach_at : CodeTables → Option ℕ → Event → Board → Board
unfolding attach
attach_at codes none e board = board
attach_at codes (some i) e board = attach codes i e board

-- One event of a pass: used events and those that the pass is not about are left.
unfoldable pub offer :
    CodeTables → (Event → Bool) → (List Card → Event → Option ℕ) → Event → Board → Board
unfolding attach_at
offer codes eligible place e board =
    if is_used board e || not (eligible e)
    then board
    else attach_at codes (place board.cards e) e board

-- A pass: every event is offered a place in turn.
unfoldable pub pass :
    CodeTables → (Event → Bool) → (List Card → Event → Option ℕ) → List Event → Board → Board
unfolding offer
pass codes eligible place [] board = board
pass codes eligible place (e ∷ es) board =
    pass codes eligible place es (offer codes eligible place e board)

is_attachable : Event → Bool
is_attachable e =
    is_text e.event_kind kind_cleaning
    || (is_text e.event_kind kind_pet
        || (is_text e.event_kind kind_motion || is_text e.event_kind kind_error))

-- _attach_linked_followups
unfoldable pub attach_linked_followups :
    CodeTables → List Event → Dict String → Dict ℕ → Board → Board
unfolding pass is_attachable place_of parent_of
attach_linked_followups codes events parents by_episode board =
    pass codes is_attachable (λ cards e. place_of by_episode cards e (parent_of parents e)) events
      board

-- 0 <= e.ts - s.ts <= SUB_EVENT_WINDOW_SEC, with the difference
after_within : Option ℕ → Option ℕ → Option ℕ
after_within none card_ts = none
after_within (some t) none = none
after_within (some t) (some s) =
    if leb s t && leb (t - s) sub_event_window then some (t - s) else none

-- The distance of an event behind a visit of its device.
unfoldable pub visit_distance : Event → Card → Option ℕ
unfolding after_within
visit_distance e card =
    if str_eq card.kind "visit" && same_id card.device_id e.device_id
    then after_within e.ts card.ts
    else none

place_only : Option (ℕ × ℕ) → Option ℕ
place_only none = none
place_only (some (i, d)) = some i

is_cleaning : Event → Bool
is_cleaning e = is_text e.event_kind kind_cleaning

-- _attach_nearby_cleanings
unfoldable pub attach_nearby_cleanings : CodeTables → List Event → Board → Board
unfolding pass is_cleaning visit_distance place_only nearest
attach_nearby_cleanings codes events board =
    pass codes is_cleaning (λ cards e. place_only (nearest (visit_distance e) 0 cards)) events board

file_orphan : Option String → Event → Groups Event → Groups Event
unfolding add_to
file_orphan none e groups = groups
file_orphan (some rel) e groups = add_to rel e groups

-- The cleaning episodes that no visit claimed.
unfoldable pub orphan_episodes : List ℕ → List Event → Groups Event → Groups Event
unfolding file_orphan is_cleaning
orphan_episodes used [] groups = groups
orphan_episodes used (e ∷ es) groups = orphan_episodes used es (
    if contains used e.id || not (is_cleaning e)
    then groups
    else file_orphan (truthy e.related_event) e groups)

card_from_orphan : CodeTables → List Event → Option Event → Board → Board
unfolding add_episode session_from_visit relabel
card_from_orphan codes group none board = board
card_from_orphan codes group (some anchor) board =
    add_episode codes (relabel kind_cleaning (session_from_visit anchor none anchor.media)) anchor
      group board

-- The completion step of an episode.
completion_of : CodeTables → List Event → Option Event
completion_of codes group = find (λ e. codes.is_primary_done e.event_type) group

cards_from_orphans : CodeTables → Groups Event → Board → Board
unfolding card_from_orphan completion_of sort_events
cards_from_orphans codes [] board = board
cards_from_orphans codes ((rel, group) ∷ groups) board =
    cards_from_orphans codes groups
      (card_from_orphan codes (sort_events group) (completion_of codes (sort_events group)) board)

-- _cards_from_orphan_cleanings
unfoldable pub cards_from_orphan_cleanings : CodeTables → List Event → Board → Board
unfolding cards_from_orphans orphan_episodes
cards_from_orphan_cleanings codes events board =
    cards_from_orphans codes (orphan_episodes board.used events []) board

-- abs(e.ts - s.ts) <= CYCLE_TAIL_WINDOW_SEC, with the difference
near_within : Option ℕ → Option ℕ → Option ℕ
near_within none card_ts = none
near_within (some t) none = none
near_within (some t) (some s) =
    let distance = (t - s) + (s - t) in
    if leb distance cycle_tail_window then some distance else none

-- The distance of an event to a cleaning card of its device that is not of its own episode.
unfoldable pub cleaning_distance : Event → Card → Option ℕ
unfolding near_within
cleaning_distance e card =
    if str_eq card.kind kind_cleaning
      && (same_id card.device_id e.device_id && not (same_text card.related_event e.related_event))
    then near_within e.ts card.ts
    else none

-- _attach_cycle_tails
unfoldable pub attach_cycle_tails : CodeTables → List Event → Board → Board
unfolding pass is_cleaning cleaning_distance place_only nearest
attach_cycle_tails codes events board =
    pass codes is_cleaning (λ cards e. place_only (nearest (cleaning_distance e) 0 cards)) events
      board

-- The passes of group_sessions before the cards are finished.
unfoldable pub passes : CodeTables → List Event → Board
passes codes events =
    let found = episodes_of (anchor_events codes events) in
    let ix =
      cards_from_episodes codes found.by_related (record { board = empty; by_episode = [] }) in
    let with_visits = cards_from_loose_visits found.loose ix.board in
    let linked =
      attach_linked_followups codes events (episode_parents events) ix.by_episode with_visits in
    let cleaned = attach_nearby_cleanings codes events linked in
    let orphaned = cards_from_orphan_cleanings codes events cleaned in
    attach_cycle_tails codes events orphaned

-- _standalone_rows
unfoldable pub standalone_rows : List Event → List ℕ → List Card
unfolding standalone_row
standalone_rows [] used = []
standalone_rows (e ∷ es) used =
    let rest = standalone_rows es used in
    if contains used e.id then rest else standalone_row e ∷ rest
