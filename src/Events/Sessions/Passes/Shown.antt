-- ===== src/Events/Sessions/Passes/Shown.antt =====
-- After every pass the cards show exactly the events that the pass has marked as used.
use petkit_local.Prelude.{
  ℕ, ◌<◌, String, ◌≡◌, ◌≢◌, refl, Bool, true, false, not, ◌||◌, Option, none, some, List, [], ◌∷◌,
  arith, count, contains, length, Bool-cases, inl, inr, if◌then◌else◌, get_elem?, any,
}
use petkit_local.Prelude.Dict.{Dict, lookup}
use petkit_local.Events.Rows.{Event, CodeTables, same_id, is_text, kind_toilet}
use petkit_local.Events.Sessions.Cards.{
  Card, attach_all, session_from_visit, relabel, standalone_row,
}
use petkit_local.Events.Sessions.Groups.{Groups, sort_events}
use petkit_local.Events.Sessions.Board.{Board, add_card, is_used, nearest}
use petkit_local.Events.Sessions.Board.Shown.{
  event_ids, card_ids, shown_ids, IsAccounted, card_ids-attach_all, attach-IsAccounted,
  add_card-IsAccounted, get_elem?-length, IsPlaced, nearest-IsPlaced,
}
use petkit_local.Events.Sessions.Passes.{
  others, episode_head, add_episode, Indexed, cards_from_episodes, card_from_episode,
  cards_from_loose_visits, head_of, attach_at, offer, pass, place_of, device_place,
  same_device_place, place_only, parent_of, is_attachable, is_cleaning, attach_linked_followups,
  attach_nearby_cleanings, attach_cycle_tails, visit_distance, cleaning_distance,
  cards_from_orphans, card_from_orphan, completion_of, cards_from_orphan_cleanings, orphan_episodes,
  passes, standalone_rows,
}

-- A place is that of a card.
abbrev IsInside : Option ℕ → List Card → Type 0
IsInside none cards = Unit
IsInside (some i) cards = i < length cards

-- The head of an episode is a card of the anchor with no lines.
IsBare : Event → Card → Type 0
IsBare anchor card = (card.id ≡ anchor.id) × (card.sub_events ≡ [])

IsBare-choice :
    (b : Bool) (anchor : Event) (card other : Card)
    → IsBare anchor card
    → IsBare anchor other
    → IsBare anchor (if b then card else other)
IsBare-choice true anchor card other h k = h
IsBare-choice false anchor card other h k = k

episode_head-IsBare :
    (group : List Event) (anchor : Event) → IsBare anchor (episode_head group anchor)
unfolding IsBare episode_head session_from_visit relabel
episode_head-IsBare group anchor =
    IsBare-choice (any (λ e. is_text e.event_kind kind_toilet) group) anchor _ _ (refl, refl)
      (refl, refl)

add_episode-IsAccounted :
    (codes : CodeTables) (card : Card) (anchor : Event) (group : List Event) (board : Board)
    → IsBare anchor card
    → IsAccounted board
    → IsAccounted (add_episode codes card anchor group board)
unfolding IsBare add_episode
add_episode-IsAccounted codes card anchor group board (h, k) inv =
    add_card-IsAccounted (attach_all codes (others anchor group) card)
      (anchor.id ∷ event_ids (others anchor group)) board (λ x. same x) inv
  where
    bare : (x : ℕ) → count x (card_ids card) ≡ count x (anchor.id ∷ [])
    bare x = rw (h, k) refl

    same :
        (x : ℕ)
        → count x (card_ids (attach_all codes (others anchor group) card))
          ≡ count x (anchor.id ∷ event_ids (others anchor group))
    same x = omega (arith, card_ids-attach_all x codes (others anchor group) card, bare x)

card_from_episode-IsAccounted :
    (codes : CodeTables) (rel : String) (group : List Event) (anchor : Option Event) (ix : Indexed)
    → IsAccounted ix.board
    → IsAccounted (card_from_episode codes rel group anchor ix).board
unfolding card_from_episode
card_from_episode-IsAccounted codes rel group none ix inv = inv
card_from_episode-IsAccounted codes rel group (some anchor) ix inv =
    add_episode-IsAccounted codes (episode_head group anchor) anchor group ix.board
      (episode_head-IsBare group anchor) inv

cards_from_episodes-IsAccounted :
    (codes : CodeTables) (groups : Groups Event) (ix : Indexed)
    → IsAccounted ix.board
    → IsAccounted (cards_from_episodes codes groups ix).board
unfolding cards_from_episodes
cards_from_episodes-IsAccounted codes [] ix inv = inv
cards_from_episodes-IsAccounted codes ((rel, group) ∷ groups) ix inv =
    cards_from_episodes-IsAccounted codes groups
      (card_from_episode codes rel (sort_events group) (head_of codes (sort_events group)) ix)
      (card_from_episode-IsAccounted codes rel (sort_events group)
        (head_of codes (sort_events group)) ix inv)

cards_from_loose_visits-IsAccounted :
    (events : List Event) (board : Board)
    → IsAccounted board
    → IsAccounted (cards_from_loose_visits events board)
unfolding cards_from_loose_visits session_from_visit
cards_from_loose_visits-IsAccounted [] board inv = inv
cards_from_loose_visits-IsAccounted (e ∷ es) board inv =
    cards_from_loose_visits-IsAccounted es
      (add_card (session_from_visit e none e.media) (e.id ∷ []) board)
      (add_card-IsAccounted (session_from_visit e none e.media) (e.id ∷ []) board (λ x. refl) inv)

attach_at-IsAccounted :
    (codes : CodeTables) (place : Option ℕ) (e : Event) (board : Board)
    → IsInside place board.cards
    → IsAccounted board
    → IsAccounted (attach_at codes place e board)
unfolding attach_at
attach_at-IsAccounted codes none e board h inv = inv
attach_at-IsAccounted codes (some i) e board h inv = attach-IsAccounted codes i e board h inv

pass-IsAccounted :
    (codes : CodeTables) (eligible : Event → Bool) (place : List Card → Event → Option ℕ)
    (events : List Event) (board : Board)
    → ((cards : List Card) (e : Event) → IsInside (place cards e) cards)
    → IsAccounted board
    → IsAccounted (pass codes eligible place events board)
unfolding pass offer
pass-IsAccounted codes eligible place [] board h inv = inv
pass-IsAccounted codes eligible place (e ∷ es) board h inv =
    pass-IsAccounted codes eligible place es (offer codes eligible place e board) h
      (choose (is_used board e || not (eligible e)))
  where
    choose :
        (b : Bool)
        → IsAccounted (if b then board else attach_at codes (place board.cards e) e board)
    choose true = inv
    choose false = attach_at-IsAccounted codes (place board.cards e) e board (h board.cards e) inv

same_device_place-IsInside :
    (i : ℕ) (cards : List Card) (found : Option Card) (e : Event)
    → get_elem? cards i ≡ found
    → IsInside (same_device_place i found e) cards
unfolding same_device_place
same_device_place-IsInside i cards none e h = tt
same_device_place-IsInside i cards (some card) e h = choose (same_id card.device_id e.device_id)
  where
    choose : (b : Bool) → IsInside (if b then some i else none) cards
    choose true = get_elem?-length cards i h
    choose false = tt

device_place-IsInside :
    (found : Option ℕ) (cards : List Card) (e : Event) → IsInside (device_place found cards e) cards
unfolding device_place
device_place-IsInside none cards e = tt
device_place-IsInside (some i) cards e =
    same_device_place-IsInside i cards (get_elem? cards i) e refl

place_of-IsInside :
    (by_episode : Dict ℕ) (cards : List Card) (e : Event) (parent : Option String)
    → IsInside (place_of by_episode cards e parent) cards
unfolding place_of
place_of-IsInside by_episode cards e none = tt
place_of-IsInside by_episode cards e (some parent) =
    device_place-IsInside (lookup parent by_episode) cards e

place_only-IsInside :
    (cards : List Card) (found : Option (ℕ × ℕ))
    → IsPlaced (length cards) found
    → IsInside (place_only found) cards
unfolding place_only
place_only-IsInside cards none h = tt
place_only-IsInside cards (some (i, d)) h = h

nearest-IsInside :
    (distance : Card → Option ℕ) (cards : List Card)
    → IsInside (place_only (nearest distance 0 cards)) cards
nearest-IsInside distance cards =
    place_only-IsInside cards (nearest distance 0 cards)
      (nearest-IsPlaced (length cards) distance 0 cards (omega arith))

card_from_orphan-IsAccounted :
    (codes : CodeTables) (group : List Event) (anchor : Option Event) (board : Board)
    → IsAccounted board
    → IsAccounted (card_from_orphan codes group anchor board)
unfolding IsBare card_from_orphan relabel session_from_visit
card_from_orphan-IsAccounted codes group none board inv = inv
card_from_orphan-IsAccounted codes group (some anchor) board inv =
    add_episode-IsAccounted codes _ anchor group board (refl, refl) inv

cards_from_orphans-IsAccounted :
    (codes : CodeTables) (groups : Groups Event) (board : Board)
    → IsAccounted board
    → IsAccounted (cards_from_orphans codes groups board)
unfolding cards_from_orphans
cards_from_orphans-IsAccounted codes [] board inv = inv
cards_from_orphans-IsAccounted codes ((rel, group) ∷ groups) board inv =
    cards_from_orphans-IsAccounted codes groups
      (card_from_orphan codes (sort_events group) (completion_of codes (sort_events group)) board)
      (card_from_orphan-IsAccounted codes (sort_events group)
        (completion_of codes (sort_events group)) board inv)

attach_linked_followups-IsAccounted :
    (codes : CodeTables) (events : List Event) (parents : Dict String) (by_episode : Dict ℕ)
    (board : Board)
    → IsAccounted board
    → IsAccounted (attach_linked_followups codes events parents by_episode board)
unfolding attach_linked_followups
attach_linked_followups-IsAccounted codes events parents by_episode board =
    pass-IsAccounted codes is_attachable
      (λ cards e. place_of by_episode cards e (parent_of parents e)) events board
      (λ cards e. place_of-IsInside by_episode cards e (parent_of parents e))

attach_nearby_cleanings-IsAccounted :
    (codes : CodeTables) (events : List Event) (board : Board)
    → IsAccounted board
    → IsAccounted (attach_nearby_cleanings codes events board)
unfolding attach_nearby_cleanings
attach_nearby_cleanings-IsAccounted codes events board =
    pass-IsAccounted codes is_cleaning (λ cards e. place_only (nearest (visit_distance e) 0 cards))
      events board (λ cards e. nearest-IsInside (visit_distance e) cards)

attach_cycle_tails-IsAccounted :
    (codes : CodeTables) (events : List Event) (board : Board)
    → IsAccounted board
    → IsAccounted (attach_cycle_tails codes events board)
unfolding attach_cycle_tails
attach_cycle_tails-IsAccounted codes events board =
    pass-IsAccounted codes is_cleaning
      (λ cards e. place_only (nearest (cleaning_distance e) 0 cards)) events board
      (λ cards e. nearest-IsInside (cleaning_distance e) cards)

cards_from_orphan_cleanings-IsAccounted :
    (codes : CodeTables) (events : List Event) (board : Board)
    → IsAccounted board
    → IsAccounted (cards_from_orphan_cleanings codes events board)
unfolding cards_from_orphan_cleanings
cards_from_orphan_cleanings-IsAccounted codes events board =
    cards_from_orphans-IsAccounted codes (orphan_episodes board.used events []) board

-- After all of the passes each event id stands on the cards exactly as often as it is marked as
-- used.
pub passes-IsAccounted :
    (codes : CodeTables) (events : List Event) → IsAccounted (passes codes events)
unfolding passes
passes-IsAccounted codes events = attach_cycle_tails-IsAccounted codes events _ (
    cards_from_orphan_cleanings-IsAccounted codes events _ (
      attach_nearby_cleanings-IsAccounted codes events _ (
        attach_linked_followups-IsAccounted codes events _ _ _ (
          cards_from_loose_visits-IsAccounted _ _
            (cards_from_episodes-IsAccounted codes _ _ (record { accounts = λ x. refl }))))))

contains-differ :
    (used : List ℕ) (x y : ℕ) → contains used x ≡ false → contains used y ≡ true → x ≢ y
contains-differ used x y h t q = absurd (cc)

-- An event that is not used has a standalone row.
pub standalone_rows-shown :
    (x : ℕ) (events : List Event) (used : List ℕ)
    → contains used x ≡ false
    → count x (shown_ids (standalone_rows events used)) ≡ count x (event_ids events)
unfolding standalone_rows standalone_row
standalone_rows-shown x [] used h = refl
standalone_rows-shown x (e ∷ es) used h = elim (Bool-cases (contains used e.id)) [
  | inl t ↦
      rw t (ground (arith, standalone_rows-shown x es used h, contains-differ used x e.id h t))
  | inr f ↦ rw f (omega (arith, standalone_rows-shown x es used h))
]
