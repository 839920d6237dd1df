-- ===== src/Events/Sessions/Board.antt =====
-- The cards that the passes of sessions.py share and mutate, with the ids that are used. A card is
-- named by its place in the list, which only grows at its end.
pub mod Shown
use petkit_local.Prelude.{
  ℕ, zero, suc, ◌+◌, Option, none, some, List, [], ◌∷◌, ◌++◌, length, contains, Bool, leb, ltb,
  if◌then◌else◌, get_elem?,
}
use petkit_local.Events.Rows.{Event, CodeTables}
use petkit_local.Events.Sessions.Cards.{Card, attach_to}

pub record Board : Type 0 where
  pub cards : List Card
  pub used : List ℕ

abbrev pub empty : Board
empty = record { cards = []; used = [] }

-- Mutating the card at a place.
unfoldable pub modify : ℕ → (Card → Card) → List Card → List Card
modify i f [] = []
modify zero f (card ∷ cards) = f card ∷ cards
modify (suc i) f (card ∷ cards) = card ∷ modify i f cards

-- _attach(session, e, used_ids), for the session at a place
unfoldable pub attach : CodeTables → ℕ → Event → Board → Board
unfolding modify attach_to
attach codes i e board = record {
  cards = modify i (attach_to codes e) board.cards;
  used = e.id ∷ board.used;
}

-- A new card at the end, with the ids that it takes up.
unfoldable pub add_card : Card → List ℕ → Board → Board
add_card card ids board = record { cards = board.cards ++ card ∷ []; used = ids ++ board.used }

abbrev pub is_used : Board → Event → Bool
is_used board e = contains board.used e.id

-- The nearer of a card at a place, if it has a distance, and what was found behind it.
nearer : Option ℕ → ℕ → Option (ℕ × ℕ) → Option (ℕ × ℕ)
nearer none i rest = rest
nearer (some d) i none = some (i, d)
nearer (some d) i (some (j, d')) = if leb d d' then some (i, d) else some (j, d')

-- The place of the nearest of the cards that have a distance, the first of those that are equally
-- near: min(candidates, key=…). The places are counted from `i`.
unfoldable pub nearest : (Card → Option ℕ) → ℕ → List Card → Option (ℕ × ℕ)
unfolding nearer
nearest distance i [] = none
nearest distance i (card ∷ cards) = nearer (distance card) i (nearest distance (suc i) cards)
