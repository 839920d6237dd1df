-- ===== src/Events/Sessions/Shown.antt =====
-- What the Timeline shows of the stored events.
use petkit_local.Prelude.{
  ℕ, ◌+◌, ◌<◌, ◌≡◌, refl, List, [], ◌∷◌, ◌++◌, map, arith, count, count-append, contains,
  contains-true, Bool-cases, inl, inr, ltb,
}
use petkit_local.Events.Rows.{Event, CodeTables, ts_or_0}
use petkit_local.Events.Sessions.{group_sessions}
use petkit_local.Events.Sessions.Cards.{Card}
use petkit_local.Events.Sessions.Groups.{sort_by, sort_newest_first}
use petkit_local.Events.Sessions.Groups.Sorts.{
  total, total-sort_by, IsNewestFirst, forget_bound, highest, sort_by-IsFalling,
}
use petkit_local.Events.Sessions.Board.Shown.{event_ids, card_ids, shown_ids, shown_ids-append}
use petkit_local.Events.Sessions.Passes.{passes, standalone_rows}
use petkit_local.Events.Sessions.Passes.Shown.{passes-IsAccounted, standalone_rows-shown}
use petkit_local.Events.Sessions.Media.{finish_card}
use petkit_local.Events.Sessions.Media.Shown.{card_ids-finish_card}

count-shown_ids :
    (x : ℕ) (cards : List Card)
    → count x (shown_ids cards) ≡ total (λ card. count x (card_ids card)) cards
count-shown_ids x [] = refl
count-shown_ids x (card ∷ cards) =
    omega (arith, count-append x (card_ids card) (shown_ids cards), count-shown_ids x cards)

shown_ids-finish :
    (x : ℕ) (codes : CodeTables) (events : List Event) (cards : List Card)
    → count x (shown_ids (map (finish_card codes events) cards)) ≡ count x (shown_ids cards)
shown_ids-finish x codes events [] = refl
shown_ids-finish x codes events (card ∷ cards) = omega (
  arith,
  count-append x (card_ids card) (shown_ids cards),
  count-append x (card_ids (finish_card codes events card))
      (shown_ids (map (finish_card codes events) cards)),
  card_ids-finish_card x codes events card,
  shown_ids-finish x codes events cards,
)

-- The Timeline shows an id as often as the passes used it, and as the standalone rows show it.
shown_ids-group_sessions :
    (x : ℕ) (codes : CodeTables) (events : List Event)
    → count x (shown_ids (group_sessions codes events))
      ≡ count x (passes codes events).used
        + count x (shown_ids (standalone_rows events (passes codes events).used))
unfolding group_sessions sort_newest_first
shown_ids-group_sessions x codes events =
    let board = passes codes events in
    let rows = standalone_rows events board.used in
    let cards = map (finish_card codes events) board.cards ++ rows in
    omega (
      arith,
      count-shown_ids x (sort_by (λ a b. ltb (ts_or_0 a.ts) (ts_or_0 b.ts)) cards),
      total-sort_by (λ card. count x (card_ids card)) (λ a b. ltb (ts_or_0 a.ts) (ts_or_0 b.ts))
          cards,
      count-shown_ids x cards,
      shown_ids-append x (map (finish_card codes events) board.cards) rows,
      shown_ids-finish x codes events board.cards,
      (passes-IsAccounted codes events).accounts x,
    )

-- No event is lost: whatever the code tables say, and however the events are paired, linked and
-- timed, each event that is given to `group_sessions` heads a session of its result or stands on a
-- line of one.
pub group_sessions-shown :
    (codes : CodeTables) (events : List Event) (x : ℕ)
    → 0 < count x (event_ids events)
    → 0 < count x (shown_ids (group_sessions codes events))
group_sessions-shown codes events x h = elim (Bool-cases (contains (passes codes events).used x)) [
  | inl t ↦
      omega (
        arith,
        shown_ids-group_sessions x codes events,
        contains-true x (passes codes events).used t,
      )
  | inr f ↦ omega (
    arith,
    shown_ids-group_sessions x codes events,
    standalone_rows-shown x events (passes codes events).used f,
  )
]

-- The sessions are newest first: along the list the times do not grow, a missing time counting as 0.
pub group_sessions-IsNewestFirst :
    (codes : CodeTables) (events : List Event)
    → IsNewestFirst (λ card. ts_or_0 card.ts) (group_sessions codes events)
unfolding group_sessions sort_newest_first
group_sessions-IsNewestFirst codes events =
    let cards =
      map (finish_card codes events) (passes codes events).cards
      ++ standalone_rows events (passes codes events).used in
    forget_bound (λ card. ts_or_0 card.ts) (highest (λ card. ts_or_0 card.ts) cards)
      (sort_by (λ a b. ltb (ts_or_0 a.ts) (ts_or_0 b.ts)) cards)
      (sort_by-IsFalling (λ card. ts_or_0 card.ts) cards)
