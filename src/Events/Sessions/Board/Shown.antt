-- ===== src/Events/Sessions/Board/Shown.antt =====
-- The events that the cards show, and that a card takes up what it is said to take up.
use petkit_local.Prelude.{
  ℕ, zero, suc, ◌+◌, ◌≤◌, ◌<◌, ◌≡◌, refl, ap, Bool, true, false, Option, none, some, List, [], ◌∷◌,
  ◌++◌, map, arith, count, count-append, length, if◌then◌else◌, get_elem?, leb,
}
use petkit_local.Events.Rows.{Event, CodeTables}
use petkit_local.Events.Sessions.Cards.{Card, SubEvent, attach_to, attach_all, sub_event_of}
use petkit_local.Events.Sessions.Board.{Board, modify, attach, add_card, nearer, nearest}

abbrev pub event_ids : List Event → List ℕ
event_ids = map (λ e. e.id)

abbrev pub line_ids : List SubEvent → List ℕ
line_ids = map (λ s. s.id)

-- The events that a card shows: the one that heads it, and those on its lines.
abbrev pub card_ids : Card → List ℕ
card_ids card = card.id ∷ line_ids card.sub_events

abbrev pub shown_ids : List Card → List ℕ
shown_ids [] = []
shown_ids (card ∷ cards) = card_ids card ++ shown_ids cards

-- The cards show exactly the ids that are marked as used, each as often as it is marked.
pub record IsAccounted (board : Board) : Type 0 where
  pub accounts : (x : ℕ) → count x (shown_ids board.cards) ≡ count x board.used

line_ids-append : (xs ys : List SubEvent) → line_ids (xs ++ ys) ≡ line_ids xs ++ line_ids ys
line_ids-append [] ys = refl
line_ids-append (x ∷ xs) ys = ap (λ l. x.id ∷ l) (line_ids-append xs ys)

-- Attaching an event to a card shows it there.
card_ids-attach_to :
    (x : ℕ) (codes : CodeTables) (e : Event) (card : Card)
    → count x (card_ids (attach_to codes e card)) ≡ count x (e.id ∷ card_ids card)
unfolding attach_to sub_event_of
card_ids-attach_to x codes e card =
    rw
      (
        line_ids-append card.sub_events (sub_event_of codes e ∷ []),
        count-append x (line_ids card.sub_events) (e.id ∷ []),
      )
      (omega arith)

pub card_ids-attach_all :
    (x : ℕ) (codes : CodeTables) (es : List Event) (card : Card)
    → count x (card_ids (attach_all codes es card))
      ≡ count x (event_ids es) + count x (card_ids card)
unfolding attach_all
card_ids-attach_all x codes [] card = omega arith
card_ids-attach_all x codes (e ∷ es) card = omega (
  arith,
  card_ids-attach_all x codes es (attach_to codes e card),
  card_ids-attach_to x codes e card,
)

shown_ids-modify :
    (x : ℕ) (codes : CodeTables) (e : Event) (i : ℕ) (cards : List Card)
    → i < length cards
    → count x (shown_ids (modify i (attach_to codes e) cards)) ≡ count x (e.id ∷ shown_ids cards)
unfolding modify
shown_ids-modify x codes e i [] h = absurd (omega arith)
shown_ids-modify x codes e zero (card ∷ cards) h = omega (
  arith,
  count-append x (card_ids (attach_to codes e card)) (shown_ids cards),
  count-append x (card_ids card) (shown_ids cards),
  card_ids-attach_to x codes e card,
)
shown_ids-modify x codes e (suc i) (card ∷ cards) h = omega (
  arith,
  count-append x (card_ids card) (shown_ids (modify i (attach_to codes e) cards)),
  count-append x (card_ids card) (shown_ids cards),
  shown_ids-modify x codes e i cards (omega arith),
)

pub attach-IsAccounted :
    (codes : CodeTables) (i : ℕ) (e : Event) (board : Board)
    → i < length board.cards
    → IsAccounted board
    → IsAccounted (attach codes i e board)
unfolding attach
attach-IsAccounted codes i e board h inv = record {
  accounts = λ x. omega (arith, shown_ids-modify x codes e i board.cards h, inv.accounts x);
}

pub shown_ids-append :
    (x : ℕ) (cards rest : List Card)
    → count x (shown_ids (cards ++ rest)) ≡ count x (shown_ids cards) + count x (shown_ids rest)
shown_ids-append x [] rest = omega arith
shown_ids-append x (card ∷ cards) rest = omega (
  arith,
  count-append x (card_ids card) (shown_ids (cards ++ rest)),
  count-append x (card_ids card) (shown_ids cards),
  shown_ids-append x cards rest,
)

pub add_card-IsAccounted :
    (card : Card) (ids : List ℕ) (board : Board)
    → ((x : ℕ) → count x (card_ids card) ≡ count x ids)
    → IsAccounted board
    → IsAccounted (add_card card ids board)
unfolding add_card
add_card-IsAccounted card ids board same inv = record {
  accounts = λ x. omega (
    arith,
    shown_ids-append x board.cards (card ∷ []),
    count-append x (card_ids card) [],
    count-append x ids board.used,
    same x,
    inv.accounts x,
  );
}

pub get_elem?-length :
    {A : Type 0} (xs : List A) (i : ℕ) {x : A} → get_elem? xs i ≡ some x → i < length xs
get_elem?-length [] i h = absurd (cc)
get_elem?-length (x ∷ xs) zero h = omega arith
get_elem?-length (x ∷ xs) (suc i) h = omega (arith, get_elem?-length xs i h)

-- A place that was found is below a bound.
abbrev pub IsPlaced : ℕ → Option (ℕ × ℕ) → Type 0
IsPlaced n none = Unit
IsPlaced n (some (i, d)) = i < n

nearer-IsPlaced :
    (n : ℕ) (distance : Option ℕ) (i : ℕ) (rest : Option (ℕ × ℕ))
    → i < n
    → IsPlaced n rest
    → IsPlaced n (nearer distance i rest)
unfolding nearer
nearer-IsPlaced n none i rest h r = r
nearer-IsPlaced n (some d) i none h r = h
nearer-IsPlaced n (some d) i (some (j, d')) h r = choose (leb d d')
  where
    choose : (b : Bool) → IsPlaced n (if b then some (i, d) else some (j, d'))
    choose true = h
    choose false = r

-- The place that `nearest` returns is the place of a card.
pub nearest-IsPlaced :
    (n : ℕ) (distance : Card → Option ℕ) (i : ℕ) (cards : List Card)
    → i + length cards ≤ n
    → IsPlaced n (nearest distance i cards)
unfolding nearest
nearest-IsPlaced n distance i [] h = tt
nearest-IsPlaced n distance i (card ∷ cards) h =
    nearer-IsPlaced n (distance card) i (nearest distance (suc i) cards) (omega arith)
      (nearest-IsPlaced n distance (suc i) cards (omega arith))
