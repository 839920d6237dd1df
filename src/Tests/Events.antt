-- ===== src/Tests/Events.antt =====
-- The Timeline, on a few rows.
use petkit_local.Prelude.{
  ℕ, ◌*◌, ◌<◌, String, ◌≡◌, refl, Option, none, some, List, [], ◌∷◌, arith, count, str_eq, length,
  filter,
}
use petkit_local.Prelude.Json.{null}
use petkit_local.Events.Rows.{Event, CodeTables, kind_toilet, kind_cleaning, ts_or_0, unit}
use petkit_local.Events.Sessions.{group_sessions}
use petkit_local.Events.Sessions.Cards.{Card, standalone_row}
use petkit_local.Events.Sessions.Groups.{sort_newest_first, episodes_of, anchor_events}
use petkit_local.Events.Sessions.Media.{finish_card}
use petkit_local.Events.Sessions.Passes.{
  passes, attach_cycle_tails, cards_from_orphan_cleanings, attach_nearby_cleanings,
  attach_linked_followups, cards_from_loose_visits, cards_from_episodes, episode_parents,
  standalone_rows,
}
use petkit_local.Events.Sessions.Chips.{filter_counts, matches_filter}
use petkit_local.Events.Sessions.Chips.Badges.{filter_counts_lem}
use petkit_local.Events.Sessions.Groups.Sorts.{IsNewestFirst}
use petkit_local.Events.Sessions.Board.Shown.{event_ids, shown_ids}
use petkit_local.Events.Sessions.Shown.{group_sessions-shown, group_sessions-IsNewestFirst}

abbrev tables : CodeTables
tables = record {
  is_anchor = λ t. str_eq t "10";
  is_primary_done = λ t. str_eq t "clean_over";
  is_detail = λ t device_type. str_eq t "pet_in";
}

abbrev row : ℕ → String → String → Option String → ℕ → Event
row id event_type event_kind related ts = record {
  id = id;
  related_event = related;
  parent_event = none;
  device_id = some 7;
  device_type = some "t5";
  ts = some (ts * unit);
  pet_id = none;
  event_type = event_type;
  event_kind = some event_kind;
  content = [];
  state = null;
  media = [];
}

-- A visit of two steps, a cleaning five minutes behind it, and one the next day.
abbrev rows : List Event
rows =
    row 1 "pet_in" kind_toilet (some "visit") 1000
    ∷ row 2 "10" kind_toilet (some "visit") 1060
    ∷ row 3 "clean_over" kind_cleaning (some "cycle") 1360
    ∷ row 4 "clean_over" kind_cleaning (some "late") 87400
    ∷ []

abbrev cards : List Card
cards =
    standalone_row (row 2 "10" kind_toilet none 1060)
    ∷ standalone_row (row 3 "clean_over" kind_cleaning none 1360)
    ∷ []

-- The cleaning hangs off the visit.
grouped : event_ids rows ≡ 1 ∷ 2 ∷ 3 ∷ 4 ∷ []
grouped = refl

shown_rows : shown_ids (group_sessions tables rows) ≡ 4 ∷ 2 ∷ 1 ∷ 3 ∷ []
unfolding group_sessions sort_newest_first passes attach_cycle_tails cards_from_orphan_cleanings
    attach_nearby_cleanings attach_linked_followups cards_from_loose_visits cards_from_episodes
    episodes_of anchor_events episode_parents standalone_rows finish_card
shown_rows = refl

group_sessions-shown_example : 0 < count 3 (shown_ids (group_sessions tables rows))
group_sessions-shown_example = group_sessions-shown tables rows 3 (omega arith)

group_sessions-IsNewestFirst_example :
    IsNewestFirst (λ card. ts_or_0 card.ts) (group_sessions tables rows)
group_sessions-IsNewestFirst_example = group_sessions-IsNewestFirst tables rows

filter_counts_lem_example :
    ((filter_counts cards).total ≡ length (filter (λ card. matches_filter card "all") cards))
    × ((filter_counts cards).pet ≡ length (filter (λ card. matches_filter card "pet") cards))
    × ((filter_counts cards).toileting
        ≡ length (filter (λ card. matches_filter card "toileting") cards))
    × ((filter_counts cards).drinking
        ≡ length (filter (λ card. matches_filter card "drinking") cards))
    × ((filter_counts cards).feeding
        ≡ length (filter (λ card. matches_filter card "feeding") cards))
    × ((filter_counts cards).cleaning
        ≡ length (filter (λ card. matches_filter card "cleaning") cards))
    × ((filter_counts cards).health_alert
        ≡ length (filter (λ card. matches_filter card "health_alert") cards))
    × ((filter_counts cards).fault ≡ length (filter (λ card. matches_filter card "fault") cards))
filter_counts_lem_example = filter_counts_lem cards

abbrev visit : Card
visit = standalone_row (row 2 "10" kind_toilet none 1060)
