-- ===== src/Events/Sessions/Cards.antt =====
-- One card of the Timeline, and what hangs off it: `_session_from_visit` and `_attach` of
-- addon/petkit_local/events/sessions.py.
use petkit_local.Prelude.{ℕ, String, Bool, Option, none, some, List, [], ◌∷◌, ◌++◌}
use petkit_local.Prelude.Int.{ℤ}
use petkit_local.Prelude.Json.{Json}
use petkit_local.Events.Rows.{
  Event, CodeTables, Content, kind_toilet, weight_of, recalc_weight_of, duration_of, display_ts_of,
  as_time,
}

-- A sub-event line.
pub record SubEvent : Type 0 where
  pub id : ℕ
  pub event_type : String
  pub ts : Option ℕ
  pub related_event : Option String
  pub detail : Bool
  pub content : Content
  pub state : Json
  pub media : List ℕ

pub record Card : Type 0 where
  pub kind : String
  pub id : ℕ
  pub related_event : Option String
  pub device_id : Option ℕ
  pub device_type : Option String
  pub ts : Option ℕ
  pub display_ts : Option ℤ
  pub pet_id : Option ℕ
  pub event_type : String
  pub event_kind : Option String
  pub duration_sec : Option ℕ
  pub weight : Option ℤ
  pub content : Content
  pub state : Json
  pub sub_events : List SubEvent
  pub media : List ℕ

-- The recalculated weight, when there is one, in place of the box's own.
best_weight : Option ℤ → Option ℤ → Option ℤ
best_weight none own = own
best_weight (some recalculated) own = some recalculated

-- _session_from_visit
unfoldable pub session_from_visit : Event → Option Event → List ℕ → Card
unfolding best_weight duration_of display_ts_of weight_of recalc_weight_of
session_from_visit anchor pet_in media = record {
  kind = "visit";
  id = anchor.id;
  related_event = anchor.related_event;
  device_id = anchor.device_id;
  device_type = anchor.device_type;
  ts = anchor.ts;
  display_ts = display_ts_of anchor pet_in;
  pet_id = anchor.pet_id;
  event_type = anchor.event_type;
  event_kind = some kind_toilet;
  duration_sec = duration_of anchor pet_in;
  weight = best_weight (recalc_weight_of anchor.content) (weight_of anchor.content);
  content = anchor.content;
  state = anchor.state;
  sub_events = [];
  media = media;
}

-- session.update(kind=…, event_kind=…, duration_sec=None, weight=None)
unfoldable pub relabel : String → Card → Card
relabel kind card = record card {
  kind = kind;
  event_kind = some kind;
  duration_sec = none;
  weight = none;
}

-- The line of one event.
unfoldable pub sub_event_of : CodeTables → Event → SubEvent
sub_event_of codes e = record {
  id = e.id;
  event_type = e.event_type;
  ts = e.ts;
  related_event = e.related_event;
  detail = codes.is_detail e.event_type e.device_type;
  content = e.content;
  state = e.state;
  media = [];
}

-- Identity fills up: the card takes the pet of a line only if it has none.
fill_pet : Option ℕ → Option ℕ → Option ℕ
fill_pet none line = line
fill_pet (some pet) line = some pet

-- What _attach does to the card.
unfoldable pub attach_to : CodeTables → Event → Card → Card
unfolding fill_pet sub_event_of
attach_to codes e card = record card {
  pet_id = fill_pet card.pet_id e.pet_id;
  sub_events = card.sub_events ++ sub_event_of codes e ∷ [];
}

unfoldable pub attach_all : CodeTables → List Event → Card → Card
unfolding attach_to
attach_all codes [] card = card
attach_all codes (e ∷ es) card = attach_all codes es (attach_to codes e card)

-- A lighter card, for an event that no session claimed.
unfoldable pub standalone_row : Event → Card
standalone_row e = record {
  kind = "event";
  id = e.id;
  related_event = e.related_event;
  device_id = e.device_id;
  device_type = e.device_type;
  ts = e.ts;
  display_ts = as_time e.ts;
  pet_id = e.pet_id;
  event_type = e.event_type;
  event_kind = e.event_kind;
  duration_sec = none;
  weight = none;
  content = e.content;
  state = e.state;
  sub_events = [];
  media = e.media;
}
