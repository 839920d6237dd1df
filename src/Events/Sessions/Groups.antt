-- ===== src/Events/Sessions/Groups.antt =====
-- Grouping rows by episode, and the stable sorts that sessions.py uses.
pub mod Sorts
use petkit_local.Prelude.{
  ℕ, ◌≡◌, String, Bool, true, false, ◌&&◌, ◌||◌, not, Option, none, some, List, [], ◌∷◌, ◌++◌,
  str_eq, ltb, leb, if◌then◌else◌, filter,
}
use petkit_local.Events.Rows.{
  Event, CodeTables, ts_or_0, truthy, is_text, kind_toilet, kind_pet, kind_motion, kind_error,
  kind_feeding, kind_drinking,
}
use petkit_local.Events.Sessions.Cards.{Card, SubEvent}

-- Rows by episode, in the order in which the episodes were found.
abbrev pub Groups {ℓ} : Type ℓ → Type ℓ
Groups A = List (String × List A)

module _ {ℓ} {A : Type ℓ} where
  -- groups.setdefault(rel, []).append(x)
  unfoldable pub add_to : String → A → Groups A → Groups A
  add_to rel x [] = (rel, x ∷ []) ∷ []
  add_to rel x ((r, xs) ∷ groups) =
      if str_eq r rel then (r, xs ++ x ∷ []) ∷ groups else (r, xs) ∷ add_to rel x groups

  -- An insertion behind the elements that do not come after it keeps a sort stable.
  unfoldable pub insert_by : (A → A → Bool) → A → List A → List A
  insert_by after x [] = x ∷ []
  insert_by after x (y ∷ ys) = if after x y then y ∷ insert_by after x ys else x ∷ y ∷ ys

  unfoldable pub sort_by : (A → A → Bool) → List A → List A
  unfolding insert_by
  sort_by after [] = []
  sort_by after (x ∷ xs) = insert_by after x (sort_by after xs)

-- group.sort(key=lambda e: e.get("ts") or 0)
unfoldable pub sort_events : List Event → List Event
unfolding sort_by
sort_events = sort_by (λ x y. ltb (ts_or_0 y.ts) (ts_or_0 x.ts))

-- session["sub_events"].sort(key=lambda s: s.get("ts") or 0)
unfoldable pub sort_lines : List SubEvent → List SubEvent
unfolding sort_by
sort_lines = sort_by (λ x y. ltb (ts_or_0 y.ts) (ts_or_0 x.ts))

-- sessions.sort(key=lambda s: s.get("ts") or 0, reverse=True)
unfoldable pub sort_newest_first : List Card → List Card
unfolding sort_by
sort_newest_first = sort_by (λ x y. ltb (ts_or_0 x.ts) (ts_or_0 y.ts))

-- Whether _anchor_events admits the event.
unfoldable pub is_anchor_event : CodeTables → Event → Bool
is_anchor_event codes e =
    (is_text e.event_kind kind_toilet
      || (is_text e.event_kind kind_feeding || is_text e.event_kind kind_drinking))
    || ((is_text e.event_kind kind_pet
          || (is_text e.event_kind kind_motion || is_text e.event_kind kind_error))
        && not (codes.is_detail e.event_type e.device_type))

-- _anchor_events
unfoldable pub anchor_events : CodeTables → List Event → List Event
unfolding is_anchor_event
anchor_events codes events = filter (is_anchor_event codes) events

-- What _episodes_of returns: the episodes, and the visits with no episode id.
pub record Episodes : Type 0 where
  pub by_related : Groups Event
  pub loose : List Event

file_anchor : Option String → Event → Episodes → Episodes
unfolding add_to
file_anchor (some rel) e found = record found { by_related = add_to rel e found.by_related }
file_anchor none e found =
    if is_text e.event_kind kind_toilet
    then record found { loose = found.loose ++ e ∷ [] }
    else found

file_anchors : List Event → Episodes → Episodes
unfolding file_anchor
file_anchors [] found = found
file_anchors (e ∷ es) found = file_anchors es (file_anchor (truthy e.related_event) e found)

-- _episodes_of
unfoldable pub episodes_of : List Event → Episodes
unfolding file_anchors
episodes_of anchors = file_anchors anchors (record { by_related = []; loose = [] })
