-- ===== src/Events/Sessions/Media.antt =====
-- Finishing a card: its lines in order of time, and each sub-episode's media on one line,
-- `_assign_episode_media` of addon/petkit_local/events/sessions.py.
pub mod Shown
use petkit_local.Prelude.{
  ℕ, String, Bool, true, false, ◌&&◌, ◌||◌, not, Option, none, some, List, [], ◌∷◌, ◌++◌, map,
  str_eq, ◌==◌, if◌then◌else◌, find, contains,
}
use petkit_local.Events.Rows.{Event, CodeTables, truthy, is_text}
use petkit_local.Events.Sessions.Cards.{Card, SubEvent}
use petkit_local.Events.Sessions.Groups.{Groups, add_to, sort_lines}

file_line : Option String → Option String → SubEvent → Groups SubEvent → Groups SubEvent
unfolding add_to
file_line own none sub groups = groups
file_line own (some rel) sub groups = if is_text own rel then groups else add_to rel sub groups

-- The lines of the other episodes on a card, by episode.
lines_by_episode : Option String → List SubEvent → Groups SubEvent → Groups SubEvent
unfolding file_line
lines_by_episode own [] groups = groups
lines_by_episode own (sub ∷ subs) groups =
    lines_by_episode own subs (file_line own (truthy sub.related_event) sub groups)

-- bucket.append(m) for each m that is not in it
add_new : List ℕ → List ℕ → List ℕ
add_new bucket [] = bucket
add_new bucket (m ∷ ms) = add_new (if contains bucket m then bucket else bucket ++ m ∷ []) ms

-- The media of one episode, in the order of the events.
episode_media : String → List ℕ → List Event → List ℕ
unfolding add_new
episode_media rel bucket [] = bucket
episode_media rel bucket (e ∷ es) =
    episode_media rel (if is_text e.related_event rel then add_new bucket e.media else bucket) es

last_line : SubEvent → List SubEvent → SubEvent
last_line sub [] = sub
last_line sub (next ∷ subs) = last_line next subs

-- The line that takes the media: the completion of the cycle, else the last line.
carrier_of : CodeTables → SubEvent → List SubEvent → SubEvent
unfolding last_line
carrier_of codes sub subs =
    elim (find (λ (s : SubEvent). codes.is_primary_done s.event_type) (sub ∷ subs)) [
      | some s ↦ s
      | none ↦ last_line sub subs
    ]

-- carrier["media"] = media; a line is known by its event's id.
set_media : ℕ → List ℕ → List SubEvent → List SubEvent
set_media id media [] = []
set_media id media (s ∷ subs) =
    (if s.id == id then record s { media = media } else s) ∷ set_media id media subs

-- An episode with no media leaves its lines as they are.
give_media : CodeTables → List SubEvent → List ℕ → List SubEvent → List SubEvent
unfolding carrier_of set_media
give_media codes [] media lines = lines
give_media codes (sub ∷ subs) [] lines = lines
give_media codes (sub ∷ subs) (m ∷ ms) lines =
    set_media (carrier_of codes sub subs).id (m ∷ ms) lines

give_all : CodeTables → List Event → Groups SubEvent → List SubEvent → List SubEvent
unfolding give_media episode_media
give_all codes events [] lines = lines
give_all codes events ((rel, subs) ∷ groups) lines =
    give_all codes events groups (give_media codes subs (episode_media rel [] events) lines)

-- _assign_episode_media
unfoldable pub assign_episode_media : CodeTables → List Event → Card → Card
unfolding give_all lines_by_episode
assign_episode_media codes events card = record card {
  sub_events =
      give_all codes events (lines_by_episode card.related_event card.sub_events [])
        card.sub_events;
}

-- The body of the last loop of group_sessions.
unfoldable pub finish_card : CodeTables → List Event → Card → Card
unfolding assign_episode_media sort_lines
finish_card codes events card =
    assign_episode_media codes events (record card { sub_events = sort_lines card.sub_events })
