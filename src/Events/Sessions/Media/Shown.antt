-- ===== src/Events/Sessions/Media/Shown.antt =====
-- Finishing a card changes neither its event nor the events of its lines.
use petkit_local.Prelude.{
  ℕ, ◌≡◌, refl, sym, ap, ◌∙◌, Bool, true, false, List, [], ◌∷◌, arith, count, ◌==◌, if◌then◌else◌,
}
use petkit_local.Events.Rows.{Event, CodeTables}
use petkit_local.Events.Sessions.Cards.{Card, SubEvent}
use petkit_local.Events.Sessions.Groups.{Groups, sort_by, sort_lines}
use petkit_local.Events.Sessions.Groups.Sorts.{total, total-sort_by}
use petkit_local.Events.Sessions.Board.Shown.{line_ids, card_ids}
use petkit_local.Events.Sessions.Media.{
  set_media, give_media, give_all, carrier_of, episode_media, lines_by_episode,
  assign_episode_media, finish_card,
}

line_ids-set_media :
    (id : ℕ) (media : List ℕ) (lines : List SubEvent)
    → line_ids (set_media id media lines) ≡ line_ids lines
unfolding set_media
line_ids-set_media id media [] = refl
line_ids-set_media id media (s ∷ subs) = choose (s.id == id) (line_ids-set_media id media subs)
  where
    choose :
        (b : Bool)
        → line_ids (set_media id media subs) ≡ line_ids subs
        → line_ids ((if b then record s { media = media } else s) ∷ set_media id media subs)
          ≡ line_ids (s ∷ subs)
    choose true h = ap (λ l. s.id ∷ l) h
    choose false h = ap (λ l. s.id ∷ l) h

line_ids-give_media :
    (codes : CodeTables) (group : List SubEvent) (media : List ℕ) (lines : List SubEvent)
    → line_ids (give_media codes group media lines) ≡ line_ids lines
unfolding give_media
line_ids-give_media codes [] media lines = refl
line_ids-give_media codes (sub ∷ subs) [] lines = refl
line_ids-give_media codes (sub ∷ subs) (m ∷ ms) lines =
    line_ids-set_media (carrier_of codes sub subs).id (m ∷ ms) lines

line_ids-give_all :
    (codes : CodeTables) (events : List Event) (groups : Groups SubEvent) (lines : List SubEvent)
    → line_ids (give_all codes events groups lines) ≡ line_ids lines
unfolding give_all
line_ids-give_all codes events [] lines = refl
line_ids-give_all codes events ((rel, subs) ∷ groups) lines =
    line_ids-give_all codes events groups
      (give_media codes subs (episode_media rel [] events) lines)
    ∙ line_ids-give_media codes subs (episode_media rel [] events) lines

-- How often an id stands on the lines, as a sum over the lines.
count-line_ids :
    (x : ℕ) (lines : List SubEvent)
    → count x (line_ids lines) ≡ total (λ s. if x == s.id then 1 else 0) lines
count-line_ids x [] = refl
count-line_ids x (s ∷ lines) = omega (arith, count-line_ids x lines)

count-sort_by :
    (x : ℕ) (after : SubEvent → SubEvent → Bool) (lines : List SubEvent)
    → count x (line_ids (sort_by after lines)) ≡ count x (line_ids lines)
count-sort_by x after lines =
    count-line_ids x (sort_by after lines)
    ∙ total-sort_by (λ s. if x == s.id then 1 else 0) after lines
    ∙ sym (count-line_ids x lines)

pub card_ids-finish_card :
    (x : ℕ) (codes : CodeTables) (events : List Event) (card : Card)
    → count x (card_ids (finish_card codes events card)) ≡ count x (card_ids card)
unfolding finish_card assign_episode_media sort_lines
card_ids-finish_card x codes events card = omega (
  arith,
  ap (λ l. count x l)
      (line_ids-give_all codes events
        (lines_by_episode card.related_event (sort_lines card.sub_events) [])
        (sort_lines card.sub_events)),
  count-sort_by x _ card.sub_events,
)
