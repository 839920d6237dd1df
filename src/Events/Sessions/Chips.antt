-- ===== src/Events/Sessions/Chips.antt =====
-- The filter chips of the Timeline: `_filter_buckets`, `filter_counts` and `matches_filter` of
-- addon/petkit_local/events/sessions.py.
pub mod Badges
use petkit_local.Prelude.{
  ℕ, suc, ◌+◌, String, Bool, true, false, ◌||◌, ◌&&◌, Option, none, some, List, [], ◌∷◌, ◌++◌,
  str_eq, if◌then◌else◌, length, any,
}
use petkit_local.Events.Rows.{
  is_text, has_pet_voice, kind_toilet, kind_cleaning, kind_pet, kind_motion, kind_error,
  kind_feeding, kind_drinking,
}
use petkit_local.Events.Sessions.Cards.{Card}

-- The bucket of a session's kind.
kind_bucket : Option String → List String
kind_bucket kind =
    if is_text kind kind_toilet
    then "toileting" ∷ []
    else if is_text kind kind_pet || is_text kind kind_motion
    then "pet" ∷ []
    else if is_text kind kind_error
    then "fault" ∷ []
    else if is_text kind kind_feeding
    then "feeding" ∷ []
    else if is_text kind kind_drinking
    then "drinking" ∷ []
    else if is_text kind kind_cleaning
    then "cleaning" ∷ []
    else []

-- _filter_buckets
unfoldable pub filter_buckets : Card → List String
unfolding kind_bucket has_pet_voice
filter_buckets card =
    kind_bucket card.event_kind ++ (if has_pet_voice card.content then "health_alert" ∷ [] else [])

-- The badge numbers.
pub record Counts : Type 0 where
  pub total : ℕ
  pub pet : ℕ
  pub toileting : ℕ
  pub drinking : ℕ
  pub feeding : ℕ
  pub cleaning : ℕ
  pub health_alert : ℕ
  pub fault : ℕ

-- counts[bucket] += 1
bump : String → Counts → Counts
bump bucket c =
    if str_eq bucket "pet"
    then record c { pet = c.pet + 1 }
    else if str_eq bucket "toileting"
    then record c { toileting = c.toileting + 1 }
    else if str_eq bucket "drinking"
    then record c { drinking = c.drinking + 1 }
    else if str_eq bucket "feeding"
    then record c { feeding = c.feeding + 1 }
    else if str_eq bucket "cleaning"
    then record c { cleaning = c.cleaning + 1 }
    else if str_eq bucket "health_alert"
    then record c { health_alert = c.health_alert + 1 }
    else if str_eq bucket "fault"
    then record c { fault = c.fault + 1 }
    else c

bump_all : List String → Counts → Counts
unfolding bump
bump_all [] c = c
bump_all (bucket ∷ buckets) c = bump_all buckets (bump bucket c)

count_sessions : List Card → Counts → Counts
unfolding bump_all filter_buckets
count_sessions [] c = c
count_sessions (card ∷ cards) c = count_sessions cards (bump_all (filter_buckets card) c)

-- filter_counts
unfoldable pub filter_counts : List Card → Counts
unfolding count_sessions
filter_counts cards = count_sessions cards (record {
  total = length cards;
  pet = 0;
  toileting = 0;
  drinking = 0;
  feeding = 0;
  cleaning = 0;
  health_alert = 0;
  fault = 0;
})

-- matches_filter
unfoldable pub matches_filter : Card → String → Bool
unfolding filter_buckets
matches_filter card chip =
    str_eq chip ""
    || (str_eq chip "all" || any (λ bucket. str_eq bucket chip) (filter_buckets card))
