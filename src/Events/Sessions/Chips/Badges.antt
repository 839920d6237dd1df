-- ===== src/Events/Sessions/Chips/Badges.antt =====
-- The badge of a chip is the number of sessions that the chip shows.
use petkit_local.Prelude.{
  ℕ, suc, ap, ◌+◌, ◌≤◌, String, ◌≡◌, refl, Bool, true, false, List, [], ◌∷◌, arith, length, filter,
  if◌then◌else◌, Option, any, str_eq, ◌++◌, ◌||◌,
}
use petkit_local.Events.Rows.{
  has_pet_voice, is_text, kind_toilet, kind_pet, kind_motion, kind_error, kind_feeding,
  kind_drinking, kind_cleaning,
}
use petkit_local.Events.Sessions.Cards.{Card}
use petkit_local.Events.Sessions.Chips.{
  Counts, filter_buckets, kind_bucket, bump_all, count_sessions, filter_counts, matches_filter,
}

abbrev shown : String → List Card → ℕ
shown chip cards = length (filter (λ card. matches_filter card chip) cards)

-- How often, at most once, a chip is among the buckets.
abbrev hit : List String → String → ℕ
hit buckets chip = if any (λ bucket. str_eq bucket chip) buckets then 1 else 0

-- The buckets of one card raise each of their badges by one, and leave the total.
record Bumped (buckets : List String) (c d : Counts) : Type 0 where
  total : d.total ≡ c.total
  pet : d.pet ≡ c.pet + hit buckets "pet"
  toileting : d.toileting ≡ c.toileting + hit buckets "toileting"
  drinking : d.drinking ≡ c.drinking + hit buckets "drinking"
  feeding : d.feeding ≡ c.feeding + hit buckets "feeding"
  cleaning : d.cleaning ≡ c.cleaning + hit buckets "cleaning"
  health_alert : d.health_alert ≡ c.health_alert + hit buckets "health_alert"
  fault : d.fault ≡ c.fault + hit buckets "fault"

-- A predicate of what `kind_bucket` can return holds of what it returns.
kind_bucket_elim :
    (P : List String → Type 0)
    → P ("toileting" ∷ [])
    → P ("pet" ∷ [])
    → P ("fault" ∷ [])
    → P ("feeding" ∷ [])
    → P ("drinking" ∷ [])
    → P ("cleaning" ∷ [])
    → P []
    → (kind : Option String) → P (kind_bucket kind)
unfolding kind_bucket
kind_bucket_elim P t p f e d c n kind = choose (is_text kind kind_toilet) t (
    choose (is_text kind kind_pet || is_text kind kind_motion) p (
      choose (is_text kind kind_error) f (
        choose (is_text kind kind_feeding) e
          (choose (is_text kind kind_drinking) d (choose (is_text kind kind_cleaning) c n)))))
  where
    choose : (b : Bool) {x y : List String} → P x → P y → P (if b then x else y)
    choose true px py = px
    choose false px py = py

bump_buckets :
    (kind : Option String) (voice : Bool) (c : Counts)
    → Bumped
        (kind_bucket kind ++ (if voice then "health_alert" ∷ [] else []))
        c
        (bump_all (kind_bucket kind ++ (if voice then "health_alert" ∷ [] else [])) c)
unfolding bump_all
bump_buckets kind true c =
    kind_bucket_elim
      (λ b. Bumped (b ++ "health_alert" ∷ []) c (bump_all (b ++ "health_alert" ∷ []) c))
      (omega arith) (omega arith) (omega arith) (omega arith) (omega arith) (omega arith)
      (omega arith) kind
bump_buckets kind false c =
    kind_bucket_elim (λ b. Bumped (b ++ []) c (bump_all (b ++ []) c)) (omega arith) (omega arith)
      (omega arith) (omega arith) (omega arith) (omega arith) (omega arith) kind

-- What the loop leaves in each badge.
record Counted (cards : List Card) (c d : Counts) : Type 0 where
  total : d.total ≡ c.total
  pet : d.pet ≡ c.pet + shown "pet" cards
  toileting : d.toileting ≡ c.toileting + shown "toileting" cards
  drinking : d.drinking ≡ c.drinking + shown "drinking" cards
  feeding : d.feeding ≡ c.feeding + shown "feeding" cards
  cleaning : d.cleaning ≡ c.cleaning + shown "cleaning" cards
  health_alert : d.health_alert ≡ c.health_alert + shown "health_alert" cards
  fault : d.fault ≡ c.fault + shown "fault" cards

shown_all : (cards : List Card) → shown "all" cards ≡ length cards
unfolding matches_filter
shown_all [] = refl
shown_all (card ∷ cards) = ap suc (shown_all cards)

shown-cons :
    (chip : String) (card : Card) (cards : List Card)
    → shown chip (card ∷ cards) ≡ (if matches_filter card chip then 1 else 0) + shown chip cards
shown-cons chip card cards = ground arith

count_sessions_lem : (cards : List Card) (c : Counts) → Counted cards c (count_sessions cards c)
unfolding count_sessions matches_filter
count_sessions_lem [] c = omega arith
count_sessions_lem (card ∷ cards) c =
    let b = bump_buckets card.event_kind (has_pet_voice card.content) c in
    let r = count_sessions_lem cards (bump_all (filter_buckets card) c) in
    record {
      total = omega (arith, b.total, r.total);
      pet = omega (arith, b.pet, r.pet, shown-cons "pet" card cards);
      toileting = omega (arith, b.toileting, r.toileting, shown-cons "toileting" card cards);
      drinking = omega (arith, b.drinking, r.drinking, shown-cons "drinking" card cards);
      feeding = omega (arith, b.feeding, r.feeding, shown-cons "feeding" card cards);
      cleaning = omega (arith, b.cleaning, r.cleaning, shown-cons "cleaning" card cards);
      health_alert =
          omega (arith, b.health_alert, r.health_alert, shown-cons "health_alert" card cards);
      fault = omega (arith, b.fault, r.fault, shown-cons "fault" card cards);
    }

-- Every badge is the number of sessions that its chip shows: the total of all of them, and each of
-- the seven others of those that `matches_filter` keeps under the chip's name.
pub filter_counts_lem :
    (cards : List Card)
    → ((filter_counts cards).total ≡ shown "all" cards)
      × ((filter_counts cards).pet ≡ shown "pet" cards)
      × ((filter_counts cards).toileting ≡ shown "toileting" cards)
      × ((filter_counts cards).drinking ≡ shown "drinking" cards)
      × ((filter_counts cards).feeding ≡ shown "feeding" cards)
      × ((filter_counts cards).cleaning ≡ shown "cleaning" cards)
      × ((filter_counts cards).health_alert ≡ shown "health_alert" cards)
      × ((filter_counts cards).fault ≡ shown "fault" cards)
unfolding filter_counts
filter_counts_lem cards =
    let r = count_sessions_lem cards (record {
      total = length cards;
      pet = 0;
      toileting = 0;
      drinking = 0;
      feeding = 0;
      cleaning = 0;
      health_alert = 0;
      fault = 0;
    }) in
    (
      omega (arith, r.total, shown_all cards),
      omega (arith, r.pet),
      omega (arith, r.toileting),
      omega (arith, r.drinking),
      omega (arith, r.feeding),
      omega (arith, r.cleaning),
      omega (arith, r.health_alert),
      omega (arith, r.fault),
    )

-- How many of the six chips of a kind are among the buckets.
abbrev kind_hits : List String → ℕ
kind_hits b =
    hit b "toileting"
    + hit b "pet"
    + hit b "fault"
    + hit b "feeding"
    + hit b "drinking"
    + hit b "cleaning"

at_most_one :
    (kind : Option String) (voice : Bool)
    → kind_hits (kind_bucket kind ++ (if voice then "health_alert" ∷ [] else [])) ≤ 1
at_most_one kind true =
    kind_bucket_elim (λ b. kind_hits (b ++ "health_alert" ∷ []) ≤ 1) (omega arith) (omega arith)
      (omega arith) (omega arith) (omega arith) (omega arith) (omega arith) kind
at_most_one kind false =
    kind_bucket_elim (λ b. kind_hits (b ++ []) ≤ 1) (omega arith) (omega arith) (omega arith)
      (omega arith) (omega arith) (omega arith) (omega arith) kind

-- The chips of a visit, a sighting, a fault, a meal, a drink and a cleaning never overlap: a session
-- is shown by at most one of the six.
pub chips_disjoint :
    (card : Card)
    → (if matches_filter card "toileting" then 1 else 0)
        + (if matches_filter card "pet" then 1 else 0)
        + (if matches_filter card "fault" then 1 else 0)
        + (if matches_filter card "feeding" then 1 else 0)
        + (if matches_filter card "drinking" then 1 else 0)
        + (if matches_filter card "cleaning" then 1 else 0)
      ≤ 1
unfolding matches_filter
chips_disjoint card = at_most_one card.event_kind (has_pet_voice card.content)
