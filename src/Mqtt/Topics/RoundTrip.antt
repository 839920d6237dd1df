-- ===== src/Mqtt/Topics/RoundTrip.antt =====
-- What the builders of topics.py build, `parse_topic` recognises.
use petkit_local.Prelude.{◌≡◌, ◌≢◌, refl, true, none, some, List, [], ◌∷◌, Text, codes}
use petkit_local.Mqtt.Topics.Segments.{
  slash, Lacks, split-append, split-segment, join-split, split-ne-nil, split, join, is_nonempty,
}
use petkit_local.Mqtt.Topics.{
  ParsedTopic, Category, event, service, user_get, ota, parse_topic, match_segments,
  event_post_topic, event_reply_topic, service_topic, user_get_topic, ota_inform_topic,
  ota_upgrade_topic, service_name,
}

-- What stands between two slashes: not empty, and with no slash.
abbrev pub IsSegment : Text → Type 0
IsSegment s = (s ≢ []) × Lacks slash s

IsSegment-nonempty : (s : Text) → IsSegment s → is_nonempty s ≡ true
unfolding is_nonempty
IsSegment-nonempty [] h = absurd (h.0 refl)
IsSegment-nonempty (c ∷ s) h = refl

pub parse_topic_lem : (t : Text) → parse_topic t ≡ match_segments (split t)
unfolding parse_topic
parse_topic_lem t = refl

module _ (pk dn : Text) (pk_IsSegment : IsSegment pk) (dn_IsSegment : IsSegment dn) where
  abbrev pub parsed : Category → Text → ParsedTopic
  parsed category detail = record {
    product_key = pk;
    device_name = dn;
    category = category;
    detail = detail;
  }

  -- An event topic is parsed into the keys and the event kind that it was built from.
  pub parse_topic-event :
      (kind : Text)
      → IsSegment kind
      → parse_topic (event_post_topic pk dn kind) ≡ some (parsed event kind)
  unfolding parse_topic event_post_topic
  parse_topic-event kind h = rw (
    split-append pk _ pk_IsSegment.1,
    split-append dn _ dn_IsSegment.1,
    split-append kind _ h.1,
    IsSegment-nonempty pk pk_IsSegment,
    IsSegment-nonempty dn dn_IsSegment,
    IsSegment-nonempty kind h,
  )

  -- A reply to an event is no topic that is recognised.
  pub parse_topic-event_reply :
      (kind : Text) → IsSegment kind → parse_topic (event_reply_topic pk dn kind) ≡ none
  unfolding parse_topic event_reply_topic
  parse_topic-event_reply kind h = rw (
    split-append pk _ pk_IsSegment.1,
    split-append dn _ dn_IsSegment.1,
    split-append kind _ h.1,
    IsSegment-nonempty pk pk_IsSegment,
    IsSegment-nonempty dn dn_IsSegment,
    IsSegment-nonempty kind h,
  )

  pub parse_topic-user_get :
      parse_topic (user_get_topic pk dn) ≡ some (parsed user_get (codes "get"))
  unfolding parse_topic user_get_topic
  parse_topic-user_get = rw (
    split-append pk _ pk_IsSegment.1,
    split-append dn _ dn_IsSegment.1,
    IsSegment-nonempty pk pk_IsSegment,
    IsSegment-nonempty dn dn_IsSegment,
  )

  pub parse_topic-ota_inform :
      parse_topic (ota_inform_topic pk dn) ≡ some (parsed ota (codes "inform"))
  unfolding parse_topic ota_inform_topic
  parse_topic-ota_inform = rw (
    split-append pk _ pk_IsSegment.1,
    split-segment dn dn_IsSegment.1,
    IsSegment-nonempty pk pk_IsSegment,
    IsSegment-nonempty dn dn_IsSegment,
  )

  pub parse_topic-ota_upgrade :
      parse_topic (ota_upgrade_topic pk dn) ≡ some (parsed ota (codes "upgrade"))
  unfolding parse_topic ota_upgrade_topic
  parse_topic-ota_upgrade = rw (
    split-append pk _ pk_IsSegment.1,
    split-segment dn dn_IsSegment.1,
    IsSegment-nonempty pk pk_IsSegment,
    IsSegment-nonempty dn dn_IsSegment,
  )

  match_segments-service :
      (segments : List Text) (name : Text)
      → segments ≢ []
      → service_name (join segments) ≡ some name
      → match_segments ([] ∷ codes "sys" ∷ pk ∷ dn ∷ codes "thing" ∷ codes "service" ∷ segments)
        ≡ some (parsed service name)
  unfolding match_segments
  match_segments-service [] name ne h = absurd (ne refl)
  match_segments-service (a ∷ []) name ne h =
      rw (IsSegment-nonempty pk pk_IsSegment, IsSegment-nonempty dn dn_IsSegment, h)
  match_segments-service (a ∷ b ∷ []) name ne h =
      rw (IsSegment-nonempty pk pk_IsSegment, IsSegment-nonempty dn dn_IsSegment, h)
  match_segments-service (a ∷ b ∷ c ∷ rest) name ne h =
      rw (IsSegment-nonempty pk pk_IsSegment, IsSegment-nonempty dn dn_IsSegment, h)

  split-service_topic :
      (name : Text)
      → split (service_topic pk dn name)
        ≡ [] ∷ codes "sys" ∷ pk ∷ dn ∷ codes "thing" ∷ codes "service" ∷ split name
  unfolding split service_topic
  split-service_topic name = rw (split-append pk _ pk_IsSegment.1, split-append dn _ dn_IsSegment.1)

  -- A service topic is parsed into the keys and the service name that it was built from, for every
  -- name that the pattern admits: not empty, and with no newline.
  pub parse_topic-service :
      (name : Text)
      → service_name name ≡ some name
      → parse_topic (service_topic pk dn name) ≡ some (parsed service name)
  parse_topic-service name h =
      rw (parse_topic_lem, split-service_topic name)
        (match_segments-service (split name) name (split-ne-nil name) (rw (join-split name) h))
