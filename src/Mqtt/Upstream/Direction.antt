-- ===== src/Mqtt/Upstream/Direction.antt =====
-- The direction of what addon/petkit_local/mqtt/upstream.py and the bridge publish on our broker.
use petkit_local.Prelude.{
  and-left, and-right, ℕ, ◌≡◌, refl, Bool, true, false, Option, none, some, List, [], ◌∷◌, ◌++◌,
  ◌&&◌, Text, Bytes, All, Bool-cases, inl, inr, subst, sym,
}
use petkit_local.Prelude.Json.{Json, obj, Fields}
use petkit_local.Http.Redact.{JsonCodec, Policy}
use petkit_local.Http.Redact.Bodies.{redact_mqtt}
use petkit_local.Mqtt.Topics.{
  Category, event, service, user_get, ota, ParsedTopic, parse_topic, is_server_published,
  rewrite_topic,
}
use petkit_local.Mqtt.Topics.Segments.{text_eq, text_eq→eq}
use petkit_local.Mqtt.Topics.RoundTrip.{IsSegment, parse_topic-event_reply}
use petkit_local.Mqtt.Topics.Rewrite.{
  DetailOf, parse_topic-DetailOf, parse_topic-rewrite_topic, rewrite_topic-rewrite_topic,
}
use petkit_local.Mqtt.Upstream.{
  Identity, Session, Frame, Link, forward_up, relay_as, relay_on, is_from_device, is_upgrade,
  block_ota, persist, bring_down, on_parsed, reply, route, hear,
}

-- A topic that is recognised is one on which the server publishes to this device, and no firmware push.
abbrev pub IsDownward : Identity → Frame → Type 0
IsDownward own f =
    (p : ParsedTopic)
    → parse_topic f.0 ≡ some p
    → (is_server_published p ≡ true)
      × ((is_upgrade p ≡ false)
          × ((p.product_key ≡ own.product_key) × (p.device_name ≡ own.device_name)))

pub All-snoc :
    (P : Frame → Type 0) (fs : List Frame) (f : Frame) → All P fs → P f → All P (fs ++ f ∷ [])
All-snoc P [] f all p = (p, tt)
All-snoc P (g ∷ fs) f (q, all) p = (q, All-snoc P fs f all p)

pub All-map :
    (P Q : Frame → Type 0) → ((f : Frame) → P f → Q f) → (fs : List Frame) → All P fs → All Q fs
All-map P Q g [] all = tt
All-map P Q g (f ∷ fs) (p, all) = (g f p, All-map P Q g fs all)

module _ (codec : JsonCodec) (own : Identity) (pk_IsSegment : IsSegment own.product_key)
    (dn_IsSegment : IsSegment own.device_name) where
  readdressed-IsDownward :
      (topic local : Text) (body : Bytes) (p : ParsedTopic)
      → parse_topic topic ≡ some p
      → is_server_published p ≡ true
      → is_upgrade p ≡ false
      → rewrite_topic topic own.product_key own.device_name ≡ some local
      → IsDownward own (local, body)
  unfolding is_server_published is_upgrade
  readdressed-IsDownward topic local body p known served plain e q k =
      let (t, here, there) =
        parse_topic-rewrite_topic topic own.product_key own.device_name p pk_IsSegment dn_IsSegment
          known in
      let same : record p { product_key = own.product_key; device_name = own.device_name } ≡ q =
        cc (here, there, e, k) in
      subst
        (λ r.
          (is_server_published r ≡ true)
          × ((is_upgrade r ≡ false)
              × ((r.product_key ≡ own.product_key) × (r.device_name ≡ own.device_name))))
        same (served, (plain, (refl, refl)))

  bring_down-All :
      (fuel : ℕ) (policy : Policy) (topic : Text) (local : Option Text) (raw : Bytes) (link : Link)
      → All (IsDownward own) link.published
      → ((t : Text) → local ≡ some t → (body : Bytes) → IsDownward own (t, body))
      → All (IsDownward own) (bring_down codec fuel policy topic local raw link).published
  unfolding bring_down persist
  bring_down-All fuel policy topic none raw link h d = h
  bring_down-All fuel policy topic (some t) raw link h d =
      All-snoc (IsDownward own) link.published (t, (redact_mqtt codec fuel policy raw).body) h
        (d t refl (redact_mqtt codec fuel policy raw).body)

  pub on_parsed-All :
      (fuel : ℕ) (policy : Policy) (topic : Text) (found : Option ParsedTopic) (raw : Bytes)
      (link : Link)
      → parse_topic topic ≡ found
      → All (IsDownward own) link.published
      → All (IsDownward own) (on_parsed codec fuel policy own topic found raw link).published
  unfolding on_parsed block_ota
  on_parsed-All fuel policy topic none raw link e h =
      rw
        ((rewrite_topic-rewrite_topic topic own.product_key own.device_name own.product_key
            own.device_name pk_IsSegment dn_IsSegment).0
          e)
        h
  on_parsed-All fuel policy topic (some p) raw link e h = elim (Bool-cases (is_upgrade p)) [
    | inl push ↦ rw push h
    | inr plain ↦ elim (Bool-cases (is_server_published p)) [
      | inl served ↦
          rw (plain, served)
            (bring_down-All fuel policy topic _ raw link h
              (λ t k body. readdressed-IsDownward topic t body p e served plain k))
      | inr other ↦ rw (plain, other) h
    ]
  ]

  relay_on-published :
      (accepts : Bool) (topic : Option Text) (payload : Bytes) (link : Link)
      → (relay_on accepts topic payload link).0.published ≡ link.published
  unfolding relay_on
  relay_on-published accepts none payload link = refl
  relay_on-published true (some t) payload link = refl
  relay_on-published false (some t) payload link = refl

  relay_as-published :
      (session : Session) (real : Option Identity) (topic : Text) (payload : Bytes) (link : Link)
      → (relay_as session real topic payload link).0.published ≡ link.published
  unfolding relay_as
  relay_as-published session none topic payload link = refl
  relay_as-published session (some real) topic payload link =
      relay_on-published session.accepts _ payload link

  forward_up-published :
      (session : Session) (topic : Text) (payload : Bytes) (link : Link)
      → (forward_up session topic payload link).0.published ≡ link.published
  unfolding forward_up
  forward_up-published session topic payload link =
      elim (Bool-cases (session.connected && is_from_device topic)) [
        | inl e ↦ rw e (relay_as-published session session.identity topic payload link)
        | inr e ↦ rw e refl
      ]

  reply-All :
      (replies : Bool) (now pk dn detail : Text) (c : Category) (payload : Fields) (link : Link)
      → IsSegment pk
      → IsSegment dn
      → DetailOf c detail
      → All (IsDownward own) link.published
      → All
          (IsDownward own)
          (reply replies codec now
            (record { product_key = pk; device_name = dn; category = c; detail = detail })
            payload
            link).published
  unfolding reply
  reply-All false now pk dn detail c payload link hp hd d h = h
  reply-All true now pk dn detail event payload link hp hd d h =
      All-snoc (IsDownward own) link.published _ h
        (λ p k. absurd (cc (parse_topic-event_reply pk dn hp hd detail d, k)))
  reply-All true now pk dn detail service payload link hp hd d h = h
  reply-All true now pk dn detail user_get payload link hp hd d h = h
  reply-All true now pk dn detail ota payload link hp hd d h = h

  route-All :
      (session : Session) (now topic : Text) (found : Option ParsedTopic) (payload : Fields)
      (link : Link)
      → parse_topic topic ≡ found
      → All (IsDownward own) link.published
      → All (IsDownward own) (route codec session own now topic found payload link).published
  unfolding route
  route-All session now topic none payload link e h = h
  route-All session now topic (some p) payload link e h =
      elim (Bool-cases (is_server_published p)) [
        | inl served ↦ rw served h
        | inr other ↦
            elim (Bool-cases
              (text_eq p.product_key own.product_key && text_eq p.device_name own.device_name)) [
                | inl mine ↦
                    rw
                      (
                        other,
                        mine,
                        forward_up-published session topic (codec.dumps_bytes (obj payload))
                            (reply session.replies codec now p payload link),
                      )
                      (reply-All session.replies now p.product_key p.device_name p.detail p.category
                        payload link
                        (subst IsSegment
                          (sym (text_eq→eq p.product_key own.product_key (and-left _ _ mine)))
                          pk_IsSegment)
                        (subst IsSegment
                          (sym (
                            text_eq→eq p.device_name own.device_name
                              (and-right (text_eq p.product_key own.product_key) _ mine)))
                          dn_IsSegment)
                        (parse_topic-DetailOf topic p e) h)
                | inr foreign ↦ rw (other, foreign) h
              ]
      ]

  pub hear-All :
      (session : Session) (now topic : Text) (payload : Option Json) (link : Link)
      → All (IsDownward own) link.published
      → All (IsDownward own) (hear codec session own now topic payload link).published
  unfolding hear
  hear-All session now topic (some (obj payload)) link h =
      route-All session now topic (parse_topic topic) payload link refl h
  hear-All session now topic other link h = h

  route-Downward :
      (session : Session) (now topic : Text) (found : Option ParsedTopic) (payload : Fields)
      (body : Bytes) (link : Link)
      → parse_topic topic ≡ found
      → IsDownward own (topic, body)
      → route codec session own now topic found payload link ≡ link
  unfolding route
  route-Downward session now topic none payload body link e d = refl
  route-Downward session now topic (some p) payload body link e d = rw (d p e).0 refl

  pub hear-Downward :
      (session : Session) (now topic : Text) (payload : Option Json) (body : Bytes) (link : Link)
      → IsDownward own (topic, body)
      → hear codec session own now topic payload link ≡ link
  unfolding hear
  hear-Downward session now topic (some (obj payload)) body link d =
      route-Downward session now topic (parse_topic topic) payload body link refl d
  hear-Downward session now topic other body link d = refl
