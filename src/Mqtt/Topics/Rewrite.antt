-- ===== src/Mqtt/Topics/Rewrite.antt =====
-- Re-addressing a topic, `rewrite_topic` of topics.py, and which topics the server publishes on.
use petkit_local.Prelude.{
  ◌≡◌, ◌⊎◌, refl, Bool, true, false, not, none, some, Option, List, [], ◌∷◌, Text, All, codes,
  arith, inl, inr, contains, sym, ◌∙◌, Option-cases, subst,
}
use petkit_local.Mqtt.Topics.Segments.{
  slash, Lacks, split, join, split-Lacks, is_nonempty, ends_with, drop_newline, drop_newline_self,
}
use petkit_local.Mqtt.Topics.RoundTrip.{
  IsSegment, parse_topic-event, parse_topic-service, parse_topic-user_get, parse_topic-ota_inform,
  parse_topic-ota_upgrade,
}
use petkit_local.Mqtt.Topics.{
  Category, ParsedTopic, or_else, event, service, user_get, ota, parse_topic, match_if, match_event,
  match_service, match_user_get, match_ota, service_name, service_if, rewrite_topic, readdress,
  rebuild, is_server_published, event_post_topic, service_topic, user_get_topic, ota_inform_topic,
  ota_upgrade_topic,
}

-- What each category can have as its detail.
abbrev pub DetailOf : Category → Text → Type 0
DetailOf event detail = IsSegment detail
DetailOf service detail = service_name detail ≡ some detail
DetailOf user_get detail = detail ≡ codes "get"
DetailOf ota detail = (detail ≡ codes "inform") ⊎ (detail ≡ codes "upgrade")

nonempty_IsSegment : (s : Text) → is_nonempty s ≡ true → Lacks slash s → IsSegment s
unfolding is_nonempty
nonempty_IsSegment [] h l = absurd (cc)
nonempty_IsSegment (c ∷ s) h l = (cc, l)

service_name_idem :
    (rest name : Text) → service_name rest ≡ some name → service_name name ≡ some name
unfolding service_name
service_name_idem rest name h =
    let same : drop_newline rest ≡ name = ground arith in
    let clean : contains name 10 ≡ false = ground (arith, same) in
    let kept : is_nonempty name ≡ true = ground (arith, same) in
    rw (drop_newline_self name clean, kept, clean)

match_if-some : (b : Bool) (q p : ParsedTopic) → match_if b q ≡ some p → (b ≡ true) × (q ≡ p)
unfolding match_if
match_if-some true q p h = (refl, ground arith)
match_if-some false q p h = absurd (cc)

-- What holds of a parsed topic.
abbrev pub Holds : ParsedTopic → Type 0
Holds p = DetailOf p.category p.detail

match_event-DetailOf :
    (s : List Text) (p : ParsedTopic)
    → All (Lacks slash) s
    → match_event s ≡ some p
    → DetailOf p.category p.detail
unfolding match_event
match_event-DetailOf (a ∷ b ∷ pk ∷ dn ∷ c ∷ d ∷ kind ∷ e ∷ []) p
      (_, (_, (_, (_, (_, (_, (l, _))))))) h =
    let (tests, same) = match_if-some _ _ p h in
    subst Holds same (nonempty_IsSegment kind (ground arith) l)
match_event-DetailOf s p l h = absurd (cc)

service_if-some :
    (b : Bool) (pk dn : Text) (o : Option Text) (p : ParsedTopic)
    → service_if b pk dn o ≡ some p
    → (name : Text) × (o ≡ some name)
      × (record { product_key = pk; device_name = dn; category = service; detail = name } ≡ p)
unfolding service_if
service_if-some true pk dn (some name) p h = (name, refl, ground arith)
service_if-some true pk dn none p h = absurd (cc)
service_if-some false pk dn o p h = absurd (cc)

match_service-DetailOf :
    (s : List Text) (p : ParsedTopic) → match_service s ≡ some p → DetailOf p.category p.detail
unfolding match_service
match_service-DetailOf (a ∷ b ∷ pk ∷ dn ∷ c ∷ d ∷ first ∷ rest) p h =
    let (name, found, same) = service_if-some _ _ _ _ p h in
    subst Holds same (service_name_idem (join (first ∷ rest)) name found)
match_service-DetailOf s p h = absurd (cc)

match_user_get-DetailOf :
    (s : List Text) (p : ParsedTopic) → match_user_get s ≡ some p → DetailOf p.category p.detail
unfolding match_user_get
match_user_get-DetailOf (a ∷ pk ∷ dn ∷ b ∷ c ∷ []) p h =
    let (tests, same) = match_if-some _ _ p h in subst Holds same refl
match_user_get-DetailOf s p h = absurd (cc)

match_ota-DetailOf :
    (word : Text) (s : List Text) (p : ParsedTopic)
    → (word ≡ codes "inform") ⊎ (word ≡ codes "upgrade")
    → match_ota word s ≡ some p
    → DetailOf p.category p.detail
unfolding match_ota
match_ota-DetailOf word (a ∷ b ∷ c ∷ d ∷ pk ∷ dn ∷ []) p w h =
    let (tests, same) = match_if-some _ _ p h in subst Holds same w
match_ota-DetailOf word s p w h = absurd (cc)

or_else_some :
    (P : ParsedTopic → Type 0) (a b : Option ParsedTopic) (p : ParsedTopic)
    → (a ≡ some p → P p)
    → (b ≡ some p → P p)
    → or_else a b ≡ some p
    → P p
or_else_some P none b p f g h = g h
or_else_some P (some q) b p f g h = f h

parse_topic_ladder :
    (t : Text)
    → parse_topic t
      ≡ or_else (match_event (split t)) (
          or_else (match_service (split t)) (
            or_else (match_user_get (split t)) (
              or_else
                (match_ota (codes "inform") (split t))
                (match_ota (codes "upgrade") (split t)))))
unfolding parse_topic
parse_topic_ladder t = refl

rewrite_topic_lem : (t pk dn : Text) → rewrite_topic t pk dn ≡ readdress (parse_topic t) pk dn
unfolding rewrite_topic
rewrite_topic_lem t pk dn = refl

-- What `parse_topic` can return.
pub parse_topic-DetailOf : (t : Text) (p : ParsedTopic) → parse_topic t ≡ some p → Holds p
parse_topic-DetailOf t p h =
    or_else_some Holds (match_event s) _ p (match_event-DetailOf s p (split-Lacks t))
      (or_else_some Holds (match_service s) _ p (match_service-DetailOf s p) (
        or_else_some Holds (match_user_get s) _ p (match_user_get-DetailOf s p) (
          or_else_some Holds (match_ota (codes "inform") s) (match_ota (codes "upgrade") s) p
            (match_ota-DetailOf (codes "inform") s p (inl refl))
            (match_ota-DetailOf (codes "upgrade") s p (inr refl)))))
      (sym (parse_topic_ladder t) ∙ h)
  where
    s : List Text
    s = split t

-- What a known topic is rebuilt to, for other keys, is parsed as the same category and detail.
parse_topic-rebuild :
    (pk dn : Text) (category : Category) (detail : Text)
    → IsSegment pk
    → IsSegment dn
    → DetailOf category detail
    → parse_topic (rebuild category pk dn detail)
      ≡ some (record { product_key = pk; device_name = dn; category = category; detail = detail })
unfolding rebuild
parse_topic-rebuild pk dn event detail hp hd h = parse_topic-event pk dn hp hd detail h
parse_topic-rebuild pk dn service detail hp hd h = parse_topic-service pk dn hp hd detail h
parse_topic-rebuild pk dn user_get detail hp hd h = rw h (parse_topic-user_get pk dn hp hd)
parse_topic-rebuild pk dn ota detail hp hd (inl h) = rw h (parse_topic-ota_inform pk dn hp hd)
parse_topic-rebuild pk dn ota detail hp hd (inr h) = rw h (parse_topic-ota_upgrade pk dn hp hd)

-- Re-addressing a topic that is recognised, to keys that are not empty and hold no slash, gives a
-- topic that is recognised, with the new keys and the same category and detail.
pub parse_topic-rewrite_topic :
    (topic pk dn : Text) (p : ParsedTopic)
    → IsSegment pk
    → IsSegment dn
    → parse_topic topic ≡ some p
    → (t : Text) × (rewrite_topic topic pk dn ≡ some t)
      × (parse_topic t ≡ some (record p { product_key = pk; device_name = dn }))
unfolding readdress
parse_topic-rewrite_topic topic pk dn p hp hd h = (
  rebuild p.category pk dn p.detail,
  rw (rewrite_topic_lem, h),
  parse_topic-rebuild pk dn p.category p.detail hp hd (parse_topic-DetailOf topic p h),
)

-- A topic that is not recognised is not re-addressed, and re-addressing in two steps, by way of keys
-- that are not empty and hold no slash, gives what re-addressing in one step gives.
pub rewrite_topic-rewrite_topic :
    (topic via_pk via_dn pk dn : Text)
    → IsSegment via_pk
    → IsSegment via_dn
    → (parse_topic topic ≡ none → rewrite_topic topic pk dn ≡ none)
      × ((t : Text)
          → rewrite_topic topic via_pk via_dn ≡ some t
          → rewrite_topic t pk dn ≡ rewrite_topic topic pk dn)
unfolding readdress
rewrite_topic-rewrite_topic topic via_pk via_dn pk dn hp hd = (
  λ unknown. rw (rewrite_topic_lem, unknown),
  λ t h. elim (Option-cases (parse_topic topic)) [
    | inl unknown ↦ absurd (cc (rewrite_topic_lem topic via_pk via_dn, unknown, h))
    | inr (p, known) ↦
        let (t', here, there) = parse_topic-rewrite_topic topic via_pk via_dn p hp hd known in
        let same : t' ≡ t = ground (arith, here, h) in
        rw (rewrite_topic_lem t, rewrite_topic_lem topic, known, ← same, there)
  ],
)

abbrev pub published : Option ParsedTopic → Option Bool
published none = none
published (some p) = some (is_server_published p)

-- Whether the server publishes on a topic, if the topic is recognised.
abbrev pub server_publishes_on : Text → Option Bool
server_publishes_on t = published (parse_topic t)

-- Which of the topics that this module builds the server publishes on: an event post and an OTA
-- report are the device's, a configuration push and an OTA upgrade are the server's, and a service
-- topic is the server's unless its name ends in `_reply`.
pub is_server_published-topics :
    (pk dn kind name : Text)
    → IsSegment pk
    → IsSegment dn
    → IsSegment kind
    → service_name name ≡ some name
    → (server_publishes_on (event_post_topic pk dn kind) ≡ some false)
      × (server_publishes_on (ota_inform_topic pk dn) ≡ some false)
      × (server_publishes_on (user_get_topic pk dn) ≡ some true)
      × (server_publishes_on (ota_upgrade_topic pk dn) ≡ some true)
      × (server_publishes_on (service_topic pk dn name)
          ≡ some (not (ends_with (codes "_reply") name)))
unfolding is_server_published
is_server_published-topics pk dn kind name hp hd hk hn = (
  rw (parse_topic-event pk dn hp hd kind hk) (ground arith),
  rw (parse_topic-ota_inform pk dn hp hd),
  rw (parse_topic-user_get pk dn hp hd),
  rw (parse_topic-ota_upgrade pk dn hp hd),
  rw (parse_topic-service pk dn hp hd name hn) (ground arith),
)
