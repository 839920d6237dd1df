-- ===== src/Mqtt/Topics.antt =====
-- The device topics, parsed and built: addon/petkit_local/mqtt/topics.py. The regular expressions
-- are read segment by segment. Python's `$` also matches before a newline that ends the text, so
-- the last literal of a pattern may carry one, and `.` matches all but a newline.
pub mod Segments
pub mod RoundTrip
pub mod Rewrite
use petkit_local.Prelude.{
  ℕ, Bool, true, false, not, ◌&&◌, ◌||◌, Option, none, some, List, [], ◌∷◌, ◌++◌, Text, codes, any,
  ◌==◌, if◌then◌else◌, contains,
}
use Segments.{split, join, text_eq, is_nonempty, ends_with, drop_newline}

-- The categories of a parsed topic.
pub data Category : Type 0 where
  event service user_get ota : Category

pub record ParsedTopic : Type 0 where
  pub product_key : Text
  pub device_name : Text
  pub category : Category
  pub detail : Text

abbrev pub newline : ℕ
newline = 10

-- A literal at the end of a pattern.
ends_as : Text → Text → Bool
ends_as word segment = text_eq segment word || text_eq segment (word ++ newline ∷ [])

-- What a pattern gives when its tests pass.
match_if : Bool → ParsedTopic → Option ParsedTopic
match_if true p = some p
match_if false p = none

-- EVENT_PATTERN
match_event : List Text → Option ParsedTopic
match_event (a ∷ b ∷ pk ∷ dn ∷ c ∷ d ∷ kind ∷ e ∷ []) =
    match_if
      (text_eq a []
        && (text_eq b (codes "sys")
            && (is_nonempty pk
                && (is_nonempty dn
                    && (text_eq c (codes "thing")
                        && (text_eq d (codes "event")
                            && (is_nonempty kind && ends_as (codes "post") e)))))))
      (record { product_key = pk; device_name = dn; category = event; detail = kind })
match_event segments = none

-- `(?P<service>.+)$` on what is left of the topic
unfoldable pub service_name : Text → Option Text
unfolding drop_newline is_nonempty
service_name rest =
    let name = drop_newline rest in
    if is_nonempty name && not (contains name newline) then some name else none

service_if : Bool → Text → Text → Option Text → Option ParsedTopic
service_if true pk dn (some name) =
    some (record { product_key = pk; device_name = dn; category = service; detail = name })
service_if tests pk dn name = none

-- SERVICE_PATTERN
match_service : List Text → Option ParsedTopic
match_service (a ∷ b ∷ pk ∷ dn ∷ c ∷ d ∷ first ∷ rest) =
    service_if
      (text_eq a []
        && (text_eq b (codes "sys")
            && (is_nonempty pk
                && (is_nonempty dn && (text_eq c (codes "thing") && text_eq d (codes "service"))))))
      pk dn (service_name (join (first ∷ rest)))
match_service segments = none

-- USER_GET_PATTERN
match_user_get : List Text → Option ParsedTopic
match_user_get (a ∷ pk ∷ dn ∷ b ∷ c ∷ []) =
    match_if
      (text_eq a []
        && (is_nonempty pk
            && (is_nonempty dn && (text_eq b (codes "user") && ends_as (codes "get") c))))
      (record { product_key = pk; device_name = dn; category = user_get; detail = codes "get" })
match_user_get segments = none

-- OTA_INFORM_PATTERN and OTA_UPGRADE_PATTERN, which differ in one word
match_ota : Text → List Text → Option ParsedTopic
match_ota word (a ∷ b ∷ c ∷ d ∷ pk ∷ dn ∷ []) =
    match_if
      (text_eq a []
        && (text_eq b (codes "ota")
            && (text_eq c (codes "device")
                && (text_eq d word && (is_nonempty pk && is_nonempty dn)))))
      (record { product_key = pk; device_name = dn; category = ota; detail = word })
match_ota word segments = none

-- The first of the patterns that matches.
abbrev pub or_else : Option ParsedTopic → Option ParsedTopic → Option ParsedTopic
or_else none other = other
or_else (some p) other = some p

pub match_segments : List Text → Option ParsedTopic
unfolding match_event match_service match_user_get match_ota match_if ends_as text_eq is_nonempty
    service_if service_name join
match_segments s = or_else (match_event s) (
    or_else (match_service s) (
      or_else (match_user_get s)
        (or_else (match_ota (codes "inform") s) (match_ota (codes "upgrade") s))))

-- parse_topic
unfoldable pub parse_topic : Text → Option ParsedTopic
unfolding match_segments split
parse_topic topic = match_segments (split topic)

-- event_reply_topic
unfoldable pub event_reply_topic : Text → Text → Text → Text
event_reply_topic pk dn kind =
    codes "/sys/"
    ++ (pk ++ (codes "/" ++ (dn ++ (codes "/thing/event/" ++ (kind ++ codes "/post_reply")))))

-- service_topic
unfoldable pub service_topic : Text → Text → Text → Text
service_topic pk dn name =
    codes "/sys/" ++ (pk ++ (codes "/" ++ (dn ++ (codes "/thing/service/" ++ name))))

-- user_get_topic
unfoldable pub user_get_topic : Text → Text → Text
user_get_topic pk dn = codes "/" ++ (pk ++ (codes "/" ++ (dn ++ codes "/user/get")))

-- ota_upgrade_topic
unfoldable pub ota_upgrade_topic : Text → Text → Text
ota_upgrade_topic pk dn = codes "/ota/device/upgrade/" ++ (pk ++ (codes "/" ++ dn))

-- event_post_topic
unfoldable pub event_post_topic : Text → Text → Text → Text
event_post_topic pk dn kind =
    codes "/sys/"
    ++ (pk ++ (codes "/" ++ (dn ++ (codes "/thing/event/" ++ (kind ++ codes "/post")))))

-- ota_inform_topic
unfoldable pub ota_inform_topic : Text → Text → Text
ota_inform_topic pk dn = codes "/ota/device/inform/" ++ (pk ++ (codes "/" ++ dn))

-- downstream_filters
unfoldable pub downstream_filters : Text → Text → List Text
unfolding service_topic event_reply_topic user_get_topic
downstream_filters pk dn =
    service_topic pk dn (codes "#")
    ∷ event_reply_topic pk dn (codes "+")
    ∷ user_get_topic pk dn
    ∷ []

-- is_server_published
unfoldable pub is_server_published : ParsedTopic → Bool
unfolding ends_with text_eq
is_server_published p = if ends_with (codes "_reply") p.detail then false else elim p.category [
  | service ↦ true
  | user_get ↦ true
  | ota ↦ text_eq p.detail (codes "upgrade")
  | event ↦ false
]

rebuild : Category → Text → Text → Text → Text
unfolding event_post_topic service_topic user_get_topic ota_inform_topic ota_upgrade_topic text_eq
rebuild event pk dn detail = event_post_topic pk dn detail
rebuild service pk dn detail = service_topic pk dn detail
rebuild user_get pk dn detail = user_get_topic pk dn
rebuild ota pk dn detail =
    if text_eq detail (codes "inform") then ota_inform_topic pk dn else ota_upgrade_topic pk dn

readdress : Option ParsedTopic → Text → Text → Option Text
unfolding rebuild
readdress none to_pk to_dn = none
readdress (some p) to_pk to_dn = some (rebuild p.category to_pk to_dn p.detail)

-- rewrite_topic
unfoldable pub rewrite_topic : Text → Text → Text → Option Text
unfolding readdress
rewrite_topic topic to_pk to_dn = readdress (parse_topic topic) to_pk to_dn
