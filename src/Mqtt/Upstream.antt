-- ===== src/Mqtt/Upstream.antt =====
-- The link to the real cloud: addon/petkit_local/mqtt/upstream.py, with the routing of a broker message in
-- `_handle_message` of addon/petkit_local/mqtt/bridge.py, for one device. The panel's log and the capture
-- are left out, and so is what the bridge does with an event besides its reply.
pub mod Direction
pub mod Runs
pub mod Sent
pub mod Supervise
use petkit_local.Prelude.{
  ℕ, Bool, true, false, not, ◌&&◌, ◌||◌, Option, none, some, List, [], ◌∷◌, ◌++◌, map, Text, Bytes,
  codes, if◌then◌else◌,
}
use petkit_local.Prelude.Json.{
  Json, null, arr, obj, Items, Fields, end, field, lookup_field, num, str,
}
use petkit_local.Prelude.Int.{ℤ, pos}
use petkit_local.Http.Redact.{Rule, Redaction, Out, JsonCodec, Policy, BodyPath}
use petkit_local.Http.Redact.Bodies.{redact_mqtt, blocked}
use petkit_local.Mqtt.Topics.{
  Category, event, service, user_get, ota, ParsedTopic, parse_topic, is_server_published,
  rewrite_topic, event_reply_topic,
}
use petkit_local.Mqtt.Topics.Segments.{text_eq}

-- A product key with a device name, of the device here or of its identity in the cloud.
pub record Identity : Type 0 where
  pub product_key : Text
  pub device_name : Text

-- What the handling of one message meets: the device's real identity if that is known, whether a client
-- is connected to the cloud and takes what is published, and whether the handling of an event here gets
-- as far as its reply, which it does not if it raises.
pub record Session : Type 0 where
  pub identity : Option Identity
  pub connected : Bool
  pub accepts : Bool
  pub replies : Bool

-- A row of an attempt that was blocked, less the device; for a firmware push the payload is the frame's
-- bytes, where the code has their text.
pub record Attempt : Type 0 where
  pub kind : Rule
  pub endpoint : Text
  pub path : BodyPath
  pub payload : Json

abbrev pub Frame : Type 0
Frame = Text × Bytes

-- What has been published on our broker and on the real one, and the rows written.
pub record Link : Type 0 where
  pub published : List Frame
  pub relayed : List Frame
  pub attempts : List Attempt

-- _is_from_device
originates : Option ParsedTopic → Bool
unfolding text_eq
originates none = false
originates (some p) = elim p.category [
  | event ↦ true
  | service ↦ false
  | user_get ↦ false
  | ota ↦ text_eq p.detail (codes "inform")
]

unfoldable pub is_from_device : Text → Bool
unfolding originates parse_topic
is_from_device topic = originates (parse_topic topic)

unfoldable relay_on : Bool → Option Text → Bytes → Link → Link × Bool
relay_on accepts none payload link = (link, false)
relay_on true (some topic) payload link =
    (record link { relayed = link.relayed ++ (topic, payload) ∷ [] }, true)
relay_on false (some topic) payload link = (link, false)

unfoldable relay_as : Session → Option Identity → Text → Bytes → Link → Link × Bool
unfolding relay_on rewrite_topic
relay_as session none topic payload link = (link, false)
relay_as session (some real) topic payload link =
    relay_on session.accepts (rewrite_topic topic real.product_key real.device_name) payload link

-- forward_up: the link, and whether the frame was relayed.
unfoldable pub forward_up : Session → Text → Bytes → Link → Link × Bool
unfolding is_from_device relay_as
forward_up session topic payload link =
    if session.connected && is_from_device topic
    then relay_as session session.identity topic payload link
    else (link, false)

-- _block_ota
unfoldable pub block_ota : Text → Bytes → Link → Link
block_ota topic raw link = record link {
  attempts =
      link.attempts
      ++ record { kind = Rule.ota; endpoint = topic; path = []; payload = Json.raw raw } ∷ [];
}

-- _persist
unfoldable pub persist : Text → List Redaction → Link → Link
persist topic rows link = record link {
  attempts =
      link.attempts
      ++ map (λ r. record { kind = r.rule; endpoint = topic; path = r.path; payload = r.original })
          rows;
}

-- parsed.category == "ota" and parsed.detail == "upgrade"
unfoldable pub is_upgrade : ParsedTopic → Bool
unfolding text_eq
is_upgrade p = elim p.category [
  | ota ↦ text_eq p.detail (codes "upgrade")
  | event ↦ false
  | service ↦ false
  | user_get ↦ false
]

unfoldable bring_down : JsonCodec → ℕ → Policy → Text → Option Text → Bytes → Link → Link
unfolding redact_mqtt blocked persist
bring_down codec fuel policy topic none raw link = link
bring_down codec fuel policy topic (some local) raw link =
    let result = redact_mqtt codec fuel policy raw in
    let kept = persist topic (blocked result.out) link in
    record kept { published = kept.published ++ (local, result.body) ∷ [] }

unfoldable on_parsed :
    JsonCodec → ℕ → Policy → Identity → Text → Option ParsedTopic → Bytes → Link → Link
unfolding block_ota is_upgrade is_server_published bring_down rewrite_topic
on_parsed codec fuel policy own topic none raw link =
    bring_down codec fuel policy topic (rewrite_topic topic own.product_key own.device_name) raw
      link
on_parsed codec fuel policy own topic (some p) raw link =
    if is_upgrade p
    then block_ota topic raw link
    else if is_server_published p
    then bring_down codec fuel policy topic (rewrite_topic topic own.product_key own.device_name)
        raw link
    else link

-- _on_upstream
unfoldable pub on_upstream : JsonCodec → ℕ → Policy → Identity → Text → Bytes → Link → Link
unfolding on_parsed parse_topic
on_upstream codec fuel policy own topic raw link =
    on_parsed codec fuel policy own topic (parse_topic topic) raw link

-- The reply to an event, whose id is that of the frame or else the time.
reply_id : Option Json → Text → Json
reply_id none now = str now
reply_id (some id) now = id

reply_body : Text → Text → Fields → Json
unfolding reply_id
reply_body kind now payload = obj (
    field "code" (num (pos 200)) (
      field "data" (obj end) (
        field "id" (reply_id (lookup_field "id" payload) now) (
          field "message" (str (codes "success")) (
            field "method" (str (codes "thing.event." ++ (kind ++ codes ".post")))
              (field "version" (str (codes "1.0.0")) end))))))

-- event_reply_topic for an event, and nothing else.
unfoldable reply : Bool → JsonCodec → Text → ParsedTopic → Fields → Link → Link
unfolding reply_body event_reply_topic
reply false codec now p payload link = link
reply true codec now p payload link = elim p.category [
  | event ↦ record link {
    published =
        link.published
        ++ (
          event_reply_topic p.product_key p.device_name p.detail,
          codec.dumps_compact_bytes (reply_body p.detail now payload),
        )
          ∷ [];
  }
  | service ↦ link
  | user_get ↦ link
  | ota ↦ link
]

unfoldable route :
    JsonCodec → Session → Identity → Text → Text → Option ParsedTopic → Fields → Link → Link
unfolding is_server_published text_eq reply forward_up
route codec session own now topic none payload link = link
route codec session own now topic (some p) payload link =
    if is_server_published p
    then link
    else if text_eq p.product_key own.product_key && text_eq p.device_name own.device_name
    then (forward_up session topic (codec.dumps_bytes (obj payload))
        (reply session.replies codec now p payload link)).0
    else link

unfoldable hear : JsonCodec → Session → Identity → Text → Text → Option Json → Link → Link
unfolding route parse_topic
hear codec session own now topic (some (obj payload)) link =
    route codec session own now topic (parse_topic topic) payload link
hear codec session own now topic other link = link

-- _handle_message
unfoldable pub handle_message : JsonCodec → Session → Identity → Text → Text → Bytes → Link → Link
unfolding hear
handle_message codec session own now topic raw link =
    hear codec session own now topic (codec.loads_bytes raw) link
