-- ===== src/Tests/Mqtt.antt =====
-- The device topics and the BLE relay, on a few topics and accessories.
use petkit_local.Prelude.{
  ℕ, Bool, Option, false, ◌≡◌, refl, true, none, some, [], ◌∷◌, ◌++◌, arith, Text, Bytes, codes,
}
use petkit_local.Prelude.Int.{pos, negsuc}
use petkit_local.Prelude.Json.{null, num, cons, nil}
use petkit_local.Ble.Framing.{ble_command_frame, iter_ble_frames}
use petkit_local.Ble.Framing.RoundTrip.{relayed, entry}
use petkit_local.Mqtt.Topics.{event, parse_topic, rewrite_topic}
use petkit_local.Mqtt.Topics.RoundTrip.{IsSegment}
use petkit_local.Mqtt.Topics.Rewrite.{parse_topic-rewrite_topic}
use petkit_local.Mqtt.Relay.{Accessory, Relay, non_k3_for_parent, publish_ble_command}
use petkit_local.Mqtt.Relay.Polling.{polled}
use petkit_local.Mqtt.Relay.Writing.{opening, framed, publish_ble_command-opened}
use petkit_local.Tests.Ble.{plain, plain-IsLawful}

abbrev pk : Text
pk = codes "pk"

abbrev dn : Text
dn = codes "d1"

abbrev kind : Text
kind = codes "property"

abbrev name : Text
name = codes "connect_reply"

abbrev topic : Text
topic = codes "/sys/a/b/thing/event/property/post"

pk-IsSegment : IsSegment pk
pk-IsSegment = (cc, (omega arith, (omega arith, tt)))

dn-IsSegment : IsSegment dn
dn-IsSegment = (cc, (omega arith, (omega arith, tt)))

kind-IsSegment : IsSegment kind
kind-IsSegment = (
  cc,
  (
    omega arith,
    (
      omega arith,
      (omega arith, (omega arith, (omega arith, (omega arith, (omega arith, (omega arith, tt)))))),
    ),
  ),
)

-- A poll, a reply and an event of another device, read and sent on.
parse_topic-rewrite_topic_example :
    (t : Text) × (rewrite_topic topic pk dn ≡ some t)
    × (parse_topic t
        ≡ some (record { product_key = pk; device_name = dn; category = event; detail = kind }))
unfolding parse_topic
parse_topic-rewrite_topic_example =
    parse_topic-rewrite_topic topic pk dn
      (record { product_key = codes "a"; device_name = codes "b"; category = event; detail = kind })
      pk-IsSegment dn-IsSegment refl

abbrev fountain : Accessory
fountain = record {
  petkit_id = 9;
  ble_type = "ctw3";
  ble_type_int = 24;
  wire_mac = codes "a4c1";
  link_with = 4;
  interval = pos 60;
}

abbrev idle : Relay
idle = record { poll_ts = λ j. none; seq = λ j. none; sent = [] }

-- Asked at 1000.
abbrev asked : Relay
asked = record { poll_ts = λ j. some 1000; seq = λ j. some 255; sent = [] }

-- The bridge is connected at the turn of each accessory.
abbrev turn : ℕ → Option ℕ
turn id = some 2000

-- It is left alone until its interval is over, and never with a negative one.
left_alone : polled true 1059 4 (fountain ∷ []) asked ≡ []
unfolding non_k3_for_parent
left_alone = refl

not_left_alone :
    polled true 1000 4 (record fountain { interval = negsuc 0 } ∷ []) asked
    ≡ record fountain { interval = negsuc 0 } ∷ []
unfolding non_k3_for_parent
not_left_alone = refl

abbrev payload : Bytes
payload = 1 ∷ 1 ∷ 2 ∷ []

publish_ble_command-opened_example :
    ((connected : Bool)
      → (publish_ble_command plain connected 2000 (some 2001) 4 fountain 220 payload idle).returned
        ≡ true
      → (frame : Text) × ((publish_ble_command plain connected 2000
            (some 2001)
            4
            fountain
            220
            payload
            idle).relay.sent
          ≡ ([] ++ opening 2000 4 fountain ∷ []) ++ framed 2001 4 fountain 220 frame ∷ [])
        × (iter_ble_frames plain (relayed (cons (entry null frame) nil))
            ≡ (num (pos 220), payload) ∷ []))
    × (publish_ble_command plain false 2000 (some 2001) 4 fountain 220 payload idle
        ≡ record { returned = false; relay = idle })
publish_ble_command-opened_example =
    publish_ble_command-opened plain plain-IsLawful 2000 (some 2001) 4 fountain 220 payload idle
      null

-- A write succeeds, although its frame was lost with the connection.
frame_lost : (publish_ble_command plain true 2000 none 4 fountain 220 payload idle).returned ≡ true
unfolding publish_ble_command ble_command_frame
frame_lost = refl
