-- ===== src/Tests/Upstream.antt =====
-- The theorems on the link to the real cloud at concrete inputs.
use petkit_local.Prelude.{◌≡◌, refl, true, false, some, List, [], ◌∷◌, arith, All, Text, codes}
use petkit_local.Prelude.Json.{flag, Fields, end, field}
use petkit_local.Mqtt.Topics.RoundTrip.{IsSegment}
use petkit_local.Mqtt.Upstream.{Identity, Session, Link, on_upstream, handle_message}
use petkit_local.Mqtt.Upstream.Runs.{
  Run, start, more, down, heard, Run-IsDownward, handle_message-published,
}
use petkit_local.Mqtt.Upstream.Direction.{IsDownward}
use petkit_local.Mqtt.Upstream.Sent.{IsCleanFrame, on_upstream-IsCleanFrame}
use petkit_local.Mqtt.Upstream.Supervise.{Task}
use petkit_local.Tests.Http.{codec, codec-ReadsBack, policy, heartbeat}

-- The device here, and its identity in the cloud.
abbrev own : Identity
own = record { product_key = codes "pk"; device_name = codes "d1" }

abbrev real : Identity
real = record { product_key = codes "rk"; device_name = codes "r1" }

abbrev session : Session
session = record { identity = some real; connected = true; accepts = true; replies = true }

abbrev nothing : Link
nothing = record { published = []; relayed = []; attempts = [] }

abbrev service_start : Text
service_start = codes "/sys/rk/r1/thing/service/start"

-- The heartbeat of the codec comes down as a service frame.
abbrev after_service : Link
after_service = on_upstream codec 9 policy own service_start (1 ∷ []) nothing

-- The device posts an event, and its reply and its relay follow.
abbrev event_post : Text
event_post = codes "/sys/pk/d1/thing/event/property/post"

abbrev after_event : Link
after_event = handle_message codec session own (codes "9") event_post (1 ∷ []) after_service

abbrev run : Run codec 9 own after_event
run =
    more (more start (down policy service_start (1 ∷ []) nothing))
      (heard session (codes "9") event_post (1 ∷ []) after_service)

pk-IsSegment : IsSegment (codes "pk")
pk-IsSegment = (cc, (omega arith, (omega arith, tt)))

dn-IsSegment : IsSegment (codes "d1")
dn-IsSegment = (cc, (omega arith, (omega arith, tt)))

-- Two frames are published, and one goes up.
once-relayed :
    after_event.relayed
    ≡ (codes "/sys/rk/r1/thing/event/property/post", codec.dumps_bytes heartbeat) ∷ []
unfolding handle_message on_upstream
once-relayed = refl

Run-IsDownward_example : All (IsDownward own) after_event.published
Run-IsDownward_example = Run-IsDownward codec own pk-IsSegment dn-IsSegment 9 after_event run

handle_message-published_example :
    All
      (λ f.
        (session : Session) (now : Text) (later : Link)
        → handle_message codec session own now f.0 f.1 later ≡ later)
      after_event.published
handle_message-published_example =
    handle_message-published codec own pk-IsSegment dn-IsSegment 9 after_event run

on_upstream-IsCleanFrame_example : All (IsCleanFrame codec) after_service.published
on_upstream-IsCleanFrame_example =
    on_upstream-IsCleanFrame codec codec-ReadsBack policy refl 9 own service_start (1 ∷ []) nothing
      tt

abbrev config : Fields
config = field "proxy_mode" (flag true) end

abbrev tasks : List Task
tasks = record { petkit_id = 1; is_done = true } ∷ record { petkit_id = 3; is_done = false } ∷ []
