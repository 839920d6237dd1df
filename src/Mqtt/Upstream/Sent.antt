-- ===== src/Mqtt/Upstream/Sent.antt =====
-- What addon/petkit_local/mqtt/upstream.py republishes of the frames of the cloud.
use petkit_local.Prelude.{
  ℕ, ◌≡◌, refl, true, Option, none, some, ◌⊎◌, inl, inr, Text, Bytes, All, Bool-cases, Option-cases,
}
use petkit_local.Prelude.Json.{Json}
use petkit_local.Http.Redact.{JsonCodec, Policy}
use petkit_local.Http.Redact.Bodies.{decode, redact_mqtt, frame_result}
use petkit_local.Http.Redact.Bodies.Clean.{redact_mqtt-IsClean}
use petkit_local.Http.Redact.Walker.Clean.{IsClean}
use petkit_local.Http.Redact.Walker.Safe.{ReadsBack}
use petkit_local.Mqtt.Topics.{ParsedTopic, parse_topic, is_server_published, rewrite_topic}
use petkit_local.Mqtt.Upstream.{
  Identity, Frame, Link, is_upgrade, block_ota, persist, bring_down, on_parsed, on_upstream,
}
use petkit_local.Mqtt.Upstream.Direction.{All-snoc}

-- The body is the compact text of a value that is clean at every depth, or no JSON that a rule reads.
abbrev pub IsCleanFrame : JsonCodec → Frame → Type 0
IsCleanFrame codec f =
    ((sent : Json) × ((f.1 ≡ codec.dumps_compact_bytes sent) × IsClean codec sent))
    ⊎ (decode codec f.1 ≡ none)

module _ (codec : JsonCodec) (reads : ReadsBack codec) (policy : Policy)
    (on : policy.block_rce ≡ true) where
  undecodable :
      (fuel : ℕ) (raw : Bytes)
      → decode codec raw ≡ none
      → (redact_mqtt codec fuel policy raw).body ≡ raw
  unfolding redact_mqtt frame_result
  undecodable fuel raw e = rw e refl

  redacted-IsCleanFrame :
      (fuel : ℕ) (local : Text) (raw : Bytes)
      → IsCleanFrame codec (local, (redact_mqtt codec fuel policy raw).body)
  redacted-IsCleanFrame fuel local raw = elim (Option-cases (decode codec raw)) [
    | inl e ↦ inr (rw (undecodable fuel raw e) e)
    | inr (frame, e) ↦ inl (redact_mqtt-IsClean codec reads policy on fuel raw frame e)
  ]

  bring_down-IsCleanFrame :
      (fuel : ℕ) (topic : Text) (local : Option Text) (raw : Bytes) (link : Link)
      → All (IsCleanFrame codec) link.published
      → All (IsCleanFrame codec) (bring_down codec fuel policy topic local raw link).published
  unfolding bring_down persist
  bring_down-IsCleanFrame fuel topic none raw link h = h
  bring_down-IsCleanFrame fuel topic (some t) raw link h =
      All-snoc (IsCleanFrame codec) link.published (t, (redact_mqtt codec fuel policy raw).body) h
        (redacted-IsCleanFrame fuel t raw)

  on_parsed-IsCleanFrame :
      (fuel : ℕ) (own : Identity) (topic : Text) (found : Option ParsedTopic) (raw : Bytes)
      (link : Link)
      → All (IsCleanFrame codec) link.published
      → All (IsCleanFrame codec) (on_parsed codec fuel policy own topic found raw link).published
  unfolding on_parsed block_ota
  on_parsed-IsCleanFrame fuel own topic none raw link h =
      bring_down-IsCleanFrame fuel topic _ raw link h
  on_parsed-IsCleanFrame fuel own topic (some p) raw link h = elim (Bool-cases (is_upgrade p)) [
    | inl push ↦ rw push h
    | inr plain ↦ elim (Bool-cases (is_server_published p)) [
      | inl served ↦
          rw (plain, served)
            (bring_down-IsCleanFrame fuel topic
              (rewrite_topic topic own.product_key own.device_name) raw link h)
      | inr other ↦ rw (plain, other) h
    ]
  ]

  -- A frame from the cloud leaves our broker with clean frames if it had clean frames: what is republished
  -- is clean at every depth or cannot be decoded, if shell commands are blocked and json.loads reads
  -- back what json.dumps writes.
  pub on_upstream-IsCleanFrame :
      (fuel : ℕ) (own : Identity) (topic : Text) (raw : Bytes) (link : Link)
      → All (IsCleanFrame codec) link.published
      → All (IsCleanFrame codec) (on_upstream codec fuel policy own topic raw link).published
  unfolding on_upstream
  on_upstream-IsCleanFrame fuel own topic raw link h =
      on_parsed-IsCleanFrame fuel own topic (parse_topic topic) raw link h
