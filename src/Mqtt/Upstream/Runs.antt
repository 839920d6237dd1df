-- ===== src/Mqtt/Upstream/Runs.antt =====
-- Runs of the link of addon/petkit_local/mqtt/upstream.py: frames come down from the cloud, and the broker
-- hands over frames, among them those that the add-on itself has published.
use petkit_local.Prelude.{ℕ, ◌≡◌, refl, [], Text, Bytes, All}
use petkit_local.Http.Redact.{JsonCodec, Policy}
use petkit_local.Mqtt.Topics.{parse_topic}
use petkit_local.Mqtt.Topics.RoundTrip.{IsSegment}
use petkit_local.Mqtt.Upstream.{Identity, Session, Link, on_upstream, handle_message}
use petkit_local.Mqtt.Upstream.Direction.{
  IsDownward, All-map, on_parsed-All, hear-All, hear-Downward,
}

pub data Step (codec : JsonCodec) (fuel : ℕ) (own : Identity) : Link → Link → Type 0 where
  down :
      (policy : Policy) (topic : Text) (raw : Bytes) (link : Link)
      → Step codec fuel own link (on_upstream codec fuel policy own topic raw link)
  heard :
      (session : Session) (now topic : Text) (raw : Bytes) (link : Link)
      → Step codec fuel own link (handle_message codec session own now topic raw link)

-- The link after some steps from the start, where nothing has been published.
pub data Run (codec : JsonCodec) (fuel : ℕ) (own : Identity) : Link → Type 0 where
  start : Run codec fuel own (record { published = []; relayed = []; attempts = [] })
  more :
      {before after : Link}
      → Run codec fuel own before
      → Step codec fuel own before after
      → Run codec fuel own after

module _ (codec : JsonCodec) (own : Identity) (pk_IsSegment : IsSegment own.product_key)
    (dn_IsSegment : IsSegment own.device_name) where
  Step-IsDownward :
      {fuel : ℕ} {before after : Link}
      → Step codec fuel own before after
      → All (IsDownward own) before.published
      → All (IsDownward own) after.published
  unfolding on_upstream handle_message
  Step-IsDownward (down policy topic raw link) h =
      on_parsed-All codec own pk_IsSegment dn_IsSegment _ policy topic (parse_topic topic) raw link
        refl h
  Step-IsDownward (heard session now topic raw link) h =
      hear-All codec own pk_IsSegment dn_IsSegment session now topic (codec.loads_bytes raw) link h

  -- However cloud frames and broker messages follow one another, a recognised topic that the add-on has
  -- published on is one of the server's direction, addressed to the device and not a firmware push, if the
  -- device's product key and name are not empty and hold no slash.
  pub Run-IsDownward :
      (fuel : ℕ) (link : Link) → Run codec fuel own link → All (IsDownward own) link.published
  Run-IsDownward fuel link run = go run
    where
      go : {l : Link} → Run codec fuel own l → All (IsDownward own) l.published
      go start = tt
      go (more before step) = Step-IsDownward step (go before)

  -- However cloud frames and broker messages follow one another, handing a frame that the add-on has
  -- published back to it changes nothing: it goes up to the cloud no more and gets no reply.
  pub handle_message-published :
      (fuel : ℕ) (link : Link)
      → Run codec fuel own link
      → All
          (λ f.
            (session : Session) (now : Text) (later : Link)
            → handle_message codec session own now f.0 f.1 later ≡ later)
          link.published
  unfolding handle_message
  handle_message-published fuel link run =
      All-map (IsDownward own) _
        (λ f d session now later.
          hear-Downward codec own pk_IsSegment dn_IsSegment session now f.0 (codec.loads_bytes f.1)
            f.1 later d)
        link.published (Run-IsDownward fuel link run)
