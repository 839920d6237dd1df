-- ===== src/Mqtt/Relay/Writing.antt =====
-- Commands that are written to an accessory.
use petkit_local.Prelude.{
  ℕ, zero, suc, ◌+◌, ◌<◌, ◌≡◌, refl, sym, ap, Bool, true, false, Option, none, some, List, [], ◌∷◌,
  ◌++◌, ◌%◌, arith, Bytes, Text, append-nil, ◌∙◌,
}
use petkit_local.Prelude.Int.{pos}
use petkit_local.Prelude.Json.{Json, num, cons, nil}
use petkit_local.Ble.Framing.{Codec, IsLawful, ble_command_frame, iter_ble_frames}
use petkit_local.Ble.Framing.RoundTrip.{relayed, entry, ble_command_frame_lem}
use petkit_local.Mqtt.Relay.{
  Accessory, Relay, Outcome, Published, connect, ble, session_hold_seconds, get_or_0, put,
  ble_connect, publish, publish_service, publish_frame, publish_ble_command,
}

-- The envelopes of a write: the session that is opened, then the frame.
abbrev pub opening : ℕ → ℕ → Accessory → Published
opening now parent a = record {
  parent = parent;
  envelope = connect 1 (some session_hold_seconds) a.ble_type_int a.wire_mac;
  timestamp = now;
}

abbrev pub framed : ℕ → ℕ → Accessory → ℕ → Text → Published
framed now parent a cmd frame = record {
  parent = parent;
  envelope = ble a.ble_type_int a.wire_mac cmd frame;
  timestamp = now;
}

-- The frame goes out behind the opening if the bridge still has a connection then.
abbrev pub behind : Option ℕ → ℕ → Accessory → ℕ → Text → List Published
behind none parent a cmd frame = []
behind (some later) parent a cmd frame = framed later parent a cmd frame ∷ []

Success : Codec → ℕ → Option ℕ → ℕ → Accessory → ℕ → Bytes → Json → Relay → Outcome → Type 0
Success k now later parent a cmd payload beside st out =
    (frame : Text) × (out.relay.sent
      ≡ (st.sent ++ opening now parent a ∷ []) ++ behind later parent a cmd frame)
    × (iter_ble_frames k (relayed (cons (entry beside frame) nil)) ≡ (num (pos cmd), payload) ∷ [])

sent-publish_frame :
    (k : Codec) (later : Option ℕ) (parent : ℕ) (a : Accessory) (cmd : ℕ) (frame : Text)
    (opened : Relay)
    → (publish_frame k later parent a cmd (some frame) opened).relay.sent
      ≡ opened.sent ++ behind later parent a cmd frame
unfolding publish_frame publish_service publish
sent-publish_frame k none parent a cmd frame opened = sym (append-nil opened.sent)
sent-publish_frame k (some later) parent a cmd frame opened = refl

frame-Success :
    (k : Codec)
    → IsLawful k
    → (now : ℕ) (later : Option ℕ) (parent : ℕ) (a : Accessory) (cmd seq : ℕ) (payload : Bytes)
      (beside : Json) (st opened : Relay)
    → opened.sent ≡ st.sent ++ opening now parent a ∷ []
    → (frame : Option Text) → frame ≡ ble_command_frame k cmd seq payload
    → (publish_frame k later parent a cmd frame opened).returned ≡ true
    → Success k now later parent a cmd payload beside st
        (publish_frame k later parent a cmd frame opened)
unfolding Success publish_frame
frame-Success k lawful now later parent a cmd seq payload beside st opened same none e h =
    absurd (cc)
frame-Success k lawful now later parent a cmd seq payload beside st opened same (some frame) e h = (
  frame,
  sent-publish_frame k later parent a cmd frame opened
      ∙ ap (λ l. l ++ behind later parent a cmd frame) same,
  (ble_command_frame_lem k lawful beside cmd seq payload).0 frame (sym e),
)

-- Under a lawful codec, a write that reports success has sent the opening of a session with the
-- accessory, and directly behind it, if the bridge is still connected when the frame is ready, a
-- frame for the accessory that is read back, relayed, as the command and the payload of the write;
-- if the connection was lost by then, nothing follows the opening. Without a connection at the
-- call a write reports failure and changes nothing.
pub publish_ble_command-opened :
    (k : Codec)
    → IsLawful k
    → (now : ℕ) (later : Option ℕ) (parent : ℕ) (a : Accessory) (cmd : ℕ) (payload : Bytes)
      (st : Relay) (beside : Json)
    → ((connected : Bool)
        → (publish_ble_command k connected now later parent a cmd payload st).returned ≡ true
        → (frame : Text) × ((publish_ble_command k connected now later parent a cmd payload
              st).relay.sent
            ≡ (st.sent ++ opening now parent a ∷ []) ++ behind later parent a cmd frame)
          × (iter_ble_frames k (relayed (cons (entry beside frame) nil))
              ≡ (num (pos cmd), payload) ∷ []))
      × (publish_ble_command k false now later parent a cmd payload st
          ≡ record { returned = false; relay = st })
unfolding Success publish_ble_command ble_connect publish
publish_ble_command-opened k lawful now later parent a cmd payload st beside = (choose, refl)
  where
    choose :
        (connected : Bool)
        → (publish_ble_command k connected now later parent a cmd payload st).returned ≡ true
        → Success k now later parent a cmd payload beside st
            (publish_ble_command k connected now later parent a cmd payload st)
    choose true h =
        frame-Success k lawful now later parent a cmd (get_or_0 st.seq a.petkit_id) payload beside
          st _ refl (ble_command_frame k cmd (get_or_0 st.seq a.petkit_id) payload) refl h
    choose false h = absurd (cc)

-- The state after `n` writes of one command to one accessory.
unfoldable pub writes : Codec → ℕ → Option ℕ → ℕ → Accessory → ℕ → Bytes → ℕ → Relay → Relay
writes k now later parent a cmd payload zero st = st
writes k now later parent a cmd payload (suc n) st =
    (publish_ble_command k true now later parent a cmd payload
      (writes k now later parent a cmd payload n st)).relay

seq-publish_frame :
    (k : Codec) (later : Option ℕ) (parent : ℕ) (a : Accessory) (cmd : ℕ) (frame : Option Text)
    (st : Relay)
    → (publish_frame k later parent a cmd frame st).relay.seq ≡ st.seq
unfolding publish_frame publish_service publish
seq-publish_frame k later parent a cmd none st = refl
seq-publish_frame k none parent a cmd (some frame) st = refl
seq-publish_frame k (some later) parent a cmd (some frame) st = refl

seq-publish_ble_command :
    (k : Codec) (now : ℕ) (later : Option ℕ) (parent : ℕ) (a : Accessory) (cmd : ℕ)
    (payload : Bytes) (st : Relay)
    → get_or_0 (publish_ble_command k true now later parent a cmd payload st).relay.seq a.petkit_id
      ≡ (get_or_0 st.seq a.petkit_id + 1) % 256
unfolding publish_ble_command ble_connect publish put
seq-publish_ble_command k now later parent a cmd payload st =
    rw
      (seq-publish_frame k later parent a cmd
        (ble_command_frame k cmd (get_or_0 st.seq a.petkit_id) payload) _)
      (ground arith)

-- The sequence number counts the writes to an accessory and wraps at a byte: from a number below 256
-- on, `n` writes leave the number `n` further, modulo 256, also when nothing could be framed.
pub seq-writes :
    (k : Codec) (now : ℕ) (later : Option ℕ) (parent : ℕ) (a : Accessory) (cmd : ℕ)
    (payload : Bytes) (n : ℕ) (st : Relay)
    → get_or_0 st.seq a.petkit_id < 256
    → get_or_0 (writes k now later parent a cmd payload n st).seq a.petkit_id
      ≡ (get_or_0 st.seq a.petkit_id + n) % 256
unfolding writes
seq-writes k now later parent a cmd payload zero st h = omega arith
seq-writes k now later parent a cmd payload (suc n) st h = omega (
  arith,
  seq-publish_ble_command k now later parent a cmd payload
      (writes k now later parent a cmd payload n st),
  seq-writes k now later parent a cmd payload n st h,
)
