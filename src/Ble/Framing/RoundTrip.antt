-- ===== src/Ble/Framing/RoundTrip.antt =====
-- What leaves as a frame is what the reader takes out of it: `build_ble_frame` against
-- `_ble_unframe` and `_iter_ble_frames` of addon/petkit_local/devices/ble/framing.py.
use petkit_local.Prelude.{
  ℕ, ◌+◌, ◌*◌, ◌<◌, ◌≡◌, refl, none, some, List, [], ◌∷◌, ◌++◌, arith, ap, sym, true, Bool-cases,
  inl, inr, ◌↔◌, ◌≢◌, leb, subst, Text, Bytes, length, length-append, drop_last-append, get_or,
  append_assoc, append-nil,
}
use petkit_local.Prelude.Int.{pos}
use petkit_local.Prelude.Json.{
  Json, num, str, arr, obj, Items, Fields, lookup_field, cons, nil, field, end, item_list,
}
use petkit_local.Ble.Framing.{
  Codec, IsLawful, unframe, frame_body, build_ble_frame, ble_command_frame, decode_data,
  frames_of_item, frames_of_items, iter_ble_frames,
}
use petkit_local.Ble.Framing.Commands.{is_sendable}

-- A frame is split into its command byte and exactly its payload.
pub unframe-frame_body :
    (cmd seq : ℕ) (payload : Bytes)
    → cmd < 256
    → unframe (frame_body cmd seq payload) ≡ (some cmd, payload)
unfolding unframe frame_body
unframe-frame_body cmd seq payload h =
    rw (long_enough, drop_last-append payload 0xFB) (ground arith)
  where
    long_enough : leb 9 (length (frame_body cmd seq payload)) ≡ true
    long_enough = ground (arith, length-append payload (0xFB ∷ []))

-- The header's two length bytes, low byte first, are the length of the payload, and the whole
-- frame is nine bytes longer than it, for every payload of less than 65536 bytes.
pub frame_body-length :
    (cmd seq : ℕ) (payload : Bytes)
    → length payload < 65536
    → (get_or (frame_body cmd seq payload) 6 0 + 256 * get_or (frame_body cmd seq payload) 7 0
        ≡ length payload)
      × (length (frame_body cmd seq payload) ≡ length payload + 9)
unfolding frame_body
frame_body-length cmd seq payload h = omega (arith, length-append payload (0xFB ∷ []))

-- The content of a relayed report that holds the given items and nothing loose.
abbrev pub relayed : Items → Json
relayed items = obj (field "payload" (arr items) end)

-- One entry of a report's payload list.
abbrev pub entry : Json → Text → Json
entry beside blob = obj (field "cmd" beside (field "data" (str blob) end))

iter-relayed :
    (k : Codec) (items : Items)
    → iter_ble_frames k (relayed items) ≡ frames_of_items k (item_list items)
unfolding iter_ble_frames
iter-relayed k items = ap (frames_of_items k) (append-nil (item_list items))

module _ (k : Codec) (lawful : IsLawful k) where
  decode_data-build :
      (cmd seq : ℕ) (payload : Bytes)
      → decode_data k (str (build_ble_frame k cmd seq payload)) ≡ some (frame_body cmd seq payload)
  unfolding decode_data build_ble_frame
  decode_data-build cmd seq payload = ground (
    arith,
    lawful.unquote-quote (k.b64encode (frame_body cmd seq payload)),
    lawful.strip-b64encode (frame_body cmd seq payload),
    lawful.b64decode-b64encode (frame_body cmd seq payload),
  )

  frames_of_item-build :
      (beside : Json) (cmd seq : ℕ) (payload : Bytes)
      → cmd < 256
      → frames_of_item k (entry beside (build_ble_frame k cmd seq payload))
        ≡ (num (pos cmd), payload) ∷ []
  unfolding frames_of_item
  frames_of_item-build beside cmd seq payload h =
      rw (decode_data-build cmd seq payload) (rw (unframe-frame_body cmd seq payload h))

  -- Under a lawful codec, a frame that is built for a command below 256 and relayed back is read as
  -- that command and that payload, whatever command its entry names beside it.
  pub iter_ble_frames-build :
      (beside : Json) (cmd seq : ℕ) (payload : Bytes)
      → cmd < 256
      → iter_ble_frames k (relayed (cons (entry beside (build_ble_frame k cmd seq payload)) nil))
        ≡ (num (pos cmd), payload) ∷ []
  unfolding frames_of_items
  iter_ble_frames-build beside cmd seq payload h =
      rw (iter-relayed, frames_of_item-build beside cmd seq payload h)

sendable_lt : (cmd : ℕ) → is_sendable cmd ≡ true → cmd < 256
unfolding is_sendable
sendable_lt cmd h = ground arith

-- Under a lawful codec: whatever `ble_command_frame` gives is read back, relayed, as the command and
-- the payload that were sent, and it gives nothing exactly for a command other than 220, 221, 222.
pub ble_command_frame_lem :
    (k : Codec)
    → IsLawful k
    → (beside : Json) (cmd seq : ℕ) (payload : Bytes)
    → ((t : Text)
        → ble_command_frame k cmd seq payload ≡ some t
        → iter_ble_frames k (relayed (cons (entry beside t) nil)) ≡ (num (pos cmd), payload) ∷ [])
      × (ble_command_frame k cmd seq payload ≡ none ↔ (cmd ≢ 220) × (cmd ≢ 221) × (cmd ≢ 222))
unfolding ble_command_frame
ble_command_frame_lem k lawful beside cmd seq payload = (
  λ t h. elim (Bool-cases (is_sendable cmd)) [
    | inl sent ↦
        subst
          (λ u.
            iter_ble_frames k (relayed (cons (entry beside u) nil)) ≡ (num (pos cmd), payload) ∷ [])
          (ground arith)
          (iter_ble_frames-build k lawful beside cmd seq payload (sendable_lt cmd sent))
    | inr not_sent ↦ absurd (ground arith)
  ],
  (λ h. (λ e. ground arith, λ e. ground arith, λ e. ground arith), λ h. ground arith),
)

frames_of_items-append :
    (k : Codec) (xs ys : List Json)
    → frames_of_items k (xs ++ ys) ≡ frames_of_items k xs ++ frames_of_items k ys
unfolding frames_of_items
frames_of_items-append k [] ys = refl
frames_of_items-append k (x ∷ xs) ys = simp (frames_of_items-append k xs ys, append_assoc)

-- Under any codec, an entry that cannot be decoded costs only itself: the frames before and after it
-- in the payload list are those of the list without it.
pub iter_ble_frames-skip :
    (k : Codec) (items : Items) (before after : List Json) (fs : Fields) (blob : Json)
    → item_list items ≡ before ++ obj fs ∷ after
    → lookup_field "data" fs ≡ some blob
    → decode_data k blob ≡ none
    → iter_ble_frames k (relayed items) ≡ frames_of_items k (before ++ after)
unfolding frames_of_items
iter_ble_frames-skip k items before after fs blob split present bad =
    rw (iter-relayed, split, frames_of_items-append)
      (unfold frames_of_item in rw (present, bad) (sym (frames_of_items-append k before after)))
