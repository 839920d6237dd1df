-- ===== src/Ble/Framing.antt =====
-- The frame layer that both fountain families share, addon/petkit_local/devices/ble/framing.py.
-- Base64, percent-encoding, `str.strip` and `bytes.fromhex` are Python's: the record `Codec`.
pub mod Commands
pub mod Words
pub mod RoundTrip
use petkit_local.Prelude.{
  ℕ, suc, ◌+◌, ◌/◌, ◌%◌, String, ◌≡◌, Bool, true, false, ◌&&◌, Option, none, some, List, [], ◌∷◌,
  ◌++◌, Text, Bytes, length, drop, drop_last, leb, ◌==◌, if◌then◌else◌,
}
use petkit_local.Prelude.Int.{ℤ, pos}
use petkit_local.Prelude.Json.{
  Json, null, str, raw, arr, obj, Fields, end, field, item_list, lookup_field,
}
use Commands.{is_sendable}

-- The text codecs that the frames go through. A decoder that raises returns `none`.
pub record Codec : Type 0 where
  pub quote : Text → Text
  pub unquote : Text → Text
  pub strip : Text → Text
  pub b64encode : Bytes → Text
  pub b64decode : Text → Option Bytes
  pub fromhex : Text → Option Bytes

-- What the frames rely on: percent-decoding undoes percent-encoding, base64 decoding undoes
-- encoding, and base64 text has no whitespace at its ends.
pub record IsLawful (k : Codec) : Type 0 where
  pub unquote-quote : (s : Text) → k.unquote (k.quote s) ≡ s
  pub strip-b64encode : (b : Bytes) → k.strip (k.b64encode b) ≡ k.b64encode b
  pub b64decode-b64encode : (b : Bytes) → k.b64decode (k.b64encode b) ≡ some b

abbrev pub header_len : ℕ
header_len = 8

-- `raw[:3] == BLE_FRAME_HEADER`
pub has_header : Bytes → Bool
has_header (a ∷ b ∷ c ∷ rest) = a == 0xFA && (b == 0xFC && c == 0xFD)
has_header rest = false

-- raw[3]
byte_at_3 : Bytes → Option ℕ
byte_at_3 (a ∷ b ∷ c ∷ d ∷ rest) = some d
byte_at_3 rest = none

-- _ble_unframe
unfoldable pub unframe : Bytes → Option ℕ × Bytes
unfolding has_header byte_at_3
unframe bs =
    if leb (header_len + 1) (length bs) && has_header bs
    then (byte_at_3 bs, drop_last (drop header_len bs))
    else (none, bs)

-- The bytes of one outbound frame.
unfoldable pub frame_body : ℕ → ℕ → Bytes → Bytes
frame_body cmd seq payload =
    0xFA
    ∷ 0xFC
    ∷ 0xFD
    ∷ cmd % 256
    ∷ 1
    ∷ seq % 256
    ∷ length payload % 256
    ∷ (length payload / 256) % 256
    ∷ (payload ++ 0xFB ∷ [])

module _ (k : Codec) where
  -- build_ble_frame
  unfoldable pub build_ble_frame : ℕ → ℕ → Bytes → Text
  unfolding frame_body
  build_ble_frame cmd seq payload = k.quote (k.b64encode (frame_body cmd seq payload))

  -- ble_command_frame
  unfoldable pub ble_command_frame : ℕ → ℕ → Bytes → Option Text
  unfolding is_sendable
  ble_command_frame cmd seq payload =
      if is_sendable cmd then some (build_ble_frame cmd seq payload) else none

  -- _ble_decode_data
  unfoldable pub decode_data : Json → Option Bytes
  decode_data (raw b) = some b
  decode_data (str s) =
      let t = k.strip (k.unquote s) in elim (k.b64decode t) [ some b ↦ some b | none ↦ k.fromhex t ]
  decode_data other = none

-- content.get("payload") if that is a list
payload_items : Option Json → List Json
payload_items (some (arr xs)) = item_list xs
payload_items other = []

-- One loose blob, as the item that stands for it.
loose_item : Option Json → List Json
loose_item none = []
loose_item (some null) = []
loose_item (some v) = obj (field "cmd" null (field "data" v end)) ∷ []

-- The items of a content: its payload list, then the loose blobs.
unfoldable pub items_of : Fields → List Json
unfolding payload_items loose_item
items_of fs =
    payload_items (lookup_field "payload" fs)
    ++ (loose_item (lookup_field "data" fs)
        ++ (loose_item (lookup_field "value" fs) ++ loose_item (lookup_field "frame" fs)))

-- framed_cmd if framed_cmd is not None else item.get("cmd")
command_of : Option ℕ → Option Json → Json
command_of (some cmd) beside = Json.num (pos cmd)
command_of none (some cmd) = cmd
command_of none none = null

yield_frame : Option Json → Option Bytes → List (Json × Bytes)
unfolding command_of unframe
yield_frame beside none = []
yield_frame beside (some bs) =
    let (framed_cmd, payload) = unframe bs in (command_of framed_cmd beside, payload) ∷ []

module _ (k : Codec) where
  frame_data : Fields → Option Json → List (Json × Bytes)
  unfolding yield_frame decode_data
  frame_data fs none = []
  frame_data fs (some blob) = yield_frame (lookup_field "cmd" fs) (decode_data k blob)

  -- What one item of the loop yields: one frame, or nothing.
  unfoldable pub frames_of_item : Json → List (Json × Bytes)
  unfolding frame_data
  frames_of_item (obj fs) = frame_data fs (lookup_field "data" fs)
  frames_of_item other = []

  unfoldable pub frames_of_items : List Json → List (Json × Bytes)
  unfolding frames_of_item
  frames_of_items [] = []
  frames_of_items (item ∷ items) = frames_of_item item ++ frames_of_items items

  -- _iter_ble_frames
  unfoldable pub iter_ble_frames : Json → List (Json × Bytes)
  unfolding items_of frames_of_items
  iter_ble_frames (obj fs) = frames_of_items (items_of fs)
  iter_ble_frames other = []
