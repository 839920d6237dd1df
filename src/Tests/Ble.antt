-- ===== src/Tests/Ble.antt =====
-- The fountain frames, on a few blocks.
use petkit_local.Prelude.{
  ℕ, ◌≤◌, ◌<◌, ◌≡◌, ◌≢◌, refl, none, some, [], ◌∷◌, ◌++◌, arith, Text, Bytes, length, All, ok, ◌↔◌,
  str_eq, if◌then◌else◌,
}
use petkit_local.Prelude.Dict.{Dict, lookup, lookup_or, insert}
use petkit_local.Prelude.Int.{ℤ, pos}
use petkit_local.Prelude.Json.{Json, null, num, str, cons, nil, field, end}
use petkit_local.Ble.Framing.{
  Codec, IsLawful, ble_command_frame, iter_ble_frames, frames_of_items, decode_data,
}
use petkit_local.Ble.Framing.Commands.{cmd_set_config}
use petkit_local.Ble.Framing.RoundTrip.{relayed, entry, ble_command_frame_lem, iter_ble_frames-skip}
use petkit_local.Ble.Ctw3.{decode_ctw3_config, ctw3_config_payload, ctw3_command_for}
use petkit_local.Ble.Ctw3.Settings.{
  restated, all_names, IsBelow, InRange, decode_ctw3_config-ctw3_config_payload,
  command_for_setting,
}
use petkit_local.Ble.W5.{w5_command_for}
use petkit_local.Ble.Command.{ble_command_for}
use petkit_local.Ble.Command.Sendable.{command_for-framed}

-- A codec in which a text is its own encoding.
abbrev pub plain : Codec
plain = record {
  quote = λ s. s;
  unquote = λ s. s;
  strip = λ s. s;
  b64encode = λ b. b;
  b64decode = λ s. some s;
  fromhex = λ s. none;
}

pub plain-IsLawful : IsLawful plain
plain-IsLawful = record {
  unquote-quote = λ s. refl;
  strip-b64encode = λ b. refl;
  b64decode-b64encode = λ b. refl;
}

-- The same, but no text decodes.
abbrev deaf : Codec
deaf = record plain { b64decode = λ s. none }

-- A reply to a settings query, off a live fountain.
abbrev tail : Bytes
tail = 3 ∷ 3 ∷ 0 ∷ 0x78 ∷ 4 ∷ 0xB0 ∷ 1 ∷ 3 ∷ 0 ∷ 0 ∷ 1 ∷ 0 ∷ []

abbrev zeros : ℕ → Bytes
zeros ℕ.zero = []
zeros (ℕ.suc n) = 0 ∷ zeros n

abbrev status : Bytes
status = zeros 30 ++ tail

abbrev settings : Dict ℤ
settings = decode_ctw3_config tail

abbrev w5_block : Bytes
w5_block = 3 ∷ 3 ∷ 1 ∷ 2 ∷ 0 ∷ 10 ∷ 1 ∷ 20 ∷ 0 ∷ 2 ∷ 30 ∷ 3 ∷ 40 ∷ []

abbrev smart : Bytes
smart = 2 ∷ 0 ∷ []

abbrev pair : Bytes
pair = 1 ∷ 2 ∷ []

ble_command_frame_lem_example :
    ((t : Text)
      → ble_command_frame plain 221 7 tail ≡ some t
      → iter_ble_frames plain (relayed (cons (entry null t) nil)) ≡ (num (pos 221), tail) ∷ [])
    × (ble_command_frame plain 221 7 tail ≡ none
        ↔ (cmd_set_config ≢ 220) × (cmd_set_config ≢ 221) × (cmd_set_config ≢ 222))
ble_command_frame_lem_example = ble_command_frame_lem plain plain-IsLawful null 221 7 tail

iter_ble_frames-skip_example :
    iter_ble_frames deaf (relayed (cons (entry null (1 ∷ [])) nil))
    ≡ frames_of_items deaf ([] ++ [])
unfolding decode_data
iter_ble_frames-skip_example =
    iter_ble_frames-skip deaf (cons (entry null (1 ∷ [])) nil) [] []
      (field "cmd" null (field "data" (str (1 ∷ [])) end)) (str (1 ∷ [])) refl refl refl

below : {bound : ℕ} → (n : ℕ) → n < bound → IsBelow bound (pos n)
below n h = (n, refl, h)

settings-InRange : InRange settings
unfolding decode_ctw3_config
settings-InRange = (
  (
    below 3 (omega arith),
    (
      below 3 (omega arith),
      (
        below 1 (omega arith),
        (
          below 3 (omega arith),
          (
            below 0 (omega arith),
            (below 0 (omega arith), (below 1 (omega arith), (below 0 (omega arith), tt))),
          ),
        ),
      ),
    ),
  ),
  (below 120 (omega arith), (below 1200 (omega arith), tt)),
)

dimmed-InRange : InRange (insert "brightness" (pos 2) settings)
unfolding decode_ctw3_config
dimmed-InRange = (
  (
    below 3 (omega arith),
    (
      below 3 (omega arith),
      (
        below 1 (omega arith),
        (
          below 2 (omega arith),
          (
            below 0 (omega arith),
            (below 0 (omega arith), (below 1 (omega arith), (below 0 (omega arith), tt))),
          ),
        ),
      ),
    ),
  ),
  (below 120 (omega arith), (below 1200 (omega arith), tt)),
)

decode_ctw3_config-ctw3_config_payload_example :
    (payload : Bytes) × (ctw3_config_payload settings ≡ ok (some payload))
    × (decode_ctw3_config payload ≡ restated settings)
unfolding decode_ctw3_config
decode_ctw3_config-ctw3_config_payload_example =
    decode_ctw3_config-ctw3_config_payload settings settings-InRange refl

command_for_setting_example :
    (payload : Bytes) × (ctw3_command_for settings "ctw3_brightness" (pos 2)
      ≡ ok (cmd_set_config, payload))
    × All
        (λ n.
          lookup n (decode_ctw3_config payload)
          ≡ some (if str_eq "brightness" n then pos 2 else lookup_or n (pos 0) settings))
        all_names
unfolding decode_ctw3_config
command_for_setting_example =
    command_for_setting settings "ctw3_brightness" "brightness" (pos 2) refl dimmed-InRange refl

abbrev asleep : Json
asleep = relayed (cons (entry (num (pos 210)) (zeros 26)) nil)

command_for-framed_example :
    (t : Text) × (ble_command_frame plain 220 9 smart ≡ some t)
    × (length smart ≤ 14)
    × (iter_ble_frames plain (relayed (cons (entry null t) nil)) ≡ (num (pos 220), smart) ∷ [])
unfolding ble_command_for w5_command_for
command_for-framed_example =
    command_for-framed plain plain-IsLawful "w5" "w5_mode" [] (pos 2) null 220 9 smart refl
