-- ===== src/Ble/W5.antt =====
-- The W5, W4 and CTW2 fountains, addon/petkit_local/devices/ble/w5.py: their status and settings
-- blocks, in both directions. A state section is a dictionary of integers.
pub mod Sendable
pub mod Settings
pub mod Modes
use petkit_local.Prelude.{
  ℕ, suc, zero, ◌+◌, String, ◌||◌, Option, none, some, List, [], ◌∷◌, ◌++◌, Bytes, length, get_or,
  ltb, leb, str_eq, if◌then◌else◌, Result, ok, err, refused, key_error, ◌>>=◌, ◌&&◌,
}
use petkit_local.Prelude.Dict.{Dict, lookup, insert, update, has_keys, lookup_or}
use petkit_local.Prelude.Int.{ℤ, pos, negsuc}
use petkit_local.Prelude.Json.{Json}
use petkit_local.Ble.Framing.{Codec, iter_ble_frames}
use petkit_local.Ble.Framing.Commands.{
  cmd_get_state, cmd_get_config, cmd_set_mode, cmd_set_config, cmd_device_status,
}
use petkit_local.Ble.Framing.Words.{low_byte, from_bytes, to_bytes_2, slice}
use petkit_local.Ble.Reading.{
  Sections, empty, read_bytes, read_ints, drop_unreal_mode, merge, is_cmd,
}

abbrev pub min_status_len : ℕ
min_status_len = 12

abbrev pub config_len : ℕ
config_len = 13

abbrev pub config_lock_offset : ℕ
config_lock_offset = 13

-- _W5_STATUS_STATE_OFFSETS
abbrev pub status_offsets : List (String × ℕ)
status_offsets =
    ("powerStatus", 0)
    ∷ ("mode", 1)
    ∷ ("dndState", 2)
    ∷ ("warningBreakdown", 3)
    ∷ ("warningWaterMissing", 4)
    ∷ ("warningFilter", 5)
    ∷ ("runningStatus", 11)
    ∷ []

-- _W5_CONFIG_BYTE_FIELDS
abbrev pub config_byte_fields : List (String × ℕ)
config_byte_fields =
    ("smartWorkingTime", 0)
    ∷ ("smartSleepTime", 1)
    ∷ ("lampRingSwitch", 2)
    ∷ ("lampRingBrightness", 3)
    ∷ ("noDisturbingSwitch", 8)
    ∷ []

-- _W5_CONFIG_INT_FIELDS
abbrev pub config_int_fields : List (String × ℕ × ℕ)
config_int_fields =
    ("lampRingLightUpTime", 4, 2)
    ∷ ("lampRingGoOutTime", 6, 2)
    ∷ ("noDisturbingStartTime", 9, 2)
    ∷ ("noDisturbingEndTime", 11, 2)
    ∷ []

-- The keys of the two tables of settings fields.
abbrev pub needed_fields : List String
needed_fields =
    "smartWorkingTime" ∷ "smartSleepTime" ∷ "lampRingSwitch" ∷ "lampRingBrightness"
    ∷ "noDisturbingSwitch" ∷ "lampRingLightUpTime" ∷ "lampRingGoOutTime" ∷ "noDisturbingStartTime"
    ∷ "noDisturbingEndTime" ∷ []

-- _W5_CONFIG_ENTITY_FIELDS
abbrev pub config_entity_fields : List (String × String)
config_entity_fields =
    ("w5_light", "lampRingSwitch")
    ∷ ("w5_brightness", "lampRingBrightness")
    ∷ ("w5_dnd", "noDisturbingSwitch")
    ∷ ("w5_child_lock", "isLock")
    ∷ ("w5_smart_work", "smartWorkingTime")
    ∷ ("w5_smart_sleep", "smartSleepTime")
    ∷ []

-- The fields behind the first twelve bytes, each only where the block reaches it.
with_tail : Bytes → Dict ℤ → Dict ℤ
unfolding from_bytes
with_tail bs m =
    let m16 =
      if leb 16 (length bs)
      then insert "todayPumpRunTime" (pos (from_bytes 0 (slice 12 4 bs))) m
      else m in
    let m17 =
      if leb 17 (length bs) then insert "smartWorkingTime" (pos (get_or bs 16 0)) m16 else m16 in
    if leb 18 (length bs) then insert "smartSleepTime" (pos (get_or bs 17 0)) m17 else m17

-- _decode_w5_status
unfoldable pub decode_w5_status : Bytes → Sections
unfolding with_tail drop_unreal_mode from_bytes
decode_w5_status bs = if ltb (length bs) min_status_len then empty else record {
  states = with_tail bs (
      insert "pumpRuntime" (pos (from_bytes 0 (slice 6 4 bs)))
        (drop_unreal_mode (read_bytes status_offsets bs)));
  consumables = ("filterPercentage", pos (get_or bs 10 0)) ∷ [];
}

-- _decode_w5_config
unfoldable pub decode_w5_config : Bytes → Dict ℤ
unfolding from_bytes
decode_w5_config bs =
    if ltb (length bs) config_len
    then []
    else (let out = read_ints config_int_fields bs (read_bytes config_byte_fields bs) in
        if ltb config_lock_offset (length bs)
        then insert "isLock" (pos (get_or bs config_lock_offset 0)) out
        else out)

-- One frame of the loop of parse_w5_ble_response.
unfoldable pub apply_frame : Sections → Json × Bytes → Sections
unfolding decode_w5_status decode_w5_config merge
apply_frame result (cmd, []) = result
apply_frame result (cmd, b ∷ bs) =
    if is_cmd cmd_device_status cmd || is_cmd cmd_get_state cmd
    then merge result (decode_w5_status (b ∷ bs))
    else if is_cmd cmd_get_config cmd
    then record result { states = update result.states (decode_w5_config (b ∷ bs)) }
    else result

-- The loop of parse_w5_ble_response, from the sections that the structured fields gave.
unfoldable pub apply_frames : Sections → List (Json × Bytes) → Sections
unfolding apply_frame
apply_frames result [] = result
apply_frames result (frame ∷ frames) = apply_frames (apply_frame result frame) frames

-- w5_mode_payload
unfoldable pub w5_mode_payload : ℤ → Bytes
unfolding low_byte
w5_mode_payload mode = low_byte mode ∷ 0 ∷ []

-- The fourteen bytes of ten values, in the order of the block.
config_block : (work sleep lamp bright up out dnd start stop lock : ℤ) → Result Bytes
unfolding low_byte to_bytes_2
config_block work sleep lamp bright up out dnd start stop lock = do
  up_bytes ← to_bytes_2 up
  out_bytes ← to_bytes_2 out
  start_bytes ← to_bytes_2 start
  stop_bytes ← to_bytes_2 stop
  ok (
      low_byte work
      ∷ low_byte sleep
      ∷ low_byte lamp
      ∷ low_byte bright
      ∷ (up_bytes
          ++ (out_bytes ++ (low_byte dnd ∷ (start_bytes ++ (stop_bytes ++ (low_byte lock ∷ [])))))))

-- The block of a dictionary's settings; a missing setting counts as 0.
settings_block : Dict ℤ → Result Bytes
settings_block state =
    config_block (lookup_or "smartWorkingTime" (pos 0) state)
      (lookup_or "smartSleepTime" (pos 0) state) (lookup_or "lampRingSwitch" (pos 0) state)
      (lookup_or "lampRingBrightness" (pos 0) state) (lookup_or "lampRingLightUpTime" (pos 0) state)
      (lookup_or "lampRingGoOutTime" (pos 0) state) (lookup_or "noDisturbingSwitch" (pos 0) state)
      (lookup_or "noDisturbingStartTime" (pos 0) state)
      (lookup_or "noDisturbingEndTime" (pos 0) state) (lookup_or "isLock" (pos 0) state)

-- w5_config_payload: `none` when no settings block was ever decoded.
unfoldable pub w5_config_payload : Dict ℤ → Result (Option Bytes)
unfolding settings_block config_block
w5_config_payload state =
    if has_keys needed_fields state
    then (do block ← settings_block state; ok (some block))
    else ok none

-- states.get("mode") or 1
latched_mode : Option ℤ → ℤ
latched_mode none = pos 1
latched_mode (some (pos zero)) = pos 1
latched_mode (some v) = v

-- The mode of a power or mode write: off is 0, on is the latched mode.
mode_for : Dict ℤ → String → ℤ → ℤ
unfolding latched_mode
mode_for states key value = if str_eq key "w5_mode" then value else elim value [
  | pos n ↦ elim n [ zero ↦ pos 0 | suc m ↦ latched_mode (lookup "mode" states) ]
  | negsuc n ↦ latched_mode (lookup "mode" states)
]

config_command : Option Bytes → Result (ℕ × Bytes)
config_command none = err refused
config_command (some payload) = ok (cmd_set_config, payload)

setting_command : Option String → ℤ → Dict ℤ → Result (ℕ × Bytes)
unfolding w5_config_payload config_command
setting_command none value states = err key_error
setting_command (some name) value states = do
  payload ← w5_config_payload (insert name value states)
  config_command payload

-- _w5_command_for, over the states that the accessory last reported.
unfoldable pub w5_command_for : Dict ℤ → String → ℤ → Result (ℕ × Bytes)
unfolding mode_for w5_mode_payload setting_command
w5_command_for states key value =
    if str_eq key "w5_power" || str_eq key "w5_mode"
    then ok (cmd_set_mode, w5_mode_payload (mode_for states key value))
    else setting_command (lookup key config_entity_fields) value states
