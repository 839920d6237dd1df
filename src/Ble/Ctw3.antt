-- ===== src/Ble/Ctw3.antt =====
-- The EverSweet Max Cordless, addon/petkit_local/devices/ble/ctw3.py: its status and settings
-- blocks, in both directions. A state section is a dictionary of integers.
pub mod Fields
pub mod Sendable
pub mod Settings
pub mod Status
use petkit_local.Prelude.{
  ℕ, zero, ◌+◌, String, ◌||◌, Option, none, some, List, [], ◌∷◌, ◌++◌, Bytes, length, get_or, ltb,
  leb, str_eq, if◌then◌else◌, Result, ok, err, refused, key_error, ◌>>=◌,
}
use petkit_local.Prelude.Dict.{Dict, lookup, insert, erase, update, has_key, has_keys, lookup_or}
use petkit_local.Prelude.Int.{ℤ, pos, negsuc}
use petkit_local.Prelude.Json.{Json}
use petkit_local.Ble.Framing.{Codec, iter_ble_frames}
use petkit_local.Ble.Framing.Commands.{
  cmd_get_state, cmd_get_config, cmd_set_mode, cmd_set_config, cmd_device_status, is_fountain_mode,
}
use petkit_local.Ble.Framing.Words.{low_byte, from_bytes, to_bytes_2, slice}
use Fields.{
  min_status_len, byte_fields, int_fields, config_offset, config_len, needed_fields, mode_fields,
  config_fields,
}
use petkit_local.Ble.Reading.{
  Sections, empty, read_bytes, read_ints, drop_unreal_mode, merge, is_cmd,
}

-- decode_ctw3_config
unfoldable pub decode_ctw3_config : Bytes → Dict ℤ
unfolding from_bytes
decode_ctw3_config tail =
    if ltb (length tail) config_len
    then []
    else ("smartWorkingTime", pos (get_or tail 0 0))
      ∷ ("smartSleepTime", pos (get_or tail 1 0))
      ∷ ("energyInterval", pos (from_bytes 0 (slice 2 2 tail)))
      ∷ ("sleepTime", pos (from_bytes 0 (slice 4 2 tail)))
      ∷ ("lightSwitch", pos (get_or tail 6 0))
      ∷ ("brightness", pos (get_or tail 7 0))
      ∷ ("noDisturbingSwitch", pos (get_or tail 8 0))
      ∷ ("childLock", pos (get_or tail 9 0))
      ∷ ("smartInductiveSwitch", pos (get_or tail 10 0))
      ∷ ("batteryInductiveSwitch", pos (get_or tail 11 0))
      ∷ []

-- The fields of the short block, before the settings are merged in.
status_fields : Bytes → Dict ℤ
unfolding drop_unreal_mode from_bytes
status_fields bs = drop_unreal_mode (read_ints int_fields bs (read_bytes byte_fields bs))

with_config : Bytes → Dict ℤ → Dict ℤ
unfolding decode_ctw3_config
with_config bs states =
    if leb (config_offset + config_len) (length bs)
    then update states (decode_ctw3_config (slice config_offset config_len bs))
    else states

-- _decode_ctw3_status
unfoldable pub decode_ctw3_status : Bytes → Sections
unfolding status_fields with_config
decode_ctw3_status bs = if ltb (length bs) min_status_len then empty else record {
  states = with_config bs (erase "filterPercent" (status_fields bs));
  consumables = ("filterPercent", lookup_or "filterPercent" (pos 0) (status_fields bs)) ∷ [];
}

-- One frame of the loop of parse_ctw3_ble_response.
unfoldable pub apply_frame : Sections → Json × Bytes → Sections
unfolding decode_ctw3_status merge
apply_frame result (cmd, []) = result
apply_frame result (cmd, b ∷ bs) =
    if is_cmd cmd_device_status cmd || is_cmd cmd_get_state cmd
    then merge result (decode_ctw3_status (b ∷ bs))
    else if is_cmd cmd_get_config cmd
    then record result { states = update result.states (decode_ctw3_config (b ∷ bs)) }
    else result

unfoldable pub apply_frames : Sections → List (Json × Bytes) → Sections
unfolding apply_frame
apply_frames result [] = result
apply_frames result (frame ∷ frames) = apply_frames (apply_frame result frame) frames

-- parse_ctw3_ble_response. The source drops a section with nothing in it; here it is empty.
unfoldable pub parse_ctw3_ble_response : Codec → Json → Sections
unfolding apply_frames
parse_ctw3_ble_response k content = apply_frames empty (iter_ble_frames k content)

-- ctw3_mode_payload
unfoldable pub ctw3_mode_payload : ℤ → ℤ → ℤ → Bytes
unfolding low_byte
ctw3_mode_payload (pos zero) suspend mode = 0 ∷ 0 ∷ low_byte mode ∷ []
ctw3_mode_payload power suspend mode = low_byte power ∷ low_byte suspend ∷ low_byte mode ∷ []

-- The twelve bytes of ten values, in the order of the block.
config_block : (work sleep energy rest light bright dnd lock smart battery : ℤ) → Result Bytes
unfolding low_byte to_bytes_2
config_block work sleep energy rest light bright dnd lock smart battery = do
  energy_bytes ← to_bytes_2 energy
  rest_bytes ← to_bytes_2 rest
  ok (
      low_byte work
      ∷ low_byte sleep
      ∷ (energy_bytes
          ++ (rest_bytes
              ++ low_byte light
                ∷ low_byte bright
                ∷ low_byte dnd
                ∷ low_byte lock
                ∷ low_byte smart
                ∷ low_byte battery
                ∷ [])))

-- The block of a dictionary's settings; a missing setting counts as 0.
settings_block : Dict ℤ → Result Bytes
settings_block state =
    config_block (lookup_or "smartWorkingTime" (pos 0) state)
      (lookup_or "smartSleepTime" (pos 0) state) (lookup_or "energyInterval" (pos 0) state)
      (lookup_or "sleepTime" (pos 0) state) (lookup_or "lightSwitch" (pos 0) state)
      (lookup_or "brightness" (pos 0) state) (lookup_or "noDisturbingSwitch" (pos 0) state)
      (lookup_or "childLock" (pos 0) state) (lookup_or "smartInductiveSwitch" (pos 0) state)
      (lookup_or "batteryInductiveSwitch" (pos 0) state)

-- ctw3_config_payload: `none` when the settings were never reported.
unfoldable pub ctw3_config_payload : Dict ℤ → Result (Option Bytes)
unfolding settings_block config_block
ctw3_config_payload state =
    if has_keys needed_fields state
    then (do block ← settings_block state; ok (some block))
    else ok none

-- Picking a mode means to run in it.
mode_states : String → String → ℤ → Dict ℤ → Dict ℤ
mode_states key name value states =
    let set = insert name value states in
    if str_eq key "ctw3_mode"
    then insert "suspendStatus" (pos 1) (insert "powerStatus" (pos 1) set)
    else set

mode_command : Dict ℤ → Result (ℕ × Bytes)
unfolding ctw3_mode_payload
mode_command states =
    if has_keys ("powerStatus" ∷ "suspendStatus" ∷ "mode" ∷ []) states
    then ok (
      cmd_set_mode,
      ctw3_mode_payload (lookup_or "powerStatus" (pos 0) states)
          (lookup_or "suspendStatus" (pos 0) states) (lookup_or "mode" (pos 0) states),
    )
    else err refused

-- A block that was never reported is refused.
config_command : Option Bytes → Result (ℕ × Bytes)
config_command none = err refused
config_command (some payload) = ok (cmd_set_config, payload)

setting_command : Option String → ℤ → Dict ℤ → Result (ℕ × Bytes)
unfolding ctw3_config_payload config_command
setting_command none value states = err key_error
setting_command (some name) value states = do
  payload ← ctw3_config_payload (insert name value states)
  config_command payload

-- A key of the mode table goes into the mode frame, any other into the settings block.
frame_for : Option String → Dict ℤ → String → ℤ → Result (ℕ × Bytes)
unfolding mode_states mode_command setting_command
frame_for (some name) states key value = mode_command (mode_states key name value states)
frame_for none states key value = setting_command (lookup key config_fields) value states

-- _ctw3_command_for, over the states that the accessory last reported.
unfoldable pub ctw3_command_for : Dict ℤ → String → ℤ → Result (ℕ × Bytes)
unfolding frame_for
ctw3_command_for states key value = frame_for (lookup key mode_fields) states key value
