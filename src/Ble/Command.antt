-- ===== src/Ble/Command.antt =====
-- Which command sets which entity of which accessory, and which parser reads its frames:
-- addon/petkit_local/devices/ble/__init__.py.
pub mod Sendable
use petkit_local.Prelude.{
  ℕ, String, Bool, true, false, Option, none, some, List, [], ◌∷◌, Bytes, str_eq, ◌&&◌, ◌||◌,
  if◌then◌else◌, Result, ok, err, refused,
}
use petkit_local.Prelude.Dict.{Dict, lookup, has_key}
use petkit_local.Prelude.Int.{ℤ}
use petkit_local.Prelude.Json.{Json}
use petkit_local.Ble.Framing.{Codec, iter_ble_frames}
use petkit_local.Ble.Framing.Commands.{cmd_reset_filter}
use petkit_local.Ble.Reading.{Sections, empty}
use petkit_local.Ble.Ctw3
use petkit_local.Ble.Ctw3.Fields.{mode_fields, config_fields}
use petkit_local.Ble.W5
use petkit_local.Ble.W5.{config_entity_fields}

-- ble_type in W5_PROTOCOL
pub is_w5_protocol : String → Bool
is_w5_protocol ble_type = str_eq ble_type "w5" || (str_eq ble_type "w4" || str_eq ble_type "ctw2")

-- key in CTW3_WRITABLE
ctw3_writable : String → Bool
ctw3_writable key =
    has_key key mode_fields || (has_key key config_fields || str_eq key "ctw3_reset_filter")

-- key in W5_WRITABLE
w5_writable : String → Bool
w5_writable key =
    has_key key config_entity_fields
    || (str_eq key "w5_power" || (str_eq key "w5_mode" || str_eq key "w5_reset_filter"))

-- ble_command_for
unfoldable pub ble_command_for : String → Dict ℤ → String → ℤ → Result (ℕ × Bytes)
unfolding is_w5_protocol ctw3_writable w5_writable
ble_command_for ble_type states key value =
    if str_eq key "ctw3_reset_filter" || str_eq key "w5_reset_filter"
    then ok (cmd_reset_filter, [])
    else if str_eq ble_type "ctw3" && ctw3_writable key
    then Ctw3.ctw3_command_for states key value
    else if is_w5_protocol ble_type && w5_writable key
    then W5.w5_command_for states key value
    else err refused

-- Which decoder an accessory's frames go through.
pub data Parser : Type 0 where
  w5 ctw3 : Parser

-- parser_for
unfoldable pub parser_for : String → Option Parser
unfolding is_w5_protocol
parser_for ble_type =
    if is_w5_protocol ble_type then some w5 else if str_eq ble_type "ctw3" then some ctw3 else none
