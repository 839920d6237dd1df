-- ===== src/Devices/Registry.antt =====
-- `DeviceRegistry` of addon/petkit_local/devices/registry.py, and what of `Device`
-- (addon/petkit_local/devices/base.py) a restart keeps, less the time of creation. The settings that a
-- device type starts with, and the key and secret that a new device is given, are arguments. A keyword
-- argument that is missing is an empty text: both count as false.
pub mod Saved
pub mod Blanks
pub mod Fleet
pub mod Identity
pub mod Persistence
use petkit_local.Prelude.{
  ℕ, zero, suc, ◌+◌, ◌/◌, ◌%◌, String, Bool, true, false, not, ◌&&◌, Option, none, some, List, [],
  ◌∷◌, ◌++◌, Text, codes, ltb, find, if◌then◌else◌, str_eq,
}
use petkit_local.Prelude.Int.{ℤ, pos, negsuc, positive}
use petkit_local.Prelude.Digits.{str_int}
use petkit_local.Prelude.Json.{Json, obj, Fields, end, field}
use petkit_local.Mqtt.Topics.Segments.{text_eq, is_nonempty}
use petkit_local.Devices.Ids.{Ids, at_id, put_id, drop_id, id_values}

pub record Device : Type 0 where
  pub device_type : Text
  pub petkit_id : ℤ
  pub serial_number : Text
  pub mac : Text
  pub firmware : Text
  pub wire_type : Text
  pub mqtt_product_key : Text
  pub mqtt_device_name : Text
  pub mqtt_device_secret : Text
  pub api_secret : Text
  pub config : Fields

-- The keyword arguments of a signup.
pub record Contact : Type 0 where
  pub serial_number : Text
  pub mac : Text
  pub firmware : Text

-- generate_product_key() and generate_device_secret()
pub record Minted : Type 0 where
  pub product_key : Text
  pub secret : Text

-- Which write the call leaves to PersistedRegistry.
pub data Write : Type 0 where
  unwritten : Write
  marked : Write
  saved : Write

-- f"d_{device_type}_{sn}"
unfoldable pub mqtt_name : Text → Text → Text
mqtt_name device_type sn = codes "d_" ++ device_type ++ b'_' ∷ sn

-- a or b
unfoldable pub or_text : Text → Text → Text
or_text [] b = b
or_text (c ∷ t) b = c ∷ t

-- Device(...), with __post_init__
unfoldable pub new_device : ℤ → Text → Contact → Minted → Device
unfolding mqtt_name or_text
new_device pid device_type c minted = record {
  device_type = device_type;
  petkit_id = pid;
  serial_number = c.serial_number;
  mac = c.mac;
  firmware = c.firmware;
  wire_type = [];
  mqtt_product_key = minted.product_key;
  mqtt_device_name = mqtt_name device_type (or_text c.serial_number (str_int pid));
  mqtt_device_secret = minted.secret;
  api_secret = [];
  config = end;
}

-- node.setdefault(k, v)
unfoldable pub set_default : String → Json → Fields → Fields
set_default k v end = field k v end
set_default k v (field j w fs) =
    let rest = set_default k v fs in if str_eq j k then field j w fs else field j w rest

unfoldable pub set_defaults : Fields → Fields → Fields
unfolding set_default
set_defaults end fs = fs
set_defaults (field k v defaults) fs = set_defaults defaults (set_default k v fs)

-- The defaults under "settings", if that is an object.
fill_settings : Fields → Json → Json
unfolding set_defaults
fill_settings defaults (obj settings) = obj (set_defaults defaults settings)
fill_settings defaults other = other

unfoldable pub in_settings : Fields → Fields → Fields
unfolding fill_settings
in_settings defaults end = end
in_settings defaults (field k v config) =
    let rest = in_settings defaults config in
    if str_eq k "settings" then field k (fill_settings defaults v) config else field k v rest

module _ (default_settings : Text → Fields) where
  -- _merge_default_settings
  unfoldable pub merge_default_settings : Device → Device
  unfolding set_default in_settings
  merge_default_settings d = record d {
    config =
        in_settings (default_settings d.device_type) (set_default "settings" (obj end) d.config);
  }

  unfoldable pub registered : ℤ → Text → Contact → Minted → Device
  unfolding new_device merge_default_settings
  registered pid device_type c minted = merge_default_settings (new_device pid device_type c minted)

-- The three blanks that a signup fills in, each with whether it changed something.
unfoldable pub fill_serial : Text → Device → Device × Bool
unfolding mqtt_name
fill_serial sn d =
    if is_nonempty sn && not (is_nonempty d.serial_number)
    then (record d { serial_number = sn; mqtt_device_name = mqtt_name d.device_type sn }, true)
    else (d, false)

unfoldable pub fill_mac : Text → Device × Bool → Device × Bool
fill_mac mac (d, changed) =
    if is_nonempty mac && not (is_nonempty d.mac)
    then (record d { mac = mac }, true)
    else (d, changed)

unfoldable pub set_firmware : Text → Device × Bool → Device × Bool
set_firmware firmware (d, changed) =
    if is_nonempty firmware && not (text_eq firmware d.firmware)
    then (record d { firmware = firmware }, true)
    else (d, changed)

unfoldable pub fill_blanks : Contact → Device → Device × Bool
unfolding fill_serial fill_mac set_firmware
fill_blanks c d = set_firmware c.firmware (fill_mac c.mac (fill_serial c.serial_number d))

abbrev pub Table : Type 0
Table = Ids Device

pub record Outcome : Type 0 where
  pub device : Device
  pub devices : Table
  pub write : Write

module _ (default_settings : Text → Fields) where
  unfoldable contacted : ℤ → Table → Device × Bool → Outcome
  contacted pid t (d, changed) = record {
    device = d;
    devices = put_id pid d t;
    write = if changed then marked else unwritten;
  }

  unfoldable first_or_known : ℤ → Text → Contact → Minted → Table → Option Device → Outcome
  unfolding contacted fill_blanks registered
  first_or_known pid device_type c minted t (some d) = contacted pid t (fill_blanks c d)
  first_or_known pid device_type c minted t none =
      let d = registered default_settings pid device_type c minted in
      record { device = d; devices = put_id pid d t; write = saved }

  -- get_or_create
  unfoldable pub get_or_create : ℤ → Text → Contact → Minted → Table → Outcome
  unfolding first_or_known
  get_or_create pid device_type c minted t = first_or_known pid device_type c minted t (at_id pid t)

pub record Removal : Type 0 where
  pub device : Option Device
  pub devices : Table
  pub write : Write

-- remove
unfoldable pub remove : ℤ → Table → Removal
remove pid t = record {
  device = at_id pid t;
  devices = drop_id pid t;
  write = elim (at_id pid t) [ none ↦ unwritten | some d ↦ saved ];
}

-- by_mqtt_name
unfoldable pub by_mqtt_name : Text → Text → Table → Option Device
by_mqtt_name product_key name t =
    find (λ (d : Device). text_eq d.mqtt_product_key product_key && text_eq d.mqtt_device_name name)
      (id_values t)

-- by_serial
unfoldable pub by_serial : Text → Table → Option Device
by_serial sn t =
    if is_nonempty sn then find (λ (d : Device). text_eq d.serial_number sn) (id_values t) else none
