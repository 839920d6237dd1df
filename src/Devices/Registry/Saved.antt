-- ===== src/Devices/Registry/Saved.antt =====
-- The file devices.json, written and read by `DeviceRegistry` of addon/petkit_local/devices/registry.py
-- through `to_dict` and `from_dict` of addon/petkit_local/devices/base.py. An entry is given by the
-- keys that from_dict reads, each with its value if it is there, and a text where the program writes a
-- text. A loaded device without MQTT credentials is given new ones: `mint` gives those of each entry.
pub mod Settings
pub mod RoundTrip
use petkit_local.Prelude.{ℕ, suc, Bool, Option, none, some, List, [], ◌∷◌, Text, if◌then◌else◌}
use petkit_local.Prelude.Int.{ℤ, positive}
use petkit_local.Prelude.Digits.{str_int}
use petkit_local.Prelude.Json.{Json, null, flag, num, str, raw, arr, obj, Fields, end}
use petkit_local.Devices.Ids.{Ids, put_id}
use petkit_local.Devices.Registry.{
  Device, Minted, Table, mqtt_name, or_text, merge_default_settings,
}

-- An id as it is stored; one that is no number cannot be compared with 0.
pub data SavedId : Type 0 where
  whole : ℤ → SavedId
  not_number : SavedId

pub record Saved : Type 0 where
  pub device_type : Option Text
  pub petkit_id : Option SavedId
  pub serial_number : Option Text
  pub mac : Option Text
  pub firmware : Option Text
  pub wire_type : Option Text
  pub mqtt_product_key : Option Text
  pub mqtt_device_name : Option Text
  pub mqtt_device_secret : Option Text
  pub api_secret : Option Text
  pub config : Option Json

pub data Entry : Type 0 where
  not_object : Entry
  entry : Saved → Entry

-- Device.to_dict
unfoldable pub to_dict : Device → Saved
to_dict d = record {
  device_type = some d.device_type;
  petkit_id = some (whole d.petkit_id);
  serial_number = some d.serial_number;
  mac = some d.mac;
  firmware = some d.firmware;
  wire_type = some d.wire_type;
  mqtt_product_key = some d.mqtt_product_key;
  mqtt_device_name = some d.mqtt_device_name;
  mqtt_device_secret = some d.mqtt_device_secret;
  api_secret = some d.api_secret;
  config = some (obj d.config);
}

-- _serialize
unfoldable pub serialize : Table → List (Text × Entry)
unfolding str_int
serialize [] = []
serialize ((pid, d) ∷ t) = (str_int pid, entry (to_dict d)) ∷ serialize t

-- data.get(key, default)
unfoldable pub or_else : Option Text → Text → Text
or_else none default = default
or_else (some t) default = t

-- What becomes of an entry: skipped, an exception that ends the load, dropped, or a device.
pub data Loaded : Type 0 where
  unreadable : Loaded
  raises : Loaded
  phantom : Loaded
  loaded : Device → Loaded

-- The rest of from_dict, from the two keys that it needs.
unfoldable rebuilt : Minted → Text → ℤ → Fields → Saved → Device
unfolding or_else or_text mqtt_name str_int
rebuilt minted device_type pid config s =
    let sn = or_else s.serial_number [] in
    record {
      device_type = device_type;
      petkit_id = pid;
      serial_number = sn;
      mac = or_else s.mac [];
      firmware = or_else s.firmware [];
      wire_type = or_else s.wire_type [];
      mqtt_product_key = or_else s.mqtt_product_key minted.product_key;
      mqtt_device_name =
          or_else s.mqtt_device_name (mqtt_name device_type (or_text sn (str_int pid)));
      mqtt_device_secret = or_else s.mqtt_device_secret minted.secret;
      api_secret = or_else s.api_secret [];
      config = config;
    }

module _ (default_settings : Text → Fields) where
  -- The device with its settings, if its config is an object; no other value has `setdefault`.
  unfoldable configured : Minted → Text → ℤ → Option Json → Saved → Loaded
  unfolding rebuilt merge_default_settings
  configured minted device_type pid none s =
      loaded (merge_default_settings default_settings (rebuilt minted device_type pid end s))
  configured minted device_type pid (some (obj config)) s =
      loaded (merge_default_settings default_settings (rebuilt minted device_type pid config s))
  configured minted device_type pid (some other) s = raises

  -- from_dict, the check of the id, and _merge_default_settings
  unfoldable load_saved : Minted → Option Text → Option SavedId → Saved → Loaded
  unfolding configured
  load_saved minted (some device_type) (some (whole pid)) s =
      if positive pid then configured minted device_type pid s.config s else phantom
  load_saved minted (some device_type) (some not_number) s = raises
  load_saved minted device_type pid s = unreadable

  unfoldable pub load_entry : Minted → Entry → Loaded
  unfolding load_saved
  load_entry minted not_object = unreadable
  load_entry minted (entry s) = load_saved minted s.device_type s.petkit_id s

  unfoldable add_loaded : Loaded → Table → Option Table
  add_loaded unreadable t = some t
  add_loaded raises t = none
  add_loaded phantom t = some t
  add_loaded (loaded d) t = some (put_id d.petkit_id d t)

  unfoldable go_on : Option Table → (Table → Option Table) → Option Table
  go_on none next = none
  go_on (some t) next = next t

  -- The loop of _restore, from the n-th entry on; none where an exception leaves it.
  unfoldable pub restore_from : (ℕ → Minted) → ℕ → List (Text × Entry) → Table → Option Table
  unfolding go_on add_loaded
  restore_from mint n [] t = some t
  restore_from mint n ((key, e) ∷ entries) t =
      go_on (add_loaded (load_entry (mint n) e) t)
        (λ added. restore_from mint (suc n) entries added)

  -- _restore, of a document that may be no object
  unfoldable pub restore : (ℕ → Minted) → Option (List (Text × Entry)) → Option Table
  unfolding restore_from
  restore mint none = some []
  restore mint (some entries) = restore_from mint 0 entries []
