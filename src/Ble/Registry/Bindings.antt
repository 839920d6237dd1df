-- ===== src/Ble/Registry/Bindings.antt =====
-- `cloud_bindings` of addon/petkit_local/devices/ble/registry.py: the accessories that a reply of
-- PetKit's cloud names. `str` on JSON that is no text is Python's, as is what `to_int` stands on.
pub mod Usable
use petkit_local.Prelude.{
  String, ℕ, Bool, true, false, not, ◌&&◌, ◌||◌, Option, none, some, List, [], ◌∷◌, Text, codes,
  if◌then◌else◌,
}
use petkit_local.Prelude.Int.{ℤ, pos, positive}
use petkit_local.Prelude.Json.{
  Json, null, flag, num, str, raw, arr, obj, Items, nil, cons, Fields, end, field, lookup_field,
}
use petkit_local.Mqtt.Topics.Segments.{text_eq, is_nonempty}
use petkit_local.Http.Redact.Objects.{int_eq, pick}
use petkit_local.Utils.Coerce.{Texts, to_int}
use petkit_local.Utils.Dicts.{dig}
use petkit_local.Devices.Registry.{or_text}
use petkit_local.Ble.Mac.{Letters, normalize_mac}
use petkit_local.Ble.Registry.{Binding, is_filled}

-- What Python makes of characters, numbers and other values.
pub record Readers : Type 0 where
  pub letters : Letters
  pub texts : Texts
  -- str(value)
  pub shown : Json → Text

unfoldable pub or_int : Option ℤ → ℤ → ℤ
or_int none default = default
or_int (some n) default = n

-- to_int(value, default) or default
unfoldable pub nonzero_or : ℤ → ℤ → ℤ
nonzero_or n default = if int_eq n (pos 0) then default else n

-- value.get(key), or None
unfoldable pub or_null : Option Json → Json
or_null none = null
or_null (some v) = v

-- CLOUD_BLE_TYPES.get(n, "")
unfoldable pub cloud_ble_type : ℤ → Text
cloud_ble_type n =
    if int_eq n (pos 14) then codes "w5" else (if int_eq n (pos 24) then codes "ctw3" else [])

-- The serial number, if it is a text.
unfoldable pub serial_of : Option Json → Text
serial_of (some (str t)) = t
serial_of other = []

module _ (x : Readers) where
  -- str(entry.get(key, ""))
  unfoldable pub text_at : String → Fields → Text
  text_at key entry = elim (lookup_field key entry) [ none ↦ [] | some v ↦ x.shown v ]

  -- to_int(entry.get(key), default)
  unfoldable pub int_at : String → ℤ → Fields → ℤ
  unfolding or_int or_null
  int_at key default entry = or_int (to_int x.texts (or_null (lookup_field key entry))) default

  unfoldable pub binding_of : Text → ℤ → Text → Fields → Binding
  unfolding text_at int_at nonzero_or cloud_ble_type serial_of or_text
  binding_of mac parent ble_type entry = record {
    ble_type = or_text ble_type (cloud_ble_type (int_at "type" (pos 0) entry));
    petkit_id = int_at "id" (pos 0) entry;
    serial_number = serial_of (lookup_field "sn" entry);
    mac = mac;
    secret = text_at "secret" entry;
    link_with = parent;
    interval = some (nonzero_or (int_at "interval" (pos 240) entry) (pos 240));
    scan_type = int_at "type" (pos 0) entry;
    config = end;
    settings = end;
  }

  unfoldable unless_unusable : Text → ℤ → Text → Fields → Option Binding
  unfolding binding_of
  unless_unusable mac parent ble_type entry =
      if is_nonempty mac && positive (int_at "id" (pos 0) entry)
      then some (binding_of mac parent ble_type entry)
      else none

  -- _cloud_binding
  unfoldable pub cloud_binding : Json → ℤ → Text → Option Binding
  unfolding unless_unusable text_at
  cloud_binding (obj entry) parent ble_type =
      unless_unusable (normalize_mac x.letters (text_at "mac" entry)) parent ble_type entry
  cloud_binding other parent ble_type = none

  unfoldable add_found : Option Binding → List Binding → List Binding
  add_found none found = found
  add_found (some b) found = b ∷ found

  -- The entries of a list that are usable.
  unfoldable pub listed : Items → ℤ → List Binding
  unfolding cloud_binding add_found
  listed nil parent = []
  listed (cons e entries) parent = add_found (cloud_binding e parent []) (listed entries parent)

  unfoldable relayed : Option Json → ℤ → List Binding
  unfolding listed
  relayed (some (arr entries)) parent = listed entries parent
  relayed other parent = []

  -- dict(config), if it is a dictionary with something in it
  unfoldable pub fields_of : Json → Fields
  fields_of (obj fs) = fs
  fields_of other = end

  -- {k: settings[k] for k in K3_SETTING_KEYS if k in settings}
  unfoldable pub held_settings : Option Json → Fields
  held_settings (some (obj settings)) = pick ("liquidLackSwitch" ∷ "fixedTimeRefresh" ∷ []) settings
  held_settings other = end

  unfoldable k3_binding : Bool → Fields → Option Binding → List Binding
  unfolding fields_of held_settings
  k3_binding own result none = []
  k3_binding own result (some b) =
      (record b {
        scan_type = pos 0;
        config = fields_of (dig (obj result) ("settings" ∷ "k3Config" ∷ "config" ∷ []) null);
        settings = if own then held_settings (lookup_field "settings" result) else end;
      })
      ∷ []

  unfoldable k3_node : Bool → Fields → Json
  unfolding or_null
  k3_node nested result = if nested then or_null (lookup_field "k3Device" result) else obj result

  unfoldable in_result : Text → Option Json → ℤ → List Binding
  unfolding relayed k3_binding k3_node cloud_binding
  in_result endpoint (some (obj result)) parent =
      let nested = text_eq endpoint (codes "dev_device_info") in
      let own = text_eq endpoint (codes "dev_k3_device_info") in
      if text_eq endpoint (codes "dev_ble_device")
      then relayed (lookup_field "list" result) parent
      else k3_binding own result (cloud_binding (k3_node nested result) parent (codes "k3"))
  in_result endpoint other parent = []

  -- cloud_bindings
  unfoldable pub cloud_bindings : Text → Json → ℤ → List Binding
  unfolding in_result
  cloud_bindings endpoint (obj payload) parent =
      in_result endpoint (lookup_field "result" payload) parent
  cloud_bindings endpoint other parent = []
