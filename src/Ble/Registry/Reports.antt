-- ===== src/Ble/Registry/Reports.antt =====
-- The fields of an accessory and of a report, and the loop of `register` that sets them, of
-- addon/petkit_local/devices/ble/registry.py.
use petkit_local.Prelude.{
  Bool, true, false, not, ◌&&◌, ◌||◌, Option, none, some, Text, codes, if◌then◌else◌,
}
use petkit_local.Prelude.Int.{ℤ, pos}
use petkit_local.Prelude.Json.{num, arr, obj, Fields, end, field, cons, nil}
use petkit_local.Mqtt.Topics.Segments.{text_eq, is_nonempty}
use petkit_local.Http.Redact.Objects.{int_eq, py_eq}

pub record Accessory : Type 0 where
  pub ble_type : Text
  pub petkit_id : ℤ
  pub serial_number : Text
  pub mac : Text
  pub secret : Text
  pub link_with : ℤ
  pub interval : ℤ
  pub scan_type : ℤ
  pub config : Fields
  pub settings : Fields

-- The keyword arguments of register.
pub record Binding : Type 0 where
  pub ble_type : Text
  pub petkit_id : ℤ
  pub serial_number : Text
  pub mac : Text
  pub secret : Text
  pub link_with : ℤ
  pub interval : Option ℤ
  pub scan_type : ℤ
  pub config : Fields
  pub settings : Fields

abbrev pub k3_default_config : Fields
k3_default_config = field "standard" (arr (cons (num (pos 5)) (cons (num (pos 30)) nil))) (
    field "lightness" (num (pos 100)) (
      field "lowVoltage" (num (pos 5)) (
        field "refreshTotalTime" (num (pos 11500)) (
          field "singleRefreshTime" (num (pos 25)) (field "singleLightTime" (num (pos 120)) end)))))

-- bool(d) of a dictionary
unfoldable pub is_filled : Fields → Bool
is_filled end = false
is_filled (field k v fs) = true

unfoldable pub is_k3 : Text → Bool
is_k3 ble_type = text_eq ble_type (codes "k3")

unfoldable pub or_interval : Option ℤ → ℤ
or_interval none = pos 240
or_interval (some n) = n

-- What setattr leaves of a field: a value that counts as false, or equals the old one, is not set.
unfoldable pub keep_text : Text → Text → Text
keep_text old new = if is_nonempty new then new else old

unfoldable pub keep_int : ℤ → ℤ → ℤ
keep_int old new = if int_eq new (pos 0) then old else new

unfoldable pub keep_interval : ℤ → Option ℤ → ℤ
unfolding keep_int
keep_interval old none = old
keep_interval old (some new) = keep_int old new

unfoldable pub keep_fields : Fields → Fields → Fields
unfolding is_filled
keep_fields old new = if is_filled new && not (py_eq (obj old) (obj new)) then new else old

-- v and getattr(dev, k) != v
unfoldable pub changes_text : Text → Text → Bool
changes_text old new = is_nonempty new && not (text_eq old new)

unfoldable pub changes_int : ℤ → ℤ → Bool
changes_int old new = not (int_eq new (pos 0)) && not (int_eq old new)

unfoldable pub changes_interval : ℤ → Option ℤ → Bool
unfolding changes_int
changes_interval old none = false
changes_interval old (some new) = changes_int old new

unfoldable pub changes_fields : Fields → Fields → Bool
unfolding is_filled
changes_fields old new = is_filled new && not (py_eq (obj old) (obj new))

-- Whether the loop of register sets a field.
unfoldable pub changes : Binding → Accessory → Bool
unfolding changes_text changes_int changes_interval changes_fields
changes b d =
    changes_text d.ble_type b.ble_type
    || (changes_int d.petkit_id b.petkit_id
        || (changes_text d.serial_number b.serial_number
            || (changes_text d.mac b.mac
                || (changes_text d.secret b.secret
                    || (changes_int d.link_with b.link_with
                        || (changes_interval d.interval b.interval
                            || (changes_int d.scan_type b.scan_type
                                || (changes_fields d.config b.config
                                    || changes_fields d.settings b.settings))))))))

-- d.to_dict() == e.to_dict(), less the last reading
unfoldable pub same_dict : Accessory → Accessory → Bool
same_dict d e =
    text_eq d.ble_type e.ble_type
    && (int_eq d.petkit_id e.petkit_id
        && (text_eq d.serial_number e.serial_number
            && (text_eq d.mac e.mac
                && (text_eq d.secret e.secret
                    && (int_eq d.link_with e.link_with
                        && (int_eq d.interval e.interval
                            && (int_eq d.scan_type e.scan_type
                                && (py_eq (obj d.config) (obj e.config)
                                    && py_eq (obj d.settings) (obj e.settings)))))))))

-- The loop of register over the keyword arguments, for a known accessory.
unfoldable pub overwrite : Binding → Accessory → Accessory
unfolding keep_text keep_int keep_interval keep_fields
overwrite b d = record {
  ble_type = keep_text d.ble_type b.ble_type;
  petkit_id = keep_int d.petkit_id b.petkit_id;
  serial_number = keep_text d.serial_number b.serial_number;
  mac = keep_text d.mac b.mac;
  secret = keep_text d.secret b.secret;
  link_with = keep_int d.link_with b.link_with;
  interval = keep_interval d.interval b.interval;
  scan_type = keep_int d.scan_type b.scan_type;
  config = keep_fields d.config b.config;
  settings = keep_fields d.settings b.settings;
}
