-- ===== src/Ble/Registry.antt =====
-- `BLEDevice` and `BLERegistry` of addon/petkit_local/devices/ble/registry.py. The last reading of an
-- accessory and its time are left out: no operation here reads or writes them. A keyword argument of
-- register that is missing is empty or 0, both of which count as false; only a missing interval differs
-- from one that is 0.
mod Reports
pub mod Bindings
pub mod Macs
pub mod Updates
use petkit_local.Prelude.{
  ℕ, String, Bool, true, false, not, ◌&&◌, ◌||◌, Option, none, some, List, [], ◌∷◌, Text, codes,
  find, filter, if◌then◌else◌,
}
use petkit_local.Prelude.Int.{ℤ, pos, positive}
use petkit_local.Prelude.Json.{Json, num, arr, obj, Fields, end, field, cons, nil}
use petkit_local.Mqtt.Topics.Segments.{text_eq, is_nonempty}
use petkit_local.Http.Redact.Objects.{int_eq, py_eq}
use petkit_local.Devices.Ids.{Ids, at_id, put_id, drop_id, id_values, has_id}
use petkit_local.Devices.Registry.{Write, unwritten, marked, saved, or_text}
use petkit_local.Ble.Mac.{Letters, normalize_mac}
unfoldable pub use Reports.{
  is_filled, is_k3, or_interval, keep_text, keep_int, keep_interval, keep_fields, changes_text,
  changes_int, changes_interval, changes_fields, changes, same_dict, overwrite,
}
pub use Reports.{Accessory, Binding, k3_default_config}

module _ (l : Letters) where
  -- __post_init__: a MAC that does not parse is left alone.
  unfoldable pub canonical_mac : Text → Text
  unfolding or_text
  canonical_mac mac = or_text (normalize_mac l mac) mac

  -- BLEDevice(**kwargs), and the default config of a K3
  unfoldable pub new_accessory : Binding → Accessory
  unfolding canonical_mac or_interval is_k3 is_filled
  new_accessory b = record {
    ble_type = b.ble_type;
    petkit_id = b.petkit_id;
    serial_number = b.serial_number;
    mac = canonical_mac b.mac;
    secret = b.secret;
    link_with = b.link_with;
    interval = or_interval b.interval;
    scan_type = b.scan_type;
    config = if is_k3 b.ble_type && not (is_filled b.config) then k3_default_config else b.config;
    settings = b.settings;
  }

abbrev pub Accessories : Type 0
Accessories = Ids Accessory

pub record Registered : Type 0 where
  pub accessory : Accessory
  pub accessories : Accessories
  pub write : Write

module _ (l : Letters) where
  -- The accessory that register leaves under the id.
  unfoldable pub upsert : Binding → Option Accessory → Accessory
  unfolding overwrite new_accessory
  upsert b (some d) = overwrite b d
  upsert b none = new_accessory l b

  unfoldable write_of : Binding → Option Accessory → Write
  unfolding changes
  write_of b (some d) = if changes b d then marked else unwritten
  write_of b none = saved

  -- register
  unfoldable pub register : Binding → Accessories → Registered
  unfolding upsert write_of
  register b t =
      let known = at_id b.petkit_id t in
      record {
        accessory = upsert b known;
        accessories = put_id b.petkit_id (upsert b known) t;
        write = write_of b known;
      }

  unfoldable first_with : Text → List Accessory → Option Accessory
  first_with wanted devices =
      find (λ (d : Accessory). text_eq (normalize_mac l d.mac) wanted) devices

  -- get_by_mac
  unfoldable pub get_by_mac : Text → Accessories → Option Accessory
  unfolding first_with
  get_by_mac mac t =
      let wanted = normalize_mac l mac in
      if is_nonempty wanted then first_with wanted (id_values t) else none

-- What apply_cloud_binding says of an entry: why it was refused, or what became of it.
pub data Verdict : Type 0 where
  no_usable_id : Verdict
  no_parser : Verdict
  mac_taken : ℤ → Verdict
  imported : Verdict
  updated : Verdict
  unchanged : Verdict

pub record Applied : Type 0 where
  pub accessory : Option Accessory
  pub accessories : Accessories
  pub verdict : Verdict

-- The config and settings of an entry, replaced where the accessory's still differ.
unfoldable pub replace_blocks : Binding → Accessory → Accessory
unfolding keep_fields
replace_blocks b d = record d {
  config = keep_fields d.config b.config;
  settings = keep_fields d.settings b.settings;
}

unfoldable pub verdict_of : Option Accessory → Accessory → Verdict
unfolding same_dict
verdict_of none d = imported
verdict_of (some before) d = if same_dict before d then unchanged else updated

-- clash is not None and clash.petkit_id != pid
unfoldable pub clashing : ℤ → Option Accessory → Option ℤ
clashing pid none = none
clashing pid (some d) = if int_eq d.petkit_id pid then none else some d.petkit_id

unfoldable pub refuse : Verdict → Accessories → Applied
refuse v t = record { accessory = none; accessories = t; verdict = v }

module _ (l : Letters) where
  unfoldable pub accept : Binding → Accessories → Applied
  unfolding register replace_blocks verdict_of
  accept b t =
      let d = replace_blocks b (Registered.accessory (register l b t)) in
      record {
        accessory = some d;
        accessories = put_id b.petkit_id d (Registered.accessories (register l b t));
        verdict = verdict_of (at_id b.petkit_id t) d;
      }

  unfoldable unless_taken : Option ℤ → Binding → Accessories → Applied
  unfolding refuse accept
  unless_taken (some pid) b t = refuse (mac_taken pid) t
  unless_taken none b t = accept b t

  -- apply_cloud_binding
  unfoldable pub apply_cloud_binding : Binding → Accessories → Applied
  unfolding refuse clashing get_by_mac unless_taken
  apply_cloud_binding b t =
      let taken = unless_taken (clashing b.petkit_id (get_by_mac l b.mac t)) b t in
      if not (positive b.petkit_id)
      then refuse no_usable_id t
      else (if is_nonempty b.ble_type then taken else refuse no_parser t)

-- remove
unfoldable pub unpair : ℤ → Accessories → Accessories × Bool
unpair pid t = (drop_id pid t, has_id pid t)

-- get_linked
unfoldable pub get_linked : ℤ → Accessories → List Accessory
get_linked parent t = filter (λ (d : Accessory). int_eq d.link_with parent) (id_values t)

-- get_linked_k3
unfoldable pub get_linked_k3 : ℤ → Accessories → Option Accessory
unfolding is_k3
get_linked_k3 parent t =
    find (λ (d : Accessory). int_eq d.link_with parent && is_k3 d.ble_type) (id_values t)
