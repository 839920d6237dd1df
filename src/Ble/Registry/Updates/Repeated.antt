-- ===== src/Ble/Registry/Updates/Repeated.antt =====
-- A report of `register` of addon/petkit_local/devices/ble/registry.py that is repeated.
use petkit_local.Prelude.{
  ◌≡◌, refl, ◌∙◌, Bool, true, false, not, ◌&&◌, Option, none, some, [], ◌∷◌, Text, if◌then◌else◌,
}
use petkit_local.Prelude.Int.{ℤ}
use petkit_local.Prelude.Json.{Fields, end, field}
use petkit_local.Devices.Ids.{at_id, int_eq_refl, at_id-put_id, put_id-at_id}
use petkit_local.Devices.Registry.{unwritten, or_text}
use petkit_local.Ble.Mac.{Letters, normalize_mac}
use petkit_local.Ble.Registry.{
  Accessory, Binding, Accessories, Registered, is_filled, is_k3, or_interval, k3_default_config,
  keep_interval, overwrite, canonical_mac, new_accessory, upsert, write_of, register,
}
use petkit_local.Ble.Registry.Updates.{
  HoldsInterval, HoldsFields, HoldsReport, IsEqualToSelf, keep_text_holds, keep_int_holds,
  keep_fields_holds, settled_report,
}

interval_holds : (old : ℤ) (new : Option ℤ) → HoldsInterval new (keep_interval old new)
unfolding keep_interval
interval_holds old none = tt
interval_holds old (some new) = keep_int_holds old new

first_interval : (new : Option ℤ) → HoldsInterval new (or_interval new)
unfolding or_interval
first_interval none = tt
first_interval (some new) = λ _. refl

module _ (l : Letters) where
  or_text_self : (m : Text) → or_text m m ≡ m
  unfolding or_text
  or_text_self [] = refl
  or_text_self (c ∷ t) = refl

  canonical_mac_self : (m : Text) → normalize_mac l m ≡ m → canonical_mac l m ≡ m
  unfolding canonical_mac
  canonical_mac_self m h = rw h (or_text_self m)

  -- The config of a new accessory, which a report that has none leaves to the default.
  first_config :
      (k3 : Bool) (config : Fields)
      → IsEqualToSelf config
      → HoldsFields config (if k3 && not (is_filled config) then k3_default_config else config)
  unfolding is_filled
  first_config true end self h = absurd (cc)
  first_config true (field k v fs) self h = self
  first_config false config self h = self

  upsert-HoldsReport :
      (b : Binding) (known : Option Accessory)
      → normalize_mac l b.mac ≡ b.mac
      → IsEqualToSelf b.config
      → IsEqualToSelf b.settings
      → HoldsReport b (upsert l b known)
  unfolding upsert new_accessory overwrite
  upsert-HoldsReport b none m c s = record {
    has_type = λ _. refl;
    has_id = λ _. refl;
    has_serial = λ _. refl;
    has_mac = λ _. canonical_mac_self b.mac m;
    has_secret = λ _. refl;
    has_link = λ _. refl;
    has_interval = first_interval b.interval;
    has_scan_type = λ _. refl;
    has_config = first_config (is_k3 b.ble_type) b.config c;
    has_settings = λ _. s;
  }
  upsert-HoldsReport b (some d) m c s = record {
    has_type = keep_text_holds d.ble_type b.ble_type;
    has_id = keep_int_holds d.petkit_id b.petkit_id;
    has_serial = keep_text_holds d.serial_number b.serial_number;
    has_mac = keep_text_holds d.mac b.mac;
    has_secret = keep_text_holds d.secret b.secret;
    has_link = keep_int_holds d.link_with b.link_with;
    has_interval = interval_holds d.interval b.interval;
    has_scan_type = keep_int_holds d.scan_type b.scan_type;
    has_config = keep_fields_holds d.config b.config c;
    has_settings = keep_fields_holds d.settings b.settings s;
  }

  registered_at :
      (b : Binding) (t : Accessories)
      → at_id b.petkit_id (Registered.accessories (register l b t))
        ≡ some (upsert l b (at_id b.petkit_id t))
  unfolding register
  registered_at b t =
      at_id-put_id b.petkit_id b.petkit_id (upsert l b (at_id b.petkit_id t)) t
      ∙ rw (int_eq_refl b.petkit_id) refl

  -- A report that holds of the accessory under its id changes and writes nothing.
  register-held :
      (b : Binding) (t : Accessories) (d : Accessory)
      → at_id b.petkit_id t ≡ some d
      → HoldsReport b d
      → (Registered.accessories (register l b t) ≡ t)
        × (Registered.write (register l b t) ≡ unwritten)
  unfolding register upsert write_of
  register-held b t d e h =
      let (same, quiet) = settled_report b d h in
      (rw (e, same) (put_id-at_id b.petkit_id d t e), rw (e, quiet) refl)

  -- A report with a MAC in its normal form, or none, whose dictionaries equal themselves, changes nothing
  -- and asks for no write when it is repeated.
  pub register-register :
      (b : Binding) (t : Accessories)
      → normalize_mac l b.mac ≡ b.mac
      → IsEqualToSelf b.config
      → IsEqualToSelf b.settings
      → (Registered.accessories (register l b (Registered.accessories (register l b t)))
          ≡ Registered.accessories (register l b t))
        × (Registered.write (register l b (Registered.accessories (register l b t))) ≡ unwritten)
  register-register b t m c s =
      register-held b (Registered.accessories (register l b t)) (upsert l b (at_id b.petkit_id t))
        (registered_at b t) (upsert-HoldsReport b (at_id b.petkit_id t) m c s)
