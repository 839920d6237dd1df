-- ===== src/Ble/Registry/Updates.antt =====
-- A report of `register` of addon/petkit_local/devices/ble/registry.py that says of an accessory only what
-- it holds.
pub mod Repeated
use petkit_local.Prelude.{
  ◌≡◌, refl, sym, ap, ◌∙◌, ◌⊎◌, inl, inr, Bool, true, false, not, ◌&&◌, ◌||◌, Option, none, some,
  List, [], ◌∷◌, Text, arith, if◌then◌else◌, Bool-cases, or-false,
}
use petkit_local.Prelude.Int.{ℤ, pos, negsuc}
use petkit_local.Prelude.Json.{Json, obj, Fields, end, field}
use petkit_local.Mqtt.Topics.Segments.{is_nonempty, text_eq_self}
use petkit_local.Http.Redact.Objects.{int_eq, py_eq}
use petkit_local.Devices.Ids.{at_id, put_id, int_eq_iff, int_eq_refl, at_id-put_id, put_id-at_id}
use petkit_local.Devices.Registry.{Write, unwritten, or_text}
use petkit_local.Ble.Mac.{Letters, normalize_mac}
use petkit_local.Ble.Registry.{
  Accessory, Binding, Accessories, Registered, is_filled, is_k3, or_interval, k3_default_config,
  keep_text, keep_int, keep_interval, keep_fields, changes_text, changes_int, changes_interval,
  changes_fields, changes, overwrite, canonical_mac, new_accessory, upsert, write_of, register,
}

-- A field that holds what a report says of it, unless the report says nothing.
abbrev HoldsText : Text → Text → Type 0
HoldsText new held = is_nonempty new ≡ true → held ≡ new

abbrev HoldsInt : ℤ → ℤ → Type 0
HoldsInt new held = int_eq new (pos 0) ≡ false → held ≡ new

keep_text_holds : (old new : Text) → HoldsText new (keep_text old new)
unfolding keep_text
keep_text_holds old new n = rw n refl

keep_int_holds : (old new : ℤ) → HoldsInt new (keep_int old new)
unfolding keep_int
keep_int_holds old new n = rw n refl

settled_text : (held new : Text) → HoldsText new held → keep_text held new ≡ held
unfolding keep_text
settled_text held new h = elim (Bool-cases (is_nonempty new)) [
  | inl e ↦ rw e (sym (h e))
  | inr e ↦ rw e refl
]

settled_int : (held new : ℤ) → HoldsInt new held → keep_int held new ≡ held
unfolding keep_int
settled_int held new h = elim (Bool-cases (int_eq new (pos 0))) [
  | inl e ↦ rw e refl
  | inr e ↦ rw e (sym (h e))
]

same_text : (held new : Text) → HoldsText new held → changes_text held new ≡ false
unfolding changes_text
same_text held new h = elim (Bool-cases (is_nonempty new)) [
  | inl e ↦ rw (e, h e, text_eq_self new) refl
  | inr e ↦ rw e refl
]

same_int : (held new : ℤ) → HoldsInt new held → changes_int held new ≡ false
unfolding changes_int
same_int held new h = elim (Bool-cases (int_eq new (pos 0))) [
  | inl e ↦ rw e refl
  | inr e ↦ rw (e, h e, int_eq_refl new) refl
]

abbrev HoldsInterval : Option ℤ → ℤ → Type 0
HoldsInterval none held = Unit
HoldsInterval (some new) held = HoldsInt new held

settled_interval :
    (held : ℤ) (new : Option ℤ)
    → HoldsInterval new held
    → (keep_interval held new ≡ held) × (changes_interval held new ≡ false)
unfolding keep_interval changes_interval
settled_interval held none h = (refl, refl)
settled_interval held (some new) h = (settled_int held new h, same_int held new h)

-- A dictionary equals itself for Python, as it does if no key of an object in it occurs twice.
abbrev pub IsEqualToSelf : Fields → Type 0
IsEqualToSelf fs = py_eq (obj fs) (obj fs) ≡ true

-- A dictionary that counts as equal to what the report says of it, unless it says nothing.
abbrev HoldsFields : Fields → Fields → Type 0
HoldsFields new held = is_filled new ≡ true → py_eq (obj held) (obj new) ≡ true

settled_fields :
    (held new : Fields)
    → HoldsFields new held
    → (keep_fields held new ≡ held) × (changes_fields held new ≡ false)
unfolding keep_fields changes_fields
settled_fields held new h = elim (Bool-cases (is_filled new)) [
  | inl e ↦ rw (e, h e) (refl, refl)
  | inr e ↦ rw e (refl, refl)
]

keep_fields_holds : (old new : Fields) → IsEqualToSelf new → HoldsFields new (keep_fields old new)
unfolding keep_fields
keep_fields_holds old new self e = elim (Bool-cases (py_eq (obj old) (obj new))) [
  | inl same ↦ rw (e, same) same
  | inr other ↦ rw (e, other) self
]

-- The accessory holds what the report says.
record HoldsReport (b : Binding) (d : Accessory) : Type 0 where
  has_type : HoldsText b.ble_type d.ble_type
  has_id : HoldsInt b.petkit_id d.petkit_id
  has_serial : HoldsText b.serial_number d.serial_number
  has_mac : HoldsText b.mac d.mac
  has_secret : HoldsText b.secret d.secret
  has_link : HoldsInt b.link_with d.link_with
  has_interval : HoldsInterval b.interval d.interval
  has_scan_type : HoldsInt b.scan_type d.scan_type
  has_config : HoldsFields b.config d.config
  has_settings : HoldsFields b.settings d.settings

settled_report :
    (b : Binding) (d : Accessory) → HoldsReport b d → (overwrite b d ≡ d) × (changes b d ≡ false)
unfolding overwrite changes
settled_report b d h = (
  rw
      (
        settled_text d.ble_type b.ble_type h.has_type,
        settled_int d.petkit_id b.petkit_id h.has_id,
        settled_text d.serial_number b.serial_number h.has_serial,
        settled_text d.mac b.mac h.has_mac,
        settled_text d.secret b.secret h.has_secret,
        settled_int d.link_with b.link_with h.has_link,
        (settled_interval d.interval b.interval h.has_interval).0,
        settled_int d.scan_type b.scan_type h.has_scan_type,
        (settled_fields d.config b.config h.has_config).0,
        (settled_fields d.settings b.settings h.has_settings).0,
      )
      refl,
  rw
      (
        same_text d.ble_type b.ble_type h.has_type,
        same_int d.petkit_id b.petkit_id h.has_id,
        same_text d.serial_number b.serial_number h.has_serial,
        same_text d.mac b.mac h.has_mac,
        same_text d.secret b.secret h.has_secret,
        same_int d.link_with b.link_with h.has_link,
        (settled_interval d.interval b.interval h.has_interval).1,
        same_int d.scan_type b.scan_type h.has_scan_type,
        (settled_fields d.config b.config h.has_config).1,
        (settled_fields d.settings b.settings h.has_settings).1,
      )
      refl,
)
