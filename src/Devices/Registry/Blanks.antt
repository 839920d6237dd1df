-- ===== src/Devices/Registry/Blanks.antt =====
-- The blanks that a signup fills in at a known device, in addon/petkit_local/devices/registry.py.
use petkit_local.Prelude.{
  ◌≡◌, refl, sym, ap, ◌∙◌, Bool, false, not, ◌||◌, [], ◌∷◌, ◌++◌, Text, codes, if◌then◌else◌,
  Bool-cases, inl, inr,
}
use petkit_local.Mqtt.Topics.Segments.{text_eq, is_nonempty, text_eq→eq}
use petkit_local.Devices.Registry.{
  Device, Contact, fill_serial, fill_mac, set_firmware, fill_blanks, mqtt_name,
}

-- The first of two texts that is not empty.
abbrev first_of : Text → Text → Text
first_of old new = if is_nonempty old then old else new

-- A known device after a signup: a serial number and a MAC are taken only where it has none, its name
-- changes only with the serial number, a firmware that is given is taken, and the rest stays.
unfoldable pub known_device : Contact → Device → Device
known_device c d = record d {
  serial_number = first_of d.serial_number c.serial_number;
  mqtt_device_name =
      if is_nonempty d.serial_number || not (is_nonempty c.serial_number)
      then d.mqtt_device_name
      else codes "d_" ++ d.device_type ++ b'_' ∷ c.serial_number;
  mac = first_of d.mac c.mac;
  firmware = first_of c.firmware d.firmware;
}

is_nonempty-empty : (t : Text) → is_nonempty t ≡ false → t ≡ []
unfolding is_nonempty
is_nonempty-empty [] h = refl
is_nonempty-empty (c ∷ t) h = absurd (cc)

serial_taken :
    (sn : Text) (d : Device)
    → (fill_serial sn d).0 ≡ record d {
      serial_number = first_of d.serial_number sn;
      mqtt_device_name =
          if is_nonempty d.serial_number || not (is_nonempty sn)
          then d.mqtt_device_name
          else codes "d_" ++ d.device_type ++ b'_' ∷ sn;
    }
unfolding fill_serial mqtt_name
serial_taken sn d = elim (Bool-cases (is_nonempty d.serial_number)) [
  | inl old ↦ elim (Bool-cases (is_nonempty sn)) [
    | inl new ↦ rw (old, new) refl
    | inr none_new ↦ rw (old, none_new) refl
  ]
  | inr none_old ↦ elim (Bool-cases (is_nonempty sn)) [
    | inl new ↦ rw (none_old, new) refl
    | inr none_new ↦
        rw (none_old, none_new)
          (ap (λ t. record d { serial_number = t })
            (is_nonempty-empty d.serial_number none_old ∙ sym (is_nonempty-empty sn none_new)))
  ]
]

mac_taken :
    (mac : Text) (p : Device × Bool)
    → (fill_mac mac p).0 ≡ record (p.0) { mac = first_of (Device.mac (p.0)) mac }
unfolding fill_mac
mac_taken mac (d, changed) = elim (Bool-cases (is_nonempty d.mac)) [
  | inl old ↦ elim (Bool-cases (is_nonempty mac)) [
    | inl new ↦ rw (old, new) refl
    | inr none_new ↦ rw (old, none_new) refl
  ]
  | inr none_old ↦ elim (Bool-cases (is_nonempty mac)) [
    | inl new ↦ rw (none_old, new) refl
    | inr none_new ↦
        rw (none_old, none_new)
          (ap (λ t. record d { mac = t })
            (is_nonempty-empty d.mac none_old ∙ sym (is_nonempty-empty mac none_new)))
  ]
]

firmware_taken :
    (firmware : Text) (p : Device × Bool)
    → (set_firmware firmware p).0
      ≡ record (p.0) { firmware = first_of firmware (Device.firmware (p.0)) }
unfolding set_firmware
firmware_taken firmware (d, changed) = elim (Bool-cases (is_nonempty firmware)) [
  | inl new ↦ elim (Bool-cases (text_eq firmware d.firmware)) [
    | inl same ↦
        rw (new, same)
          (ap (λ t. record d { firmware = t }) (sym (text_eq→eq firmware d.firmware same)))
    | inr other ↦ rw (new, other) refl
  ]
  | inr none_new ↦ rw none_new refl
]

pub fill_blanks-known_device : (c : Contact) (d : Device) → (fill_blanks c d).0 ≡ known_device c d
unfolding fill_blanks known_device
fill_blanks-known_device c d =
    rw
      (
        firmware_taken c.firmware (fill_mac c.mac (fill_serial c.serial_number d)),
        mac_taken c.mac (fill_serial c.serial_number d),
        serial_taken c.serial_number d,
      )
      refl
