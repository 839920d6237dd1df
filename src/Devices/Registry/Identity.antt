-- ===== src/Devices/Registry/Identity.antt =====
-- What a known device keeps in addon/petkit_local/devices/registry.py, whatever signs up after it.
use petkit_local.Prelude.{
  ◌≡◌, refl, sym, ap, subst, ◌∙◌, Bool, true, false, Option, none, some, List, [], ◌∷◌, Text, arith,
  if◌then◌else◌,
}
use petkit_local.Prelude.Int.{ℤ}
use petkit_local.Prelude.Json.{Fields}
use petkit_local.Http.Redact.Objects.{int_eq}
use petkit_local.Mqtt.Topics.Segments.{is_nonempty}
use petkit_local.Devices.Ids.{at_id, int_eq_iff, at_id-put_id, at_id-drop_id}
use petkit_local.Devices.Registry.{
  Device, Contact, Minted, Table, fill_serial, fill_mac, set_firmware, fill_blanks, remove,
}
use petkit_local.Devices.Registry.Blanks.{known_device, fill_blanks-known_device}
use petkit_local.Devices.Registry.Fleet.{
  Call, signup, removal, call, calls, after_contact, get_or_create-devices,
}

-- The second device is the first one, with the credentials that the broker knows it by.
pub record IsSame (d e : Device) : Type 0 where
  pub same_id : e.petkit_id ≡ d.petkit_id
  pub same_type : e.device_type ≡ d.device_type
  pub same_key : e.mqtt_product_key ≡ d.mqtt_product_key
  pub same_secret : e.mqtt_device_secret ≡ d.mqtt_device_secret
  pub same_config : e.config ≡ d.config
  pub same_serial : is_nonempty d.serial_number ≡ true → e.serial_number ≡ d.serial_number
  pub same_name : is_nonempty d.serial_number ≡ true → e.mqtt_device_name ≡ d.mqtt_device_name
  pub same_mac : is_nonempty d.mac ≡ true → e.mac ≡ d.mac

IsSame-refl : (d : Device) → IsSame d d
IsSame-refl d = record {
  same_id = refl;
  same_type = refl;
  same_key = refl;
  same_secret = refl;
  same_config = refl;
  same_serial = λ _. refl;
  same_name = λ _. refl;
  same_mac = λ _. refl;
}

-- A text that stayed has a character if it had one.
nonempty_kept : (s t : Text) → t ≡ s → is_nonempty s ≡ true → is_nonempty t ≡ true
nonempty_kept s t e h = ap is_nonempty e ∙ h

IsSame-trans : (d e f : Device) → IsSame d e → IsSame e f → IsSame d f
IsSame-trans d e f h k = record {
  same_id = k.same_id ∙ h.same_id;
  same_type = k.same_type ∙ h.same_type;
  same_key = k.same_key ∙ h.same_key;
  same_secret = k.same_secret ∙ h.same_secret;
  same_config = k.same_config ∙ h.same_config;
  same_serial = λ n.
      k.same_serial (nonempty_kept d.serial_number e.serial_number (h.same_serial n) n)
      ∙ h.same_serial n;
  same_name = λ n.
      k.same_name (nonempty_kept d.serial_number e.serial_number (h.same_serial n) n)
      ∙ h.same_name n;
  same_mac = λ n. k.same_mac (nonempty_kept d.mac e.mac (h.same_mac n) n) ∙ h.same_mac n;
}

fill_blanks-IsSame : (c : Contact) (d : Device) → IsSame d (fill_blanks c d).0
unfolding fill_blanks fill_serial fill_mac set_firmware
fill_blanks-IsSame c d = record {
  same_id = ground arith;
  same_type = ground arith;
  same_key = ground arith;
  same_secret = ground arith;
  same_config = ground arith;
  same_serial = λ n. ground arith;
  same_name = λ n. ground arith;
  same_mac = λ n. ground arith;
}

-- No call removes the device.
unfoldable pub KeepsDevice : ℤ → List Call → Type 0
KeepsDevice pid [] = Unit
KeepsDevice pid (signup j device_type c minted ∷ cs) = KeepsDevice pid cs
KeepsDevice pid (removal j ∷ cs) = (int_eq j pid ≡ false) × KeepsDevice pid cs

-- The table still has the device.
abbrev pub Has : ℤ → Device → Table → Type 0
Has pid d t = (e : Device) × (at_id pid t ≡ some e) × IsSame d e

module _ (default_settings : Text → Fields) where
  after_contact-IsSame :
      (pid : ℤ) (device_type : Text) (c : Contact) (minted : Minted) (d : Device)
      (o : Option Device)
      → o ≡ some d
      → IsSame d (after_contact default_settings pid device_type c minted o)
  unfolding after_contact
  after_contact-IsSame pid device_type c minted d none h = absurd (cc)
  after_contact-IsSame pid device_type c minted d (some e) h =
      subst (λ (x : Device). IsSame x (known_device c e)) (ground arith)
        (subst (λ (y : Device). IsSame e y) (fill_blanks-known_device c e) (fill_blanks-IsSame c e))

  signup-Has :
      (j pid : ℤ) (device_type : Text) (c : Contact) (minted : Minted) (d : Device) (t : Table)
      → at_id pid t ≡ some d
      → Has pid d (call default_settings (signup j device_type c minted) t)
  unfolding call
  signup-Has j pid device_type c minted d t h =
      let new = after_contact default_settings j device_type c minted (at_id j t) in
      rw (get_or_create-devices default_settings j device_type c minted t, at_id-put_id j pid new t)
        (choose (int_eq j pid) refl)
    where
      choose :
          (b : Bool)
          → int_eq j pid ≡ b
          → (e : Device) × ((if b
                then some (after_contact default_settings j device_type c minted (at_id j t))
                else at_id pid t)
              ≡ some e)
            × IsSame d e
      choose true e = (
        after_contact default_settings j device_type c minted (at_id j t),
        refl,
        after_contact-IsSame j device_type c minted d (at_id j t)
            (subst (λ i. at_id i t ≡ some d) (sym ((int_eq_iff j pid).0 e)) h),
      )
      choose false e = (d, h, IsSame-refl d)

  -- A device that is registered and that no call removes stays registered through any sequence of
  -- signups and removals, with its id, type, config, product key and device secret, and with its serial
  -- number, MQTT device name and MAC once it has a serial number or a MAC.
  pub calls-Has :
      (cs : List Call) (pid : ℤ) (d : Device) (t : Table)
      → KeepsDevice pid cs
      → at_id pid t ≡ some d
      → Has pid d (calls default_settings cs t)
  unfolding calls KeepsDevice
  calls-Has [] pid d t k h = (d, h, IsSame-refl d)
  calls-Has (signup j device_type c minted ∷ cs) pid d t k h =
      let (e, g, same) = signup-Has j pid device_type c minted d t h in
      let (f, g2, same2) =
        calls-Has cs pid e (call default_settings (signup j device_type c minted) t) k g in
      (f, g2, IsSame-trans d e f same same2)
  calls-Has (removal j ∷ cs) pid d t (ne, k) h =
      calls-Has cs pid d (call default_settings (removal j) t) k
        (unfold call remove in rw (at_id-drop_id j pid t, ne) h)
