-- ===== src/Devices/Registry/Fleet.antt =====
-- The device registry of addon/petkit_local/devices/registry.py against what it stands for: the devices
-- as a function of their id.
use petkit_local.Prelude.{
  ◌≡◌, refl, ap, true, Option, none, some, List, [], ◌∷◌, ◌++◌, Text, codes, if◌then◌else◌,
}
use petkit_local.Prelude.Int.{ℤ}
use petkit_local.Prelude.Json.{Fields, obj, end, field}
use petkit_local.Prelude.Digits.{str_int}
use petkit_local.Mqtt.Topics.Segments.{is_nonempty}
use petkit_local.Http.Redact.Objects.{int_eq}
use petkit_local.Devices.Ids.{
  at_id, put_id, ids_distinct, AllIds, at_id-put_id, at_id-drop_id, ids_distinct-put_id,
  ids_distinct-drop_id, AllIds-put_id, AllIds-drop_id, AllIds-at_id,
}
use petkit_local.Devices.Registry.Blanks.{known_device, fill_blanks-known_device}
use petkit_local.Devices.Registry.{
  Device, Contact, Minted, new_device, Table, Outcome, Removal, registered, contacted,
  first_or_known, get_or_create, remove, merge_default_settings, set_default, set_defaults,
  in_settings, mqtt_name, or_text,
}

-- What a table stands for, under ids that are all different.
pub record Represents (t : Table) (f : ℤ → Option Device) : Type 0 where
  pub reads : (pid : ℤ) → at_id pid t ≡ f pid
  pub distinct : ids_distinct t ≡ true
  pub keyed : AllIds (λ pid (d : Device). d.petkit_id ≡ pid) t

-- The function changed at one id.
unfoldable pub with_device : ℤ → Option Device → (ℤ → Option Device) → ℤ → Option Device
with_device pid o f j = if int_eq pid j then o else f j

-- A call of the registry.
pub data Call : Type 0 where
  signup : (pid : ℤ) (device_type : Text) (c : Contact) (minted : Minted) → Call
  removal : (pid : ℤ) → Call

module _ (default_settings : Text → Fields) where
  -- The device that a signup is answered with. A new one has what the signup brought, the minted
  -- credentials, a name from its serial number or else its id, and the settings of its type.
  unfoldable pub first_device : ℤ → Text → Contact → Minted → Device
  first_device pid device_type c minted = record {
    device_type = device_type;
    petkit_id = pid;
    serial_number = c.serial_number;
    mac = c.mac;
    firmware = c.firmware;
    wire_type = [];
    mqtt_product_key = minted.product_key;
    mqtt_device_name =
        codes "d_"
        ++ device_type
        ++ b'_' ∷ (if is_nonempty c.serial_number then c.serial_number else str_int pid);
    mqtt_device_secret = minted.secret;
    api_secret = [];
    config = field "settings" (obj (set_defaults (default_settings device_type) end)) end;
  }

  unfoldable pub after_contact : ℤ → Text → Contact → Minted → Option Device → Device
  unfolding first_device known_device
  after_contact pid device_type c minted none = first_device pid device_type c minted
  after_contact pid device_type c minted (some d) = known_device c d

  unfoldable pub call : Call → Table → Table
  unfolding get_or_create remove
  call (signup pid device_type c minted) t =
      Outcome.devices (get_or_create default_settings pid device_type c minted t)
  call (removal pid) t = Removal.devices (remove pid t)

  unfoldable pub calls : List Call → Table → Table
  unfolding call
  calls [] t = t
  calls (c ∷ cs) t = calls cs (call c t)

  -- What the call returns.
  unfoldable pub answer : Call → Table → Option Device
  unfolding get_or_create remove
  answer (signup pid device_type c minted) t =
      some (Outcome.device (get_or_create default_settings pid device_type c minted t))
  answer (removal pid) t = Removal.device (remove pid t)

  unfoldable pub answers : List Call → Table → List (Option Device)
  unfolding answer call
  answers [] t = []
  answers (c ∷ cs) t = answer c t ∷ answers cs (call c t)

  -- The same on functions of the id.
  unfoldable pub on_fleet : Call → (ℤ → Option Device) → ℤ → Option Device
  unfolding with_device after_contact
  on_fleet (signup pid device_type c minted) f =
      with_device pid (some (after_contact pid device_type c minted (f pid))) f
  on_fleet (removal pid) f = with_device pid none f

  unfoldable pub all_on_fleet : List Call → (ℤ → Option Device) → ℤ → Option Device
  unfolding on_fleet
  all_on_fleet [] f = f
  all_on_fleet (c ∷ cs) f = all_on_fleet cs (on_fleet c f)

  unfoldable pub fleet_answer : Call → (ℤ → Option Device) → Option Device
  unfolding after_contact
  fleet_answer (signup pid device_type c minted) f =
      some (after_contact pid device_type c minted (f pid))
  fleet_answer (removal pid) f = f pid

  unfoldable pub fleet_answers : List Call → (ℤ → Option Device) → List (Option Device)
  unfolding fleet_answer on_fleet
  fleet_answers [] f = []
  fleet_answers (c ∷ cs) f = fleet_answer c f ∷ fleet_answers cs (on_fleet c f)

  registered-first_device :
      (pid : ℤ) (device_type : Text) (c : Contact) (minted : Minted)
      → registered default_settings pid device_type c minted ≡ first_device pid device_type c minted
  unfolding registered merge_default_settings new_device first_device mqtt_name in_settings
      set_default or_text is_nonempty str_int
  registered-first_device pid device_type c minted =
      ap
        (λ t. record (first_device pid device_type c minted) {
          mqtt_device_name = codes "d_" ++ device_type ++ b'_' ∷ t;
        })
        (choose c.serial_number)
    where
      choose : (t : Text) → or_text t (str_int pid) ≡ (if is_nonempty t then t else str_int pid)
      choose [] = refl
      choose (x ∷ t) = refl

  get_or_create-device :
      (pid : ℤ) (device_type : Text) (c : Contact) (minted : Minted) (t : Table)
      → Outcome.device (get_or_create default_settings pid device_type c minted t)
        ≡ after_contact pid device_type c minted (at_id pid t)
  unfolding get_or_create first_or_known contacted after_contact
  get_or_create-device pid device_type c minted t = known (at_id pid t)
    where
      known :
          (o : Option Device)
          → Outcome.device (first_or_known default_settings pid device_type c minted t o)
            ≡ after_contact pid device_type c minted o
      known none = registered-first_device pid device_type c minted
      known (some d) = fill_blanks-known_device c d

  pub get_or_create-devices :
      (pid : ℤ) (device_type : Text) (c : Contact) (minted : Minted) (t : Table)
      → Outcome.devices (get_or_create default_settings pid device_type c minted t)
        ≡ put_id pid (after_contact pid device_type c minted (at_id pid t)) t
  unfolding get_or_create first_or_known contacted after_contact
  get_or_create-devices pid device_type c minted t = known (at_id pid t)
    where
      known :
          (o : Option Device)
          → Outcome.devices (first_or_known default_settings pid device_type c minted t o)
            ≡ put_id pid (after_contact pid device_type c minted o) t
      known none = ap (λ d. put_id pid d t) (registered-first_device pid device_type c minted)
      known (some d) = ap (λ e. put_id pid e t) (fill_blanks-known_device c d)

  after_contact_id :
      (pid : ℤ) (device_type : Text) (c : Contact) (minted : Minted) (t : Table) (o : Option Device)
      → at_id pid t ≡ o
      → AllIds (λ pid (d : Device). d.petkit_id ≡ pid) t
      → Device.petkit_id (after_contact pid device_type c minted o) ≡ pid
  unfolding after_contact
  after_contact_id pid device_type c minted t none e h = refl
  after_contact_id pid device_type c minted t (some d) e h =
      AllIds-at_id (λ pid (d : Device). d.petkit_id ≡ pid) pid d t h e

  call-Represents :
      (c : Call) (t : Table) (f : ℤ → Option Device)
      → Represents t f
      → Represents (call c t) (on_fleet c f)
  unfolding call on_fleet with_device
  call-Represents (signup pid device_type c minted) t f h =
      let d = after_contact pid device_type c minted (at_id pid t) in
      rw (get_or_create-devices pid device_type c minted t) (record {
        reads = λ j. rw (at_id-put_id pid j d t, h.reads pid, h.reads j) refl;
        distinct = ids_distinct-put_id pid d t h.distinct;
        keyed =
            AllIds-put_id _ pid d t
              (after_contact_id pid device_type c minted t (at_id pid t) refl h.keyed) h.keyed;
      })
  call-Represents (removal pid) t f h =
      unfold remove in
      record {
        reads = λ j. rw (at_id-drop_id pid j t, h.reads j) refl;
        distinct = ids_distinct-drop_id pid t h.distinct;
        keyed = AllIds-drop_id _ pid t h.keyed;
      }

  answer-fleet_answer :
      (c : Call) (t : Table) (f : ℤ → Option Device)
      → Represents t f
      → answer c t ≡ fleet_answer c f
  unfolding answer fleet_answer
  answer-fleet_answer (signup pid device_type c minted) t f h =
      rw (get_or_create-device pid device_type c minted t, h.reads pid) refl
  answer-fleet_answer (removal pid) t f h = unfold remove in h.reads pid

  -- A registry whose ids are all different, and each that of its device, keeps that property through any
  -- sequence of signups and removals, and reads and answers as a function of ids: a signup at an
  -- unknown id puts a device there with what the signup brought, the minted credentials, a name from
  -- the serial number or else the id, and the settings of the type; at a known id it takes a serial
  -- number, with the name from it, and a MAC only where the device has none, and the firmware if one
  -- is given, and leaves the rest; a removal empties its id; and no call changes another id.
  pub calls-Represents :
      (cs : List Call) (t : Table) (f : ℤ → Option Device)
      → Represents t f
      → Represents (calls cs t) (all_on_fleet cs f) × (answers cs t ≡ fleet_answers cs f)
  unfolding calls all_on_fleet answers fleet_answers
  calls-Represents [] t f h = (h, refl)
  calls-Represents (c ∷ cs) t f h =
      let rest = calls-Represents cs (call c t) (on_fleet c f) (call-Represents c t f h) in
      (rest.0, rw (answer-fleet_answer c t f h, rest.1) refl)
