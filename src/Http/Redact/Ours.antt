-- ===== src/Http/Redact/Ours.antt =====
-- What holds of every item of an object and of what the rules may set holds of every item after the
-- rules of addon/petkit_local/http/redact/rules.py that rewrite an object.
pub mod Rules
use petkit_local.Prelude.{
  String, ◌≡◌, refl, subst, sym, Bool, true, false, ◌||◌, ◌&&◌, Option, none, some, List, [], ◌∷◌,
  arith, str_eq, eq_iff, any, All, if◌then◌else◌, Bool-cases, inl, inr,
}
use petkit_local.Prelude.Json.{Json, num, str, arr, obj, cons, Fields, end, field, lookup_field}
use petkit_local.Http.Redact.{BodyPath, Out, Device, Policy}
use petkit_local.Http.Redact.Objects.{
  put_present, put_field, truthy, py_eq, all_keys, any_key, has_field,
}
use petkit_local.Http.Redact.Walker.{substitute}
use petkit_local.Http.Redact.Uploads.{
  rewrite_uploads, match_oss_sts, replace_window, match_cvr_capacity, replace_capacity,
  capacity_window, product_window, replace_windows, keep_settings, about_us, own_id, adopt_secret,
  match_secret, keep_ours, match_locale,
}
use petkit_local.Http.Redact.Rules.{
  Rewritten, patch, our_servers, our_mqtt, match_server, match_mqtt,
}

-- Every key that the rules may set.
abbrev our_keys : List String
our_keys =
    "apiServers" ∷ "ipServers" ∷ "dns" ∷ "mqttHost" ∷ "productKey" ∷ "deviceName" ∷ "deviceSecret"
    ∷ "iotInstanceId" ∷ "capability" ∷ "type" ∷ "capacity" ∷ "cloudProduct" ∷ "id" ∷ "timezone"
    ∷ "locale" ∷ []

-- The rules can set this key.
abbrev pub is_ours : String → Bool
is_ours k = any (str_eq k) our_keys

-- Every item of an object.
unfoldable pub AllFields {ℓ} : (String → Json → Type ℓ) → Fields → Type ℓ
AllFields P end = Unit
AllFields P (field k v fs) = P k v × AllFields P fs

module _ {ℓ} (P : String → Json → Type ℓ) where
  pub All-put_field :
      (k : String) (v : Json) (fs : Fields)
      → P k v
      → AllFields P fs
      → AllFields P (put_field k v fs)
  unfolding put_field AllFields
  All-put_field k v end p all = (p, all)
  All-put_field k v (field j w fs) p (q, all) = elim (Bool-cases (str_eq j k)) [
    | inl e ↦ rw e (subst (λ i. P i v) (sym ((eq_iff j k).0 e)) p, all)
    | inr e ↦ rw e (q, All-put_field k v fs p all)
  ]

  pub All-put_present :
      (k : String) (v : Json) (fs : Fields)
      → P k v
      → AllFields P fs
      → AllFields P (put_present k v fs)
  unfolding put_present AllFields
  All-put_present k v end p all = all
  All-put_present k v (field j w fs) p (q, all) = elim (Bool-cases (str_eq j k)) [
    | inl e ↦ rw e (subst (λ i. P i v) (sym ((eq_iff j k).0 e)) p, all)
    | inr e ↦ rw e (q, All-put_present k v fs p all)
  ]

-- It holds of each item that the rules set from the device.
pub record HoldsOfOurs {ℓ} (P : String → Json → Type ℓ) (d : Device) : Type ℓ where
  pub api_servers : P "apiServers" d.api_servers
  pub ip_servers : P "ipServers" d.ip_servers
  pub dns : P "dns" d.dns
  pub mqtt_host : P "mqttHost" d.mqtt_host
  pub product_key : P "productKey" d.mqtt_product_key
  pub device_name : P "deviceName" d.mqtt_device_name
  pub device_secret : P "deviceSecret" d.mqtt_device_secret
  pub iot_instance : P "iotInstanceId" d.mqtt_product_key
  pub capability : P "capability" d.capability
  pub capability_type : P "type" d.capability_type
  pub capacity : P "capacity" d.capacity
  pub cloud_product : P "cloudProduct" d.cloud_product
  pub id : P "id" (num d.petkit_id)
  pub timezone : P "timezone" d.timezone_offset
  pub locale : P "locale" d.locale

-- The same, where a device is known.
abbrev pub OursHold {ℓ} : (String → Json → Type ℓ) → Option Device → Type ℓ
OursHold P none = Unit
OursHold P (some d) = HoldsOfOurs P d

-- What holds of every value of the keys holds of the device's.
pub all-OursHold {ℓ} :
    (P : String → Json → Type ℓ)
    → ((k : String) → is_ours k ≡ true → (v : Json) → P k v)
    → (d : Option Device) → OursHold P d
all-OursHold P p none = tt
all-OursHold P p (some d) = record {
  api_servers = p "apiServers" refl d.api_servers;
  ip_servers = p "ipServers" refl d.ip_servers;
  dns = p "dns" refl d.dns;
  mqtt_host = p "mqttHost" refl d.mqtt_host;
  product_key = p "productKey" refl d.mqtt_product_key;
  device_name = p "deviceName" refl d.mqtt_device_name;
  device_secret = p "deviceSecret" refl d.mqtt_device_secret;
  iot_instance = p "iotInstanceId" refl d.mqtt_product_key;
  capability = p "capability" refl d.capability;
  capability_type = p "type" refl d.capability_type;
  capacity = p "capacity" refl d.capacity;
  cloud_product = p "cloudProduct" refl d.cloud_product;
  id = p "id" refl (num d.petkit_id);
  timezone = p "timezone" refl d.timezone_offset;
  locale = p "locale" refl d.locale;
}

pub map-OursHold {ℓ κ} :
    (P : String → Json → Type ℓ) (Q : String → Json → Type κ)
    → ((k : String) (v : Json) → P k v → Q k v)
    → (d : Option Device) → OursHold P d
    → OursHold Q d
map-OursHold P Q f none o = tt
map-OursHold P Q f (some d) o = record {
  api_servers = f _ _ o.api_servers;
  ip_servers = f _ _ o.ip_servers;
  dns = f _ _ o.dns;
  mqtt_host = f _ _ o.mqtt_host;
  product_key = f _ _ o.product_key;
  device_name = f _ _ o.device_name;
  device_secret = f _ _ o.device_secret;
  iot_instance = f _ _ o.iot_instance;
  capability = f _ _ o.capability;
  capability_type = f _ _ o.capability_type;
  capacity = f _ _ o.capacity;
  cloud_product = f _ _ o.cloud_product;
  id = f _ _ o.id;
  timezone = f _ _ o.timezone;
  locale = f _ _ o.locale;
}
