-- ===== src/Mqtt/Auth/Strict.antt =====
-- Which CONNECTs are accepted: addon/petkit_local/mqtt/auth.py.
use petkit_local.Prelude.{
  ℕ, ◌≡◌, refl, Bool, true, false, not, ◌||◌, Option, none, some, List, [], Text, codes, arith,
  if◌then◌else◌,
}
use petkit_local.Mqtt.Topics.Segments.{text_eq, is_nonempty, Lacks, text_eq_self}
use petkit_local.Devices.Registry.{Device, Table, by_mqtt_name}
use petkit_local.Mqtt.Auth.{
  Crypto, Sessions, Connect, ClientId, mark_mqtt_connected, device_of, is_signed, check_device,
  check_client, authenticate, parse_client_id, compute_aliyun_sign, param_or,
}
use petkit_local.Mqtt.Auth.Clients.{IsPlain, device_client_id, parse_client_id-device_client_id}

-- A client that may be let in: one that is no device, or a known device with its signature.
pub data IsTrusted (x : Crypto) (t : Table) (k : Connect) : Type 0 where
  internal : parse_client_id k.client_id ≡ none → IsTrusted x t k
  signed :
      (c : ClientId) (d : Device)
      → parse_client_id k.client_id ≡ some c
      → device_of (some t) (some c) ≡ some d
      → is_signed x c d k.password ≡ true
      → IsTrusted x t k

-- What the answer to a CONNECT says.
abbrev Answered : Crypto → Bool → Table → Connect → Sessions → Sessions × Bool → Type 0
Answered x strict t k s r =
    (strict ≡ false → r.1 ≡ true)
    × (r.1 ≡ false → r.0 ≡ s)
    × (strict ≡ true → r.1 ≡ true → IsTrusted x t k)

device-Answered :
    (x : Crypto) (strict : Bool) (t : Table) (k : Connect) (s : Sessions) (c : ClientId)
    (o : Option Device)
    → parse_client_id k.client_id ≡ some c
    → device_of (some t) (some c) ≡ o
    → Answered x strict t k s (check_device x strict k c o s)
unfolding check_device
device-Answered x strict t k s c none p e = (λ h. ground arith, λ h. refl, λ h a. absurd (cc))
device-Answered x strict t k s c (some d) p e = choose (is_signed x c d k.password) strict refl
  where
    marked : Sessions
    marked = mark_mqtt_connected d.petkit_id k.session s

    choose :
        (b strict : Bool)
        → is_signed x c d k.password ≡ b
        → Answered x strict t k s (if b || not strict then (marked, true) else (s, false))
    choose true strict ok = (λ h. refl, λ h. absurd (cc), λ h a. signed c d p e ok)
    choose false true bad = (λ h. absurd (cc), λ h. refl, λ h a. absurd (cc))
    choose false false bad = (λ h. refl, λ h. absurd (cc), λ h a. absurd (cc))

client-Answered :
    (x : Crypto) (strict : Bool) (t : Table) (k : Connect) (s : Sessions) (o : Option ClientId)
    → parse_client_id k.client_id ≡ o
    → Answered x strict t k s (check_client x strict (some t) k o s)
unfolding check_client
client-Answered x strict t k s none p = (λ h. refl, λ h. absurd (cc), λ h a. internal p)
client-Answered x strict t k s (some c) p =
    device-Answered x strict t k s c (device_of (some t) (some c)) p refl

-- With a registry, authenticate accepts every CONNECT unless it is strict; a CONNECT that it refuses
-- changes nothing; and if it is strict, a client that it accepts has no client id of a device, or is a
-- device of the registry whose password is the signature made with its secret.
pub authenticate_lem :
    (x : Crypto) (strict : Bool) (t : Table) (k : Connect) (s : Sessions)
    → (strict ≡ false → (authenticate x strict (some t) k s).1 ≡ true)
      × ((authenticate x strict (some t) k s).1 ≡ false
          → (authenticate x strict (some t) k s).0 ≡ s)
      × (strict ≡ true → (authenticate x strict (some t) k s).1 ≡ true → IsTrusted x t k)
unfolding authenticate
authenticate_lem x strict t k s = client-Answered x strict t k s (parse_client_id k.client_id) refl

-- The signature of a device over its key, its name and the time that it sends, by the method that it
-- names, or else hmacsha256.
abbrev pub signature : Crypto → Device → (pk dn : Text) → List (Text × Text) → Text
signature x d pk dn params =
    compute_aliyun_sign x d.mqtt_device_secret dn pk (param_or (codes "timestamp") [] params)
      (param_or (codes "signmethod") (codes "hmacsha256") params)

signed_with :
    (x : Crypto) (d : Device) (pk dn : Text) (params : List (Text × Text)) (password : Text)
    → x.lower password ≡ x.lower (signature x d pk dn params)
    → is_signed x (record { product_key = pk; device_name = dn; params = params }) d password ≡ true
unfolding is_signed text_eq
signed_with x d pk dn params password same =
    rw same (text_eq_self (x.lower (signature x d pk dn params)))

-- A CONNECT of a device that the registry finds by its product key and MQTT name is accepted, strict
-- or not, and marks the device as connected by that session, if its client id is the key, a dot, the
-- name and any parameters in bars, and its password, in upper or lower case, the signature with the
-- secret of the device; provided that the key and the name are not empty, no dot is in the key, no
-- bar in the name, no equals sign in a parameter's name, and no comma or bar in its name or value.
pub authenticate-device_client_id :
    (x : Crypto) (strict : Bool) (t : Table) (s : Sessions) (d : Device) (session : ℕ)
    (pk dn : Text) (params : List (Text × Text)) (password : Text)
    → is_nonempty pk ≡ true
    → is_nonempty dn ≡ true
    → Lacks b'.' pk
    → Lacks b'|' dn
    → IsPlain params
    → by_mqtt_name pk dn t ≡ some d
    → x.lower password ≡ x.lower (signature x d pk dn params)
    → authenticate x strict
        (some t)
        (record {
          session = session;
          client_id = device_client_id pk dn params;
          password = password;
        })
        s
      ≡ (mark_mqtt_connected d.petkit_id session s, true)
unfolding authenticate check_client device_of check_device
authenticate-device_client_id x strict t s d session pk dn params password p n dot bar plain known
      same =
    rw
      (
        parse_client_id-device_client_id pk dn params p n dot bar plain,
        known,
        signed_with x d pk dn params password same,
      )
      refl
