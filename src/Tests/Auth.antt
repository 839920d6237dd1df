-- ===== src/Tests/Auth.antt =====
-- The theorems on addon/petkit_local/mqtt/auth.py at concrete inputs.
use petkit_local.Prelude.{
  ℕ, contains, ◌≡◌, refl, true, false, none, some, List, [], ◌∷◌, ◌++◌, Text, codes,
}
use petkit_local.Prelude.Int.{pos}
use petkit_local.Prelude.Json.{end}
use petkit_local.Http.Redact.Objects.{int_eq}
use petkit_local.Mqtt.Topics.Segments.{text_eq, is_nonempty, Lacks}
use petkit_local.Devices.Ids.{at_id}
use petkit_local.Devices.Registry.{Device, Table, by_mqtt_name}
use petkit_local.Mqtt.Auth.{
  Crypto, Sessions, Connect, authenticate, on_disconnected, mark_mqtt_connected, device_for_client,
  is_signed, compute_aliyun_sign, param_or,
}
use petkit_local.Mqtt.Auth.Clients.{device_client_id, IsPlain, Lacks-contains}
use petkit_local.Mqtt.Auth.Strict.{IsTrusted, authenticate_lem, authenticate-device_client_id}
use petkit_local.Mqtt.Auth.TakeOver.{is_connected}
use petkit_local.Mqtt.Auth.Open.{Opened, opening_of, ending_of, IsOpen}
use petkit_local.Mqtt.Auth.Open.Runs.{Run, start, accepted, ended, Run-IsOpen}
use petkit_local.Mqtt.Auth.Teardown.{on_disconnected-authenticate}

-- A signature that joins what it is made of.
abbrev crypto : Crypto
crypto = record { hmac = λ digest key content. key ++ content; lower = λ t. t }

abbrev box : Device
box = record {
  device_type = codes "t5";
  petkit_id = pos 7;
  serial_number = codes "S";
  mac = [];
  firmware = [];
  wire_type = [];
  mqtt_product_key = codes "pk";
  mqtt_device_name = codes "d_t5_S";
  mqtt_device_secret = codes "s1";
  api_secret = [];
  config = end;
}

abbrev boxes : Table
boxes = (pos 7, box) ∷ []

abbrev none_yet : Sessions
none_yet = record { links = []; live_sessions = [] }

abbrev password : Text
password =
    compute_aliyun_sign crypto (codes "s1") (codes "d_t5_S") (codes "pk") (codes "12")
      (codes "hmacsha256")

-- The parameters that a device sends.
abbrev params_at : Text → List (Text × Text)
params_at timestamp =
    (codes "timestamp", timestamp)
    ∷ (codes "_ss", codes "1")
    ∷ (codes "_v", codes "sdk-python-1.0")
    ∷ (codes "securemode", codes "2")
    ∷ (codes "signmethod", codes "hmacsha256")
    ∷ (codes "ext", codes "3")
    ∷ []

-- The parameters at a time of two characters have no separator in them.
lacks : (a : ℕ) (t : Text) → contains t a ≡ false → Lacks a t
lacks = Lacks-contains

params_at-IsPlain :
    (timestamp : Text)
    → contains timestamp b',' ≡ false
    → contains timestamp b'|' ≡ false
    → IsPlain (params_at timestamp)
params_at-IsPlain timestamp c b = (
  (
    lacks _ (codes "timestamp") refl,
    lacks _ (codes "timestamp") refl,
    lacks _ (codes "timestamp") refl,
    lacks _ timestamp c,
    lacks _ timestamp b,
  ),
  (
    (
      lacks _ (codes "_ss") refl,
      lacks _ (codes "_ss") refl,
      lacks _ (codes "_ss") refl,
      lacks _ (codes "1") refl,
      lacks _ (codes "1") refl,
    ),
    (
      (
        lacks _ (codes "_v") refl,
        lacks _ (codes "_v") refl,
        lacks _ (codes "_v") refl,
        lacks _ (codes "sdk-python-1.0") refl,
        lacks _ (codes "sdk-python-1.0") refl,
      ),
      (
        (
          lacks _ (codes "securemode") refl,
          lacks _ (codes "securemode") refl,
          lacks _ (codes "securemode") refl,
          lacks _ (codes "2") refl,
          lacks _ (codes "2") refl,
        ),
        (
          (
            lacks _ (codes "signmethod") refl,
            lacks _ (codes "signmethod") refl,
            lacks _ (codes "signmethod") refl,
            lacks _ (codes "hmacsha256") refl,
            lacks _ (codes "hmacsha256") refl,
          ),
          (
            (
              lacks _ (codes "ext") refl,
              lacks _ (codes "ext") refl,
              lacks _ (codes "ext") refl,
              lacks _ (codes "3") refl,
              lacks _ (codes "3") refl,
            ),
            tt,
          ),
        ),
      ),
    ),
  ),
)

-- The box connects, in its second session.
abbrev second : Connect
second = record {
  session = 2;
  client_id = device_client_id (codes "pk") (codes "d_t5_S") (params_at (codes "12"));
  password = password;
}

abbrev first_id : Text
first_id = device_client_id (codes "pk") (codes "d_t5_S") (params_at (codes "11"))

authenticate-device_client_id_example :
    authenticate crypto true (some boxes) second none_yet
    ≡ (mark_mqtt_connected (pos 7) 2 none_yet, true)
unfolding by_mqtt_name text_eq is_nonempty param_or
authenticate-device_client_id_example =
    authenticate-device_client_id crypto true boxes none_yet box 2 (codes "pk") (codes "d_t5_S")
      (params_at (codes "12")) password refl refl (Lacks-contains b'.' (codes "pk") refl)
      (Lacks-contains b'|' (codes "d_t5_S") refl) (params_at-IsPlain (codes "12") refl refl) refl
      refl

authenticate_lem_example :
    (true ≡ false → (authenticate crypto true (some boxes) second none_yet).1 ≡ true)
    × ((authenticate crypto true (some boxes) second none_yet).1 ≡ false
        → (authenticate crypto true (some boxes) second none_yet).0 ≡ none_yet)
    × (true ≡ true
        → (authenticate crypto true (some boxes) second none_yet).1 ≡ true
        → IsTrusted crypto boxes second)
authenticate_lem_example = authenticate_lem crypto true boxes second none_yet

-- The box is renamed while it is connected, and then its session ends: its flag stays up.
abbrev renamed : Table
renamed = (pos 7, record box { mqtt_device_name = codes "d_t5_T" }) ∷ []

read-renamed :
    is_connected (
      at_id (pos 7) (
        Sessions.links (
          on_disconnected
            (some renamed)
            second.client_id
            (some 2)
            (mark_mqtt_connected (pos 7) 2 none_yet))))
    ≡ true
unfolding on_disconnected device_client_id by_mqtt_name text_eq is_nonempty mark_mqtt_connected
    is_connected int_eq
read-renamed = refl

on_disconnected-authenticate_example :
    (is_connected (at_id (pos 7) (authenticate crypto true (some boxes) second none_yet).0.links)
      ≡ true)
    × (on_disconnected
          (some boxes)
          first_id
          (some 1)
          (authenticate crypto true (some boxes) second none_yet).0
        ≡ (authenticate crypto true (some boxes) second none_yet).0)
    × (is_connected (
          at_id (pos 7) (
            Sessions.links (
              on_disconnected
                (some boxes)
                second.client_id
                (some 2)
                (authenticate crypto true (some boxes) second none_yet).0)))
        ≡ false)
    × (at_id (pos 7) (
          Sessions.live_sessions (
            on_disconnected
              (some boxes)
              second.client_id
              (some 2)
              (authenticate crypto true (some boxes) second none_yet).0))
        ≡ none)
unfolding device_for_client device_client_id by_mqtt_name text_eq is_nonempty authenticate is_signed
    compute_aliyun_sign
on_disconnected-authenticate_example =
    on_disconnected-authenticate crypto true boxes second box none_yet first_id 1 refl refl refl
      refl

-- A session of the box is taken over by a second one, and then ends.
abbrev first : Connect
first = record { session = 1; client_id = first_id; password = [] }

abbrev opened : Opened
opened = ending_of 1 (opening_of 2 second.client_id (opening_of 1 first_id (λ n. none)))

abbrev taken_over : Sessions
taken_over =
    on_disconnected (some boxes) first_id (some 1)
      (authenticate crypto true (some boxes) second
        (authenticate crypto false (some boxes) first none_yet).0).0

run : Run crypto boxes opened taken_over
unfolding device_client_id by_mqtt_name text_eq is_nonempty authenticate is_signed
    compute_aliyun_sign param_or
run = ended (accepted (accepted start false first refl refl) true second refl refl) 1 first_id refl

Run-IsOpen_example :
    (n : ℕ) × (at_id (pos 7) taken_over.live_sessions ≡ some n) × IsOpen boxes opened (pos 7) n
unfolding device_client_id by_mqtt_name text_eq is_nonempty authenticate is_signed
    compute_aliyun_sign param_or on_disconnected is_connected mark_mqtt_connected int_eq
Run-IsOpen_example = Run-IsOpen crypto boxes run (pos 7) refl
