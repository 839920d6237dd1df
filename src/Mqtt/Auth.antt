-- ===== src/Mqtt/Auth.antt =====
-- Sign-in of devices on the broker and the life of their sessions: addon/petkit_local/mqtt/auth.py. A
-- session is a number. The state is what the
-- plugin keeps of the live sessions, with the flags and the subscriptions that it sets on a device; its
-- times, and the rows of the panel, are left out.
mod Credentials
pub mod Clients
pub mod TakeOver
pub mod Teardown
pub mod Strict
pub mod Open
use petkit_local.Prelude.{
  ℕ, Bool, true, false, not, ◌&&◌, ◌||◌, Option, none, some, List, [], ◌∷◌, ◌++◌, Text, codes, ◌==◌,
  any, filter, if◌then◌else◌,
}
use petkit_local.Prelude.Int.{ℤ}
use petkit_local.Mqtt.Topics.{downstream_filters}
use petkit_local.Mqtt.Topics.Segments.{text_eq, is_nonempty}
use petkit_local.Devices.Ids.{Ids, at_id, put_id, drop_id}
use petkit_local.Devices.Registry.{Device, Table, by_mqtt_name}
unfoldable pub use Credentials.{
  cut, is_end, push, split_commas, add_param, read_params, param_or, with_params, with_name,
  with_key, parse_client_id, digest_of, compute_aliyun_sign,
}
pub use Credentials.{ClientId, Crypto}

-- What the plugin sets on a device.
pub record Link : Type 0 where
  pub online : Bool
  pub mqtt_connected : Bool
  pub mqtt_subscriptions : List Text

pub record Sessions : Type 0 where
  pub links : Ids Link
  pub live_sessions : Ids ℕ

unfoldable pub link_of : ℤ → Sessions → Link
link_of pid s = elim (at_id pid s.links) [
  | none ↦ record { online = false; mqtt_connected = false; mqtt_subscriptions = [] }
  | some k ↦ k
]

unfoldable pub put_link : ℤ → Link → Sessions → Sessions
put_link pid k s = record s { links = put_id pid k s.links }

-- device.online = True and _mark_mqtt_connected
unfoldable pub mark_mqtt_connected : ℤ → ℕ → Sessions → Sessions
mark_mqtt_connected pid session s = record {
  links =
      put_id pid (record { online = true; mqtt_connected = true; mqtt_subscriptions = [] }) s.links;
  live_sessions = put_id pid session s.live_sessions;
}

unfoldable pub device_of : Option Table → Option ClientId → Option Device
device_of none c = none
device_of (some t) none = none
device_of (some t) (some c) = by_mqtt_name c.product_key c.device_name t

-- _device_for_client
unfoldable pub device_for_client : Option Table → Text → Option Device
unfolding device_of parse_client_id
device_for_client registry client_id = device_of registry (parse_client_id client_id)

-- A CONNECT, as the session has it.
pub record Connect : Type 0 where
  pub session : ℕ
  pub client_id : Text
  pub password : Text

-- Whether the password is the signature that the device computes.
unfoldable pub is_signed : Crypto → ClientId → Device → Text → Bool
unfolding compute_aliyun_sign param_or
is_signed x c d password = text_eq (x.lower password) (
    x.lower (
      compute_aliyun_sign x d.mqtt_device_secret c.device_name c.product_key
        (param_or (codes "timestamp") [] c.params)
        (param_or (codes "signmethod") (codes "hmacsha256") c.params)))

unfoldable check_device :
    Crypto → (strict : Bool) → Connect → ClientId → Option Device → Sessions → Sessions × Bool
unfolding is_signed mark_mqtt_connected
check_device x strict k c none s = (s, not strict)
check_device x strict k c (some d) s =
    if is_signed x c d k.password || not strict
    then (mark_mqtt_connected d.petkit_id k.session s, true)
    else (s, false)

unfoldable check_client :
    Crypto → (strict : Bool) → Option Table → Connect → Option ClientId → Sessions → Sessions × Bool
unfolding check_device device_of
check_client x strict none k c s = (s, true)
check_client x strict (some t) k none s = (s, true)
check_client x strict (some t) k (some c) s =
    check_device x strict k c (device_of (some t) (some c)) s

-- authenticate
unfoldable pub authenticate :
    Crypto → (strict : Bool) → Option Table → Connect → Sessions → Sessions × Bool
unfolding check_client parse_client_id
authenticate x strict registry k s =
    check_client x strict registry k (parse_client_id k.client_id) s

-- Whether the session that ended is another one than the live one.
unfoldable pub is_superseded : Option ℕ → Option ℕ → Bool
is_superseded (some live) (some session) = not (live == session)
is_superseded live session = false

unfoldable pub end_session : ℤ → Option ℕ → Sessions → Sessions
unfolding is_superseded link_of
end_session pid session s =
    if is_superseded (at_id pid s.live_sessions) session then s else record {
      links = put_id pid (record (link_of pid s) { mqtt_connected = false }) s.links;
      live_sessions = drop_id pid s.live_sessions;
    }

unfoldable end_of : Option Device → Option ℕ → Sessions → Sessions
unfolding end_session
end_of none session s = s
end_of (some d) session s = end_session d.petkit_id session s

-- on_broker_client_disconnected
unfoldable pub on_disconnected : Option Table → Text → Option ℕ → Sessions → Sessions
unfolding end_of device_for_client
on_disconnected registry client_id session s =
    end_of (device_for_client registry client_id) session s

-- The first device whose live session it is.
unfoldable pub holder_of : ℕ → Ids ℕ → Option ℤ
holder_of session [] = none
holder_of session ((pid, live) ∷ rest) =
    if live == session then some pid else holder_of session rest

-- subscriptions + [t for t in topics if t not in subscriptions]
unfoldable pub add_subscriptions : List Text → List Text → List Text
add_subscriptions old topics = old ++ filter (λ t. not (any (text_eq t) old)) topics

unfoldable pub stamp : (restores : Bool) → List Text → Link → Link
unfolding add_subscriptions
stamp restores topics k = record k {
  mqtt_connected = restores || k.mqtt_connected;
  mqtt_subscriptions = add_subscriptions k.mqtt_subscriptions topics;
}

-- A packet: the topics of a SUBSCRIBE, and whether it is no DISCONNECT of a session in the state
-- "connected".
unfoldable stamp_holder : Option Table → Option ℤ → Bool → List Text → Sessions → Sessions
unfolding stamp put_link link_of
stamp_holder registry none restores topics s = s
stamp_holder none (some pid) restores topics s = s
stamp_holder (some t) (some pid) restores topics s = elim (at_id pid t) [
  | none ↦ s
  | some d ↦ put_link pid (stamp restores topics (link_of pid s)) s
]

-- on_mqtt_packet_received
unfoldable pub on_packet : Option Table → ℕ → Bool → List Text → Sessions → Sessions
unfolding stamp_holder holder_of
on_packet registry session restores topics s =
    stamp_holder registry (holder_of session s.live_sessions) restores topics s

-- on_broker_client_connected and _server_subscribe: the filters that the broker does not refuse.
unfoldable subscribe_of : Option Device → (refused : Text → Bool) → Sessions → Sessions
unfolding add_subscriptions put_link link_of
subscribe_of none refused s = s
subscribe_of (some d) refused s =
    let added =
      filter (λ t. not (refused t)) (downstream_filters d.mqtt_product_key d.mqtt_device_name) in
    put_link d.petkit_id
      (record (link_of d.petkit_id s) {
        mqtt_subscriptions = add_subscriptions (link_of d.petkit_id s).mqtt_subscriptions added;
      })
      s

unfoldable pub on_connected : Option Table → Text → (refused : Text → Bool) → Sessions → Sessions
unfolding subscribe_of device_for_client
on_connected registry client_id refused s =
    subscribe_of (device_for_client registry client_id) refused s

-- What the broker calls the plugin for.
pub data Hook : Type 0 where
  connect : (strict : Bool) (registry : Option Table) (k : Connect) → Hook
  connected : (registry : Option Table) (client_id : Text) (refused : Text → Bool) → Hook
  packet : (registry : Option Table) (session : ℕ) (restores : Bool) (topics : List Text) → Hook
  disconnected : (registry : Option Table) (client_id : Text) (session : Option ℕ) → Hook

unfoldable pub run_hook : Crypto → Hook → Sessions → Sessions
unfolding authenticate on_connected on_packet on_disconnected
run_hook x (connect strict registry k) s = (authenticate x strict registry k s).0
run_hook x (connected registry client_id refused) s = on_connected registry client_id refused s
run_hook x (packet registry session restores topics) s =
    on_packet registry session restores topics s
run_hook x (disconnected registry client_id session) s =
    on_disconnected registry client_id session s
