-- ===== src/Mqtt/Relay.antt =====
-- The BLE relay: addon/petkit_local/mqtt/ble_relay.py. The relay's two tables and the envelopes that
-- it hands to the bridge are its state; whether the bridge is connected and the time, in seconds, are
-- arguments of each call, once for every point at which the code reads them after an await. An envelope is the constructor of its method with what its params hold.
pub mod Polling
pub mod Writing
use petkit_local.Prelude.{
  ℕ, zero, suc, ◌+◌, ◌-◌, ◌%◌, String, Bool, true, false, ◌&&◌, not, Option, none, some, List, [],
  ◌∷◌, ◌++◌, str_eq, ltb, ◌==◌, if◌then◌else◌, filter, Text, Bytes,
}
use petkit_local.Prelude.Int.{ℤ, pos, negsuc}
use petkit_local.Ble.Framing.{Codec, ble_command_frame}

-- The parts of a BLEDevice that the relay reads.
pub record Accessory : Type 0 where
  pub petkit_id : ℕ
  pub ble_type : String
  pub ble_type_int : ℕ
  pub wire_mac : Text
  pub link_with : ℕ
  pub interval : ℤ

pub data Envelope : Type 0 where
  -- thing.service.connect: the action, how long to hold, the accessory's type and MAC
  connect : ℕ → Option ℕ → ℕ → Text → Envelope
  -- thing.service.ble: the accessory's type and MAC, the command and the frame
  ble : ℕ → Text → ℕ → Text → Envelope
  -- thing.service.ble_relay_update: the update action
  ble_relay_update : ℕ → Envelope

-- What the bridge is given to publish: the parent's id and the envelope, with its time.
pub record Published : Type 0 where
  pub parent : ℕ
  pub envelope : Envelope
  pub timestamp : ℕ

abbrev pub Table : Type 0
Table = ℕ → Option ℕ

abbrev pub or_0 : Option ℕ → ℕ
or_0 none = 0
or_0 (some v) = v

-- table.get(k, 0)
abbrev pub get_or_0 : Table → ℕ → ℕ
get_or_0 t k = or_0 (t k)

-- table[k] = v
unfoldable pub put : ℕ → ℕ → Table → Table
put k v t = λ j. if j == k then some v else t j

pub record Relay : Type 0 where
  pub poll_ts : Table
  pub seq : Table
  pub sent : List Published

abbrev pub session_hold_seconds : ℕ
session_hold_seconds = 30

publish : ℕ → Envelope → ℕ → Relay → Relay
publish parent envelope now st = record st {
  sent = st.sent ++ record { parent = parent; envelope = envelope; timestamp = now } ∷ [];
}

-- _ble_connect
unfoldable pub ble_connect : Bool → ℕ → ℕ → Accessory → ℕ → Relay → Relay
unfolding publish
ble_connect connected now parent accessory action st =
    if connected
    then publish parent
        (connect action (if action == 0 then none else some session_hold_seconds)
          accessory.ble_type_int accessory.wire_mac)
        now st
    else st

-- What a call returns, with the state it leaves.
pub record Outcome : Type 0 where
  pub returned : Bool
  pub relay : Relay

-- self._bridge.publish_service(…), whose result every caller drops: without a connection nothing is
-- sent. The first argument is the time of the call, `none` when the bridge has no client then.
publish_service : Option ℕ → ℕ → Envelope → Relay → Relay
unfolding publish
publish_service none parent envelope st = st
publish_service (some now) parent envelope st = publish parent envelope now st

module _ (k : Codec) where
  publish_frame : Option ℕ → ℕ → Accessory → ℕ → Option Text → Relay → Outcome
  unfolding publish_service
  publish_frame later parent accessory cmd none st = record { returned = false; relay = st }
  publish_frame later parent accessory cmd (some frame) st = record {
    returned = true;
    relay =
        publish_service later parent (ble accessory.ble_type_int accessory.wire_mac cmd frame) st;
  }

  -- publish_ble_command: `connected` and `now` when it is called, `later` the time at which it gives the
  -- frame to the bridge, `none` when the connection was lost while the session was being opened
  unfoldable pub publish_ble_command :
      Bool → ℕ → Option ℕ → ℕ → Accessory → ℕ → Bytes → Relay → Outcome
  unfolding ble_connect put publish_frame
  publish_ble_command connected now later parent accessory cmd payload st =
      let opened = ble_connect connected now parent accessory 1 st in
      let seq = get_or_0 opened.seq accessory.petkit_id in
      let bumped = record opened { seq = put accessory.petkit_id ((seq + 1) % 256) opened.seq } in
      if connected
      then publish_frame later parent accessory cmd (ble_command_frame k cmd seq payload) bumped
      else record { returned = false; relay = st }

-- self._ble_poll_ts[id] = now
arm : Accessory → ℕ → Relay → Relay
unfolding put
arm accessory now st = record st { poll_ts = put accessory.petkit_id now st.poll_ts }

-- request_ble_reading
unfoldable pub request_ble_reading : Bool → ℕ → ℕ → Accessory → Relay → Outcome
unfolding ble_connect arm
request_ble_reading connected now parent accessory st =
    if connected
    then record {
      returned = true;
      relay = arm accessory now (ble_connect connected now parent accessory 1 st);
    }
    else record { returned = false; relay = st }

-- publish_relay_update
unfoldable pub publish_relay_update : Bool → ℕ → ℕ → Relay → Outcome
unfolding publish
publish_relay_update connected now parent st =
    if connected
    then record { returned = true; relay = publish parent (ble_relay_update 1) now st }
    else record { returned = false; relay = st }

-- non_k3_for_parent
unfoldable pub non_k3_for_parent : ℕ → List Accessory → List Accessory
non_k3_for_parent parent accessories =
    filter (λ a. a.link_with == parent && not (str_eq a.ble_type "k3")) accessories

-- … or 240
unfoldable or_240 : ℤ → ℤ
or_240 (pos zero) = pos 240
or_240 (pos (suc n)) = pos (suc n)
or_240 (negsuc n) = negsuc n

-- getattr(ble, "interval", 240) or 240
unfoldable pub interval_of : Accessory → ℤ
unfolding or_240
interval_of a = or_240 a.interval

-- a - b and a < b on the integers
difference : ℕ → ℕ → ℤ
difference a b = if ltb a b then negsuc (b - suc a) else pos (a - b)

less_than : ℤ → ℤ → Bool
less_than (pos m) (pos n) = ltb m n
less_than (pos m) (negsuc n) = false
less_than (negsuc m) (pos n) = true
less_than (negsuc m) (negsuc n) = ltb n m

-- Whether the accessory was asked less than its interval ago.
unfoldable pub is_throttled : ℕ → Accessory → Relay → Bool
unfolding interval_of difference less_than
is_throttled now a st = less_than (difference now (get_or_0 st.poll_ts a.petkit_id)) (interval_of a)

-- The time of a turn, if the bridge is connected then.
abbrev pub is_linked : Option ℕ → Bool
is_linked none = false
is_linked (some now) = true

-- The turns of the accessories, by their ids, are later than the time of the poll by the awaits.
poll_one : ℕ → (ℕ → Option ℕ) → ℕ → Accessory → Relay → Relay
unfolding is_throttled arm ble_connect
poll_one now turn parent a st =
    if is_throttled now a st
    then st
    else ble_connect (is_linked (turn a.petkit_id)) (or_0 (turn a.petkit_id)) parent a 1
        (arm a now st)

poll_each : ℕ → (ℕ → Option ℕ) → ℕ → List Accessory → Relay → Relay
unfolding poll_one
poll_each now turn parent [] st = st
poll_each now turn parent (a ∷ rest) st =
    poll_each now turn parent rest (poll_one now turn parent a st)

-- _poll_ble_accessories
unfoldable pub poll_ble_accessories : Bool → ℕ → (ℕ → Option ℕ) → ℕ → List Accessory → Relay → Relay
unfolding poll_each non_k3_for_parent
poll_ble_accessories connected now turn parent accessories st =
    if connected then poll_each now turn parent (non_k3_for_parent parent accessories) st else st
