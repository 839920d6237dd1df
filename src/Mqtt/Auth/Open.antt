-- ===== src/Mqtt/Auth/Open.antt =====
-- The live session of a device against the sessions that are open at the broker:
-- addon/petkit_local/mqtt/auth.py, while the registry stays as it is.
pub mod Runs
use petkit_local.Prelude.{
  ℕ, ◌≡◌, ◌≢◌, ◌⊎◌, refl, sym, ap, subst, ◌∙◌, Bool, true, false, not, ◌||◌, ◌==◌, Option, none,
  some, List, [], Text, arith, if◌then◌else◌, Bool-cases, Option-cases, inl, inr,
}
use petkit_local.Prelude.Int.{ℤ}
use petkit_local.Http.Redact.Objects.{int_eq}
use petkit_local.Devices.Ids.{at_id, put_id, drop_id, int_eq_iff, at_id-put_id, at_id-drop_id}
use petkit_local.Devices.Registry.{Device, Table}
use petkit_local.Mqtt.Auth.{
  ClientId, parse_client_id, Crypto, Sessions, mark_mqtt_connected, device_of, device_for_client,
  Connect, is_signed, check_device, check_client, authenticate, is_superseded, end_session, end_of,
  on_disconnected, holder_of, stamp_holder, stamp, link_of, on_packet, subscribe_of, on_connected,
  put_link,
}

-- The client ids of the sessions that are open.
abbrev pub Opened : Type 0
Opened = ℕ → Option Text

abbrev pub opening_of : ℕ → Text → Opened → Opened
opening_of n c opened = λ m. if m == n then some c else opened m

abbrev pub ending_of : ℕ → Opened → Opened
ending_of n opened = λ m. if m == n then none else opened m

-- The live session of a device is open, and its client id is one of the device.
pub record IsOpen (t : Table) (opened : Opened) (pid : ℤ) (n : ℕ) : Type 0 where
  pub client_id : Text
  pub device : Device
  pub is_opened : opened n ≡ some client_id
  pub is_theirs : device_for_client (some t) client_id ≡ some device
  pub is_keyed : device.petkit_id ≡ pid

-- Each live session in the table is open.
abbrev pub AllOpen : Table → Opened → Sessions → Type 0
AllOpen t opened s = (pid : ℤ) (n : ℕ) → at_id pid s.live_sessions ≡ some n → IsOpen t opened pid n

module _ (x : Crypto) (t : Table) where
  -- A session that was open stays so when another one is opened.
  pub opening_kept :
      (opened : Opened) (n : ℕ) (c : Text) (pid : ℤ) (m : ℕ)
      → opened n ≡ none
      → IsOpen t opened pid m
      → IsOpen t (opening_of n c opened) pid m
  opening_kept opened n c pid m fresh o = record {
    client_id = o.client_id;
    device = o.device;
    is_opened = rw (apart (m == n) refl) o.is_opened;
    is_theirs = o.is_theirs;
    is_keyed = o.is_keyed;
  }
    where
      same : (m == n) ≡ true → m ≡ n
      same e = ground arith

      apart : (b : Bool) → (m == n) ≡ b → (m == n) ≡ false
      apart true e = absurd (cc (sym o.is_opened ∙ (ap opened (same e) ∙ fresh)))
      apart false e = e

  -- What a CONNECT does to the sessions.
  abbrev pub Answer : Connect → Sessions → Sessions × Bool → Type 0
  Answer k s r =
      (r.0 ≡ s)
      ⊎ ((d : Device) × (device_for_client (some t) k.client_id ≡ some d)
          × (r.0 ≡ mark_mqtt_connected d.petkit_id k.session s)
          × (r.1 ≡ true))

  pub authenticate-Answer :
      (strict : Bool) (k : Connect) (s : Sessions) → Answer k s (authenticate x strict (some t) k s)
  unfolding authenticate device_for_client
  authenticate-Answer strict k s = client (parse_client_id k.client_id) refl
    where
      known :
          (c : ClientId) (o : Option Device)
          → device_of (some t) (parse_client_id k.client_id) ≡ o
          → Answer k s (check_device x strict k c o s)
      known c none e = unfold check_device in inl refl
      known c (some d) e =
          unfold check_device device_for_client in
          elim (Bool-cases (is_signed x c d k.password || not strict)) [
            | inl h ↦ rw h (inr (d, e, refl, refl))
            | inr h ↦ rw h (inl refl)
          ]

      client :
          (o : Option ClientId)
          → parse_client_id k.client_id ≡ o
          → Answer k s (check_client x strict (some t) k o s)
      client none e = unfold check_client in inl refl
      client (some c) e =
          unfold check_client in known c (device_of (some t) (some c)) (ap (device_of (some t)) e)

  pub mark-AllOpen :
      (opened : Opened) (s : Sessions) (k : Connect) (d : Device)
      → opened k.session ≡ none
      → device_for_client (some t) k.client_id ≡ some d
      → AllOpen t opened s
      → AllOpen t
          (opening_of k.session k.client_id opened)
          (mark_mqtt_connected d.petkit_id k.session s)
  unfolding mark_mqtt_connected
  mark-AllOpen opened s k d fresh theirs h pid n live = elim (Bool-cases (int_eq d.petkit_id pid)) [
    | inl e ↦ record {
      client_id = k.client_id;
      device = d;
      is_opened = ground (arith, at_id-put_id d.petkit_id pid k.session s.live_sessions);
      is_theirs = theirs;
      is_keyed = (int_eq_iff d.petkit_id pid).0 e;
    }
    | inr e ↦
        opening_kept opened k.session k.client_id pid n fresh
          (h pid n (ground (arith, at_id-put_id d.petkit_id pid k.session s.live_sessions)))
  ]

  stamp_holder-live :
      (o : Option ℤ) (restores : Bool) (topics : List Text) (s : Sessions)
      → Sessions.live_sessions (stamp_holder (some t) o restores topics s) ≡ s.live_sessions
  unfolding stamp_holder put_link
  stamp_holder-live none restores topics s = refl
  stamp_holder-live (some pid) restores topics s = known (at_id pid t)
    where
      known :
          (o : Option Device)
          → Sessions.live_sessions (elim o [
            | none ↦ s
            | some d ↦ put_link pid (stamp restores topics (link_of pid s)) s
          ])
            ≡ s.live_sessions
      known none = refl
      known (some d) = refl

  subscribe_of-live :
      (o : Option Device) (refuses : Text → Bool) (s : Sessions)
      → Sessions.live_sessions (subscribe_of o refuses s) ≡ s.live_sessions
  unfolding subscribe_of put_link
  subscribe_of-live none refuses s = refl
  subscribe_of-live (some d) refuses s = refl

  pub on_packet-live :
      (n : ℕ) (restores : Bool) (topics : List Text) (s : Sessions)
      → s.live_sessions ≡ Sessions.live_sessions (on_packet (some t) n restores topics s)
  unfolding on_packet
  on_packet-live n restores topics s =
      sym (stamp_holder-live (holder_of n s.live_sessions) restores topics s)

  pub on_connected-live :
      (client_id : Text) (refuses : Text → Bool) (s : Sessions)
      → s.live_sessions ≡ Sessions.live_sessions (on_connected (some t) client_id refuses s)
  unfolding on_connected
  on_connected-live client_id refuses s =
      sym (subscribe_of-live (device_for_client (some t) client_id) refuses s)

  -- Another session than the one that ends stays open.
  ending_kept :
      (opened : Opened) (n : ℕ) (pid : ℤ) (m : ℕ)
      → m ≢ n
      → IsOpen t opened pid m
      → IsOpen t (ending_of n opened) pid m
  ending_kept opened n pid m ne o = record {
    client_id = o.client_id;
    device = o.device;
    is_opened = rw (apart (m == n) refl) o.is_opened;
    is_theirs = o.is_theirs;
    is_keyed = o.is_keyed;
  }
    where
      same : (m == n) ≡ true → m ≡ n
      same e = ground arith

      apart : (b : Bool) → (m == n) ≡ b → (m == n) ≡ false
      apart true e = absurd (ne (same e))
      apart false e = e

  -- The device of an open session is found by the client id of that session.
  owner :
      (opened : Opened) (n : ℕ) (c : Text) (pid : ℤ) (m : ℕ) (o : Option Device)
      → opened n ≡ some c
      → device_for_client (some t) c ≡ o
      → IsOpen t opened pid m
      → m ≡ n
      → (d : Device) × (o ≡ some d) × (d.petkit_id ≡ pid)
  owner opened n c pid m o is_opened found p same = (
    p.device,
    sym found ∙ (ap (device_for_client (some t)) (cc (p.is_opened, is_opened, same)) ∙ p.is_theirs),
    p.is_keyed,
  )

  pub end-AllOpen :
      (opened : Opened) (n : ℕ) (c : Text) (s : Sessions) (o : Option Device)
      → opened n ≡ some c
      → device_for_client (some t) c ≡ o
      → AllOpen t opened s
      → AllOpen t (ending_of n opened) (end_of o (some n) s)
  unfolding end_of
  end-AllOpen opened n c s none is_opened found h pid m live =
      ending_kept opened n pid m
        (λ same.
          let p = owner opened n c pid m none is_opened found (h pid m live) same in
          absurd (cc (p.1)))
        (h pid m live)
  end-AllOpen opened n c s (some d) is_opened found h pid m live =
      choose (is_superseded (at_id d.petkit_id s.live_sessions) (some n)) refl
        (unfold end_session in live)
    where
      after : Bool → Sessions
      after b = if b then s else record {
        links =
            put_id d.petkit_id (record (link_of d.petkit_id s) { mqtt_connected = false }) s.links;
        live_sessions = drop_id d.petkit_id s.live_sessions;
      }

      theirs : at_id pid s.live_sessions ≡ some m → m ≡ n → d.petkit_id ≡ pid
      theirs there same =
          let p = owner opened n c pid m (some d) is_opened found (h pid m there) same in
          cc (p.1, p.2)

      superseded_not :
          at_id pid s.live_sessions ≡ some m
          → m ≡ n
          → is_superseded (at_id d.petkit_id s.live_sessions) (some n) ≡ false
      superseded_not there same =
          let here : at_id d.petkit_id s.live_sessions ≡ some n =
            cc (theirs there same, there, same) in
          unfold is_superseded in rw here (ground arith)

      choose :
          (b : Bool)
          → is_superseded (at_id d.petkit_id s.live_sessions) (some n) ≡ b
          → at_id pid (Sessions.live_sessions (after b)) ≡ some m
          → IsOpen t (ending_of n opened) pid m
      choose true e there =
          ending_kept opened n pid m (λ same. absurd (cc (superseded_not there same, e)))
            (h pid m there)
      choose false e dropped = elim (Bool-cases (int_eq d.petkit_id pid)) [
        | inl here ↦ absurd (cc (at_id-drop_id d.petkit_id pid s.live_sessions, here, dropped))
        | inr other ↦
            let there : at_id pid s.live_sessions ≡ some m =
              ground (arith, at_id-drop_id d.petkit_id pid s.live_sessions) in
            ending_kept opened n pid m
              (λ same. absurd (cc ((int_eq_iff d.petkit_id pid).1 (theirs there same), other)))
              (h pid m there)
      ]
