-- ===== src/Mqtt/Auth/Teardown.antt =====
-- Sessions that one device opens one after the other: addon/petkit_local/mqtt/auth.py.
use petkit_local.Prelude.{
  ℕ, ◌≡◌, refl, ◌∙◌, Bool, true, false, Option, none, some, [], Text, ◌==◌, arith,
}
use petkit_local.Prelude.Int.{ℤ}
use petkit_local.Devices.Ids.{at_id, int_eq_refl, at_id-put_id, at_id-drop_id}
use petkit_local.Devices.Registry.{Device, Table}
use petkit_local.Mqtt.Auth.{
  Crypto, Sessions, Connect, ClientId, mark_mqtt_connected, device_of, device_for_client,
  check_device, check_client, authenticate, parse_client_id, is_superseded, end_session, end_of,
  on_disconnected, link_of,
}
use petkit_local.Mqtt.Auth.TakeOver.{is_connected}

accepted_marks :
    (x : Crypto) (strict : Bool) (t : Table) (k : Connect) (d : Device) (s : Sessions)
    → device_for_client (some t) k.client_id ≡ some d
    → (authenticate x strict (some t) k s).1 ≡ true
    → (authenticate x strict (some t) k s).0 ≡ mark_mqtt_connected d.petkit_id k.session s
unfolding authenticate device_for_client
accepted_marks x strict t k d s = known (parse_client_id k.client_id)
  where
    device :
        (c : ClientId) (o : Option Device)
        → o ≡ some d
        → (check_device x strict k c o s).1 ≡ true
        → (check_device x strict k c o s).0 ≡ mark_mqtt_connected d.petkit_id k.session s
    device c none e a = absurd (cc)
    device c (some e) same a = unfold check_device in ground arith

    known :
        (o : Option ClientId)
        → device_of (some t) o ≡ some d
        → (check_client x strict (some t) k o s).1 ≡ true
        → (check_client x strict (some t) k o s).0 ≡ mark_mqtt_connected d.petkit_id k.session s
    known none e a = unfold device_of in absurd (cc)
    known (some c) e a = unfold check_client in device c (device_of (some t) (some c)) e a

-- What a session that ends does to a state in which another one, or the same one, was marked.
mark-live :
    (pid : ℤ) (session : ℕ) (s : Sessions)
    → at_id pid (mark_mqtt_connected pid session s).live_sessions ≡ some session
unfolding mark_mqtt_connected
mark-live pid session s = at_id-put_id pid pid session s.live_sessions ∙ rw (int_eq_refl pid) refl

mark-connected :
    (pid : ℤ) (session : ℕ) (s : Sessions)
    → is_connected (at_id pid (mark_mqtt_connected pid session s).links) ≡ true
unfolding mark_mqtt_connected is_connected
mark-connected pid session s = ground (
  arith,
  at_id-put_id pid pid (record { online = true; mqtt_connected = true; mqtt_subscriptions = [] })
      s.links,
  int_eq_refl pid,
)

other_kept :
    (pid : ℤ) (live session : ℕ) (s : Sessions)
    → at_id pid s.live_sessions ≡ some live
    → (live == session) ≡ false
    → end_session pid (some session) s ≡ s
unfolding end_session is_superseded
other_kept pid live session s h ne = rw (h, ne) refl

same_ended :
    (pid : ℤ) (session : ℕ) (s : Sessions)
    → at_id pid s.live_sessions ≡ some session
    → (is_connected (at_id pid (end_session pid (some session) s).links) ≡ false)
      × (at_id pid (end_session pid (some session) s).live_sessions ≡ none)
unfolding end_session is_superseded is_connected
same_ended pid session s h =
    let same : (session == session) ≡ true = ground arith in
    rw (h, same)
      (
        ground (
          arith,
          at_id-put_id pid pid (record (link_of pid s) { mqtt_connected = false }) s.links,
          int_eq_refl pid,
        ),
        at_id-drop_id pid pid s.live_sessions ∙ rw (int_eq_refl pid) refl,
      )

disconnected_of :
    (t : Table) (client_id : Text) (d : Device) (session : Option ℕ) (s : Sessions)
    → device_for_client (some t) client_id ≡ some d
    → on_disconnected (some t) client_id session s ≡ end_session d.petkit_id session s
unfolding on_disconnected end_of
disconnected_of t client_id d session s e = rw e refl

-- Once a CONNECT of a known device has been accepted, its commands go over MQTT; the end of an older
-- session of the same device, under whichever of its client ids, changes nothing; and the end of the
-- accepted session takes the flag down and forgets the session.
pub on_disconnected-authenticate :
    (x : Crypto) (strict : Bool) (t : Table) (k : Connect) (d : Device) (s : Sessions)
    (old_id : Text) (old : ℕ)
    → device_for_client (some t) k.client_id ≡ some d
    → device_for_client (some t) old_id ≡ some d
    → (k.session == old) ≡ false
    → (authenticate x strict (some t) k s).1 ≡ true
    → (is_connected (at_id d.petkit_id (authenticate x strict (some t) k s).0.links) ≡ true)
      × (on_disconnected (some t) old_id (some old) (authenticate x strict (some t) k s).0
          ≡ (authenticate x strict (some t) k s).0)
      × (is_connected (
            at_id d.petkit_id (
              Sessions.links (
                on_disconnected
                  (some t)
                  k.client_id
                  (some k.session)
                  (authenticate x strict (some t) k s).0)))
          ≡ false)
      × (at_id d.petkit_id (
            Sessions.live_sessions (
              on_disconnected
                (some t)
                k.client_id
                (some k.session)
                (authenticate x strict (some t) k s).0))
          ≡ none)
on_disconnected-authenticate x strict t k d s old_id old e f ne a =
    let now = mark_mqtt_connected d.petkit_id k.session s in
    let live = mark-live d.petkit_id k.session s in
    let (down, gone) = same_ended d.petkit_id k.session now live in
    rw
      (
        accepted_marks x strict t k d s e a,
        disconnected_of t old_id d (some old) now f,
        disconnected_of t k.client_id d (some k.session) now e,
      )
      (
        mark-connected d.petkit_id k.session s,
        other_kept d.petkit_id k.session old now live ne,
        down,
        gone,
      )
