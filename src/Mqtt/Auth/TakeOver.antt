-- ===== src/Mqtt/Auth/TakeOver.antt =====
-- The flag that routes commands over MQTT, against the session that carries them:
-- addon/petkit_local/mqtt/auth.py.
use petkit_local.Prelude.{
  ℕ, ◌≡◌, ◌≢◌, refl, sym, subst, ◌∙◌, Bool, true, false, not, ◌||◌, Option, none, some, List, [],
  ◌∷◌, Text, arith, if◌then◌else◌, Bool-cases, inl, inr,
}
use petkit_local.Prelude.Int.{ℤ}
use petkit_local.Http.Redact.Objects.{int_eq}
use petkit_local.Devices.Ids.{
  Ids, at_id, put_id, drop_id, int_eq_iff, int_eq_refl, at_id-put_id, at_id-drop_id,
}
use petkit_local.Devices.Registry.{Device, Table}
use petkit_local.Mqtt.Auth.{
  ClientId, parse_client_id, Crypto, Link, Sessions, link_of, put_link, mark_mqtt_connected,
  device_of, device_for_client, Connect, is_signed, check_device, check_client, authenticate,
  is_superseded, end_session, end_of, on_disconnected, holder_of, stamp, stamp_holder, on_packet,
  subscribe_of, on_connected, Hook, connect, connected, packet, disconnected, run_hook,
}

-- The flag of a device that has none is down.
unfoldable pub is_connected : Option Link → Bool
is_connected none = false
is_connected (some k) = k.mqtt_connected

-- A device whose commands go over MQTT has a live session.
pub record IsRouted (s : Sessions) : Type 0 where
  pub routed :
      (pid : ℤ) → is_connected (at_id pid s.links) ≡ true → at_id pid s.live_sessions ≢ none

link_of-connected :
    (pid : ℤ) (s : Sessions) → (link_of pid s).mqtt_connected ≡ is_connected (at_id pid s.links)
unfolding link_of is_connected
link_of-connected pid s = known (at_id pid s.links)
  where
    known :
        (o : Option Link)
        → Link.mqtt_connected (elim o [
          | none ↦ record { online = false; mqtt_connected = false; mqtt_subscriptions = [] }
          | some k ↦ k
        ])
          ≡ is_connected o
    known none = refl
    known (some k) = refl

-- The flag of a device after that of one has been set.
connected-put :
    (pid j : ℤ) (k : Link) (links : Ids Link)
    → is_connected (at_id j (put_id pid k links))
      ≡ (if int_eq pid j then k.mqtt_connected else is_connected (at_id j links))
unfolding is_connected
connected-put pid j k links = ground (arith, at_id-put_id pid j k links)

mark-IsRouted :
    (pid : ℤ) (session : ℕ) (s : Sessions)
    → IsRouted s
    → IsRouted (mark_mqtt_connected pid session s)
unfolding mark_mqtt_connected
mark-IsRouted pid session s h = record {
  routed = λ j up. elim (Bool-cases (int_eq pid j)) [
    | inl e ↦ rw (at_id-put_id pid j session s.live_sessions, e) (cc)
    | inr e ↦
        rw (at_id-put_id pid j session s.live_sessions, e)
          (h.routed j (
            ground (
              arith,
              connected-put pid j
                  (record { online = true; mqtt_connected = true; mqtt_subscriptions = [] })
                  s.links,
            )))
  ];
}

-- A link that is up only if a session is live, or if it was up before.
put_link-IsRouted :
    (pid : ℤ) (k : Link) (s : Sessions)
    → (k.mqtt_connected ≡ true → at_id pid s.live_sessions ≢ none)
    → IsRouted s
    → IsRouted (put_link pid k s)
unfolding put_link
put_link-IsRouted pid k s live h = record {
  routed = λ j up. elim (Bool-cases (int_eq pid j)) [
    | inl e ↦
        subst (λ i. at_id i s.live_sessions ≢ none) ((int_eq_iff pid j).0 e)
          (live (ground (arith, connected-put pid j k s.links)))
    | inr e ↦ h.routed j (ground (arith, connected-put pid j k s.links))
  ];
}

end-IsRouted :
    (pid : ℤ) (session : Option ℕ) (s : Sessions)
    → IsRouted s
    → IsRouted (end_session pid session s)
unfolding end_session
end-IsRouted pid session s h = choose (is_superseded (at_id pid s.live_sessions) session)
  where
    down : Link
    down = record (link_of pid s) { mqtt_connected = false }

    ended : Sessions
    ended = record { links = put_id pid down s.links; live_sessions = drop_id pid s.live_sessions }

    choose : (b : Bool) → IsRouted (if b then s else ended)
    choose true = h
    choose false = record {
      routed = λ j up. elim (Bool-cases (int_eq pid j)) [
        | inl e ↦ absurd (cc (connected-put pid j down s.links, e))
        | inr e ↦
            rw (at_id-drop_id pid j s.live_sessions, e)
              (h.routed j (ground (arith, connected-put pid j down s.links)))
      ];
    }

-- Setting other things than the flag.
kept-IsRouted :
    (pid : ℤ) (k : Link) (s : Sessions)
    → k.mqtt_connected ≡ (link_of pid s).mqtt_connected
    → IsRouted s
    → IsRouted (put_link pid k s)
kept-IsRouted pid k s same h =
    put_link-IsRouted pid k s (λ up. h.routed pid (sym (same ∙ link_of-connected pid s) ∙ up)) h

holder_of-live :
    (session : ℕ) (live : Ids ℕ) (pid : ℤ)
    → holder_of session live ≡ some pid
    → at_id pid live ≢ none
unfolding holder_of
holder_of-live session [] pid h = absurd (cc)
holder_of-live session ((j, l) ∷ live) pid h = elim (Bool-cases (int_eq j pid)) [
  | inl e ↦ rw e (cc)
  | inr e ↦ rw e (holder_of-live session live pid (ground (arith, int_eq_refl j)))
]

packet-IsRouted :
    (registry : Option Table) (o : Option ℤ) (restores : Bool) (topics : List Text) (s : Sessions)
    → ((pid : ℤ) → o ≡ some pid → at_id pid s.live_sessions ≢ none)
    → IsRouted s
    → IsRouted (stamp_holder registry o restores topics s)
unfolding stamp_holder
packet-IsRouted registry none restores topics s live h = h
packet-IsRouted none (some pid) restores topics s live h = h
packet-IsRouted (some t) (some pid) restores topics s live h = known (at_id pid t)
  where
    known :
        (o : Option Device)
        → IsRouted
            (elim o [ none ↦ s | some d ↦ put_link pid (stamp restores topics (link_of pid s)) s ])
    known none = h
    known (some d) =
        put_link-IsRouted pid (stamp restores topics (link_of pid s)) s (λ up. live pid refl) h

abbrev StaysRouted : Sessions × Bool → Type 0
StaysRouted r = IsRouted r.0

check-IsRouted :
    (x : Crypto) (strict : Bool) (k : Connect) (c : ClientId) (o : Option Device) (s : Sessions)
    → IsRouted s
    → IsRouted (check_device x strict k c o s).0
unfolding check_device
check-IsRouted x strict k c none s h = h
check-IsRouted x strict k c (some d) s h = choose (is_signed x c d k.password || not strict)
  where
    choose :
        (b : Bool)
        → StaysRouted
            (if b then (mark_mqtt_connected d.petkit_id k.session s, true) else (s, false))
    choose true = mark-IsRouted d.petkit_id k.session s h
    choose false = h

client-IsRouted :
    (x : Crypto) (strict : Bool) (registry : Option Table) (k : Connect) (o : Option ClientId)
    (s : Sessions)
    → IsRouted s
    → IsRouted (check_client x strict registry k o s).0
unfolding check_client
client-IsRouted x strict none k o s h = h
client-IsRouted x strict (some t) k none s h = h
client-IsRouted x strict (some t) k (some c) s h =
    check-IsRouted x strict k c (device_of (some t) (some c)) s h

end_of-IsRouted :
    (o : Option Device) (session : Option ℕ) (s : Sessions)
    → IsRouted s
    → IsRouted (end_of o session s)
unfolding end_of
end_of-IsRouted none session s h = h
end_of-IsRouted (some d) session s h = end-IsRouted d.petkit_id session s h

subscribe-IsRouted :
    (o : Option Device) (refused : Text → Bool) (s : Sessions)
    → IsRouted s
    → IsRouted (subscribe_of o refused s)
unfolding subscribe_of
subscribe-IsRouted none refused s h = h
subscribe-IsRouted (some d) refused s h = kept-IsRouted d.petkit_id _ s refl h

pub hook-IsRouted : (x : Crypto) (k : Hook) (s : Sessions) → IsRouted s → IsRouted (run_hook x k s)
unfolding run_hook
hook-IsRouted x (connect strict registry k) s h =
    unfold authenticate in client-IsRouted x strict registry k (parse_client_id k.client_id) s h
hook-IsRouted x (connected registry client_id refused) s h =
    unfold on_connected in subscribe-IsRouted (device_for_client registry client_id) refused s h
hook-IsRouted x (packet registry session restores topics) s h =
    unfold on_packet in
    packet-IsRouted registry (holder_of session s.live_sessions) restores topics s
      (holder_of-live session s.live_sessions) h
hook-IsRouted x (disconnected registry client_id session) s h =
    unfold on_disconnected in end_of-IsRouted (device_for_client registry client_id) session s h
