-- ===== src/Mqtt/Auth/Open/Runs.antt =====
-- The runs of the broker against addon/petkit_local/mqtt/auth.py: what a device with its flag up has.
use petkit_local.Prelude.{
  ℕ, ◌≡◌, refl, sym, ap, subst, ◌∙◌, Bool, true, false, none, some, List, [], Text, Option-cases,
  inl, inr,
}
use petkit_local.Prelude.Int.{ℤ}
use petkit_local.Devices.Ids.{at_id}
use petkit_local.Devices.Registry.{Table}
use petkit_local.Mqtt.Auth.Open.{
  Opened, opening_of, ending_of, IsOpen, AllOpen, opening_kept, authenticate-Answer, mark-AllOpen,
  on_packet-live, on_connected-live, end-AllOpen,
}
use petkit_local.Mqtt.Auth.TakeOver.{is_connected, IsRouted, hook-IsRouted}
use petkit_local.Mqtt.Auth.{
  connect, connected, packet, disconnected, run_hook, Crypto, Sessions, device_for_client, Connect,
  authenticate, on_disconnected, on_packet, on_connected,
}

module _ (x : Crypto) (t : Table) where
  -- The runs of the broker: a CONNECT of a new session is accepted, or one is refused; the broker signs a
  -- client in for its topics; a packet comes; an open session ends, under the client id that it
  -- was opened with.
  pub data Run : Opened → Sessions → Type 0 where
    start : Run (λ n. none) (record { links = []; live_sessions = [] })
    accepted :
        {opened : Opened} {s : Sessions}
        → Run opened s
        → (strict : Bool) (k : Connect) → opened k.session ≡ none
        → (authenticate x strict (some t) k s).1 ≡ true
        → Run (opening_of k.session k.client_id opened) (authenticate x strict (some t) k s).0
    refused :
        {opened : Opened} {s : Sessions}
        → Run opened s
        → (strict : Bool) (k : Connect) → (authenticate x strict (some t) k s).1 ≡ false
        → Run opened (authenticate x strict (some t) k s).0
    signed_in :
        {opened : Opened} {s : Sessions}
        → Run opened s
        → (client_id : Text) (refuses : Text → Bool)
        → Run opened (on_connected (some t) client_id refuses s)
    received :
        {opened : Opened} {s : Sessions}
        → Run opened s
        → (n : ℕ) (restores : Bool) (topics : List Text)
        → Run opened (on_packet (some t) n restores topics s)
    ended :
        {opened : Opened} {s : Sessions}
        → Run opened s
        → (n : ℕ) (client_id : Text) → opened n ≡ some client_id
        → Run (ending_of n opened) (on_disconnected (some t) client_id (some n) s)

  Run-AllOpen : {opened : Opened} {s : Sessions} → Run opened s → AllOpen t opened s
  unfolding on_disconnected
  Run-AllOpen start = λ pid n live. absurd (cc)
  Run-AllOpen (accepted {opened} {s} run strict k fresh yes_answer) =
      elim (authenticate-Answer x t strict k s) [
        | inl same ↦ λ pid n live.
            opening_kept x t opened k.session k.client_id pid n fresh
              (Run-AllOpen run pid n (cc (same, live)))
        | inr (d, found, marked, good) ↦
            subst (AllOpen t (opening_of k.session k.client_id opened)) (sym marked)
              (mark-AllOpen x t opened s k d fresh found (Run-AllOpen run))
      ]
  Run-AllOpen (refused {opened} {s} run strict k no_answer) =
      elim (authenticate-Answer x t strict k s) [
        | inl same ↦ subst (AllOpen t opened) (sym same) (Run-AllOpen run)
        | inr (d, found, marked, good) ↦ absurd (cc (good, no_answer))
      ]
  Run-AllOpen (signed_in {opened} {s} run client_id refuses) = λ pid n live.
      Run-AllOpen run pid n (ap (at_id pid) (on_connected-live x t client_id refuses s) ∙ live)
  Run-AllOpen (received {opened} {s} run n restores topics) = λ pid m live.
      Run-AllOpen run pid m (ap (at_id pid) (on_packet-live x t n restores topics s) ∙ live)
  Run-AllOpen (ended {opened} {s} run n client_id is_opened) =
      end-AllOpen x t opened n client_id s (device_for_client (some t) client_id) is_opened refl
        (Run-AllOpen run)

  Run-IsRouted : {opened : Opened} {s : Sessions} → Run opened s → IsRouted s
  unfolding is_connected run_hook
  Run-IsRouted start = record { routed = λ pid up. absurd (cc) }
  Run-IsRouted (accepted {opened} {s} run strict k fresh good) =
      hook-IsRouted x (connect strict (some t) k) s (Run-IsRouted run)
  Run-IsRouted (refused {opened} {s} run strict k bad) =
      hook-IsRouted x (connect strict (some t) k) s (Run-IsRouted run)
  Run-IsRouted (signed_in {opened} {s} run client_id refuses) =
      hook-IsRouted x (connected (some t) client_id refuses) s (Run-IsRouted run)
  Run-IsRouted (received {opened} {s} run n restores topics) =
      hook-IsRouted x (packet (some t) n restores topics) s (Run-IsRouted run)
  Run-IsRouted (ended {opened} {s} run n client_id is_opened) =
      hook-IsRouted x (disconnected (some t) client_id (some n)) s (Run-IsRouted run)

  -- While the registry stays as it is, in every run of the broker whose sessions have different numbers
  -- while they are open and end under the client id that they were opened with, a device whose
  -- commands go over MQTT has a live session that is open at the broker, with a client id under
  -- which the registry finds that device.
  pub Run-IsOpen :
      {opened : Opened} {s : Sessions}
      → Run opened s
      → (pid : ℤ) → is_connected (at_id pid s.links) ≡ true
      → (n : ℕ) × (at_id pid s.live_sessions ≡ some n) × IsOpen t opened pid n
  Run-IsOpen {opened} {s} run pid up = elim (Option-cases (at_id pid s.live_sessions)) [
    | inl e ↦ absurd ((Run-IsRouted run).routed pid up e)
    | inr (n, e) ↦ (n, e, Run-AllOpen run pid n e)
  ]
