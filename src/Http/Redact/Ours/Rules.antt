-- ===== src/Http/Redact/Ours/Rules.antt =====
-- That the rules of addon/petkit_local/http/redact/rules.py keep what holds of every item.
use petkit_local.Prelude.{
  String, Bool, true, false, ◌&&◌, Option, none, some, List, [], ◌∷◌, All, if◌then◌else◌,
}
use petkit_local.Prelude.Json.{Json, Fields, lookup_field}
use petkit_local.Http.Redact.{BodyPath, Out, Device, Policy}
use petkit_local.Http.Redact.Objects.{put_present, put_field}
use petkit_local.Http.Redact.Walker.{substitute}
use petkit_local.Http.Redact.Uploads.{
  rewrite_uploads, match_oss_sts, replace_window, match_cvr_capacity, replace_capacity,
  capacity_window, product_window, replace_windows, keep_settings, about_us, own_id, adopt_secret,
  match_secret, keep_ours, match_locale,
}
use petkit_local.Http.Redact.Rules.{
  Rewritten, patch, our_servers, our_mqtt, match_server, match_mqtt,
}
use petkit_local.Http.Redact.Ours.{AllFields, All-put_field, All-put_present, HoldsOfOurs, OursHold}

-- Either branch of a test.
node-if {ℓ} :
    (P : Fields → Type ℓ) (b : Bool) (x y : Rewritten)
    → P x.node
    → P y.node
    → P (if b then x else y).node
node-if P true x y p q = p
node-if P false x y p q = q

module _ {ℓ} (P : String → Json → Type ℓ) where
  patch-Holds :
      (ours : List (String × Json)) (fs : Fields)
      → All (λ e. P e.0 e.1) ours
      → AllFields P fs
      → AllFields P (patch ours fs)
  unfolding patch
  patch-Holds [] fs all h = h
  patch-Holds ((k, v) ∷ ours) fs (o, all) h =
      patch-Holds ours (put_present k v fs) all (All-put_present P k v fs o h)

  match_server-Holds :
      (d : Option Device) (o : OursHold P d) (path : BodyPath) (fs : Fields) (out : Out)
      → AllFields P fs
      → AllFields P (match_server d path fs out).node
  unfolding match_server our_servers
  match_server-Holds none o path fs out h = h
  match_server-Holds (some d) o path fs out h =
      node-if (AllFields P) _ _ _
        (patch-Holds (our_servers d) fs (o.api_servers, (o.ip_servers, (o.dns, tt))) h) h

  match_mqtt-Holds :
      (d : Option Device) (o : OursHold P d) (path : BodyPath) (fs : Fields) (out : Out)
      → AllFields P fs
      → AllFields P (match_mqtt d path fs out).node
  unfolding match_mqtt our_mqtt
  match_mqtt-Holds none o path fs out h = h
  match_mqtt-Holds (some d) o path fs out h =
      node-if (AllFields P) _ _ _
        (patch-Holds (our_mqtt d) fs
          (o.mqtt_host, (o.product_key, (o.device_name, (o.device_secret, (o.iot_instance, tt)))))
          h)
        h

  rewrite_uploads-Holds :
      (real : Bool) (d : Device) (o : HoldsOfOurs P d) (path : BodyPath) (caps : Option Json)
      (fs : Fields) (out : Out)
      → AllFields P fs
      → AllFields P (rewrite_uploads real d path caps fs out).node
  unfolding rewrite_uploads
  rewrite_uploads-Holds real d o path none fs out h = h
  rewrite_uploads-Holds true d o path (some caps) fs out h = h
  rewrite_uploads-Holds false d o path (some caps) fs out h =
      All-put_field P "type" d.capability_type (put_field "capability" d.capability fs)
        o.capability_type (All-put_field P "capability" d.capability fs o.capability h)

  match_oss_sts-Holds :
      (policy : Policy) (d : Option Device) (o : OursHold P d) (path : BodyPath) (fs : Fields)
      (out : Out)
      → AllFields P fs
      → AllFields P (match_oss_sts policy d path fs out).node
  unfolding match_oss_sts
  match_oss_sts-Holds policy none o path fs out h = h
  match_oss_sts-Holds policy (some d) o path fs out h =
      rewrite_uploads-Holds policy.media_to_real_oss d o path _ fs out h

  replace_window-Holds :
      (k : String) (ours : Json) (path : BodyPath) (theirs : Option Json) (done : Rewritten)
      → P k ours
      → AllFields P done.node
      → AllFields P (replace_window k ours path theirs done).node
  unfolding replace_window
  replace_window-Holds k ours path none done o h = h
  replace_window-Holds k ours path (some theirs) done o h =
      node-if (AllFields P) _ _ _ (All-put_field P k ours done.node o h) h

  replace_windows-Holds :
      (d : Device) (o : HoldsOfOurs P d) (path : BodyPath) (fs : Fields) (out : Out)
      → AllFields P fs
      → AllFields P (replace_windows d path fs out).node
  unfolding replace_windows replace_capacity
  replace_windows-Holds d o path fs out h =
      replace_window-Holds "cloudProduct" d.cloud_product path
        (product_window (lookup_field "cloudProduct" fs)) (replace_capacity d path fs out)
        o.cloud_product
        (replace_window-Holds "capacity" d.capacity path
          (capacity_window (lookup_field "capacity" fs)) (record { node = fs; out = out })
          o.capacity h)

  match_cvr_capacity-Holds :
      (policy : Policy) (d : Option Device) (o : OursHold P d) (path : BodyPath) (fs : Fields)
      (out : Out)
      → AllFields P fs
      → AllFields P (match_cvr_capacity policy d path fs out).node
  unfolding match_cvr_capacity
  match_cvr_capacity-Holds policy none o path fs out h = h
  match_cvr_capacity-Holds policy (some d) o path fs out h =
      node-if (AllFields P) (d.is_camera && policy.local_cvr_window) (replace_windows d path fs out)
        (record { node = fs; out = out }) (replace_windows-Holds d o path fs out h) h

  own_id-Holds :
      (d : Device) (o : HoldsOfOurs P d) (path : BodyPath) (id : Option Json) (fs : Fields)
      (out : Out)
      → AllFields P fs
      → AllFields P (own_id d path id fs out).node
  unfolding own_id
  own_id-Holds d o path none fs out h = h
  own_id-Holds d o path (some id) fs out h =
      node-if (AllFields P) _ _ _ h (All-put_field P "id" _ fs o.id h)

  adopt_secret-Holds :
      (d : Device) (o : HoldsOfOurs P d) (path : BodyPath) (found : Option Json) (fs : Fields)
      (out : Out)
      → AllFields P fs
      → AllFields P (adopt_secret d path found fs out).node
  unfolding adopt_secret
  adopt_secret-Holds d o path (some (Json.str s)) fs out h =
      node-if (AllFields P) (about_us d fs)
        (own_id d path (lookup_field "id" fs) fs (record out { api_secret = some (Json.str s) }))
        (record { node = fs; out = out }) (own_id-Holds d o path _ fs _ h) h
  adopt_secret-Holds d o path other fs out h = h

  match_secret-Holds :
      (d : Option Device) (o : OursHold P d) (path : BodyPath) (fs : Fields) (out : Out)
      → AllFields P fs
      → AllFields P (match_secret d path fs out).node
  unfolding match_secret
  match_secret-Holds none o path fs out h = h
  match_secret-Holds (some d) o path fs out h = adopt_secret-Holds d o path _ fs out h

  keep_ours-Holds :
      (k : String) (ours : Json) (path : BodyPath) (theirs : Option Json) (done : Rewritten)
      → P k ours
      → AllFields P done.node
      → AllFields P (keep_ours k ours path theirs done).node
  unfolding keep_ours
  keep_ours-Holds k ours path none done o h = h
  keep_ours-Holds k ours path (some v) done o h =
      node-if (AllFields P) _ _ _ h (All-put_field P k ours done.node o h)

  keep_settings-Holds :
      (d : Device) (o : HoldsOfOurs P d) (path : BodyPath) (fs : Fields) (out : Out)
      → AllFields P fs
      → AllFields P (keep_settings d path fs out).node
  unfolding keep_settings
  keep_settings-Holds d o path fs out h =
      keep_ours-Holds "locale" d.locale path _ _ o.locale
        (keep_ours-Holds "timezone" d.timezone_offset path _ _ o.timezone h)

  match_locale-Holds :
      (d : Option Device) (o : OursHold P d) (path : BodyPath) (fs : Fields) (out : Out)
      → AllFields P fs
      → AllFields P (match_locale d path fs out).node
  unfolding match_locale
  match_locale-Holds none o path fs out h = h
  match_locale-Holds (some d) o path fs out h =
      node-if (AllFields P) (about_us d fs) (keep_settings d path fs out)
        (record { node = fs; out = out }) (keep_settings-Holds d o path fs out h) h

  pub substitute-Holds :
      (policy : Policy) (o : OursHold P policy.device) (path : BodyPath) (fs : Fields) (out : Out)
      → AllFields P fs
      → AllFields P (substitute policy path fs out).node
  unfolding substitute
  substitute-Holds policy o path fs out h = match_locale-Holds policy.device o path _ _ (
      match_secret-Holds policy.device o path _ _ (
        match_cvr_capacity-Holds policy policy.device o path _ _ (
          match_oss_sts-Holds policy policy.device o path _ _ (
            match_mqtt-Holds policy.device o path _ _
              (match_server-Holds policy.device o path fs out h)))))
