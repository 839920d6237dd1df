-- ===== src/Http/Redact/Walker/Plain.antt =====
-- Objects that no rule of addon/petkit_local/http/redact/rules.py rewrites: they have none of the keys
-- that the rules look for.
use petkit_local.Prelude.{
  or-false, or-left, or-right, ◌≡◌, refl, String, Bool, true, false, ◌&&◌, Option, none, some, List,
  [], ◌∷◌, any, str_eq, eq_iff, Bool-cases, inl, inr, if◌then◌else◌,
}
use petkit_local.Prelude.Json.{Fields, end, field, lookup_field}
use petkit_local.Http.Redact.{BodyPath, Out, Device, Policy}
use petkit_local.Http.Redact.Objects.{any_field, has_field, any_key, all_keys}
use petkit_local.Http.Redact.Rules.{match_server, our_servers, match_mqtt}
use petkit_local.Http.Redact.Uploads.{
  match_oss_sts, match_cvr_capacity, replace_windows, replace_capacity, match_secret, match_locale,
  keep_settings, upload_list, rewrite_uploads, capacity_window, product_window, replace_window,
  adopt_secret, keep_ours, about_us,
}
use petkit_local.Http.Redact.Walker.{substitute}

abbrev watched : List String
watched =
    "apiServers" ∷ "ipServers" ∷ "dns" ∷ "mqttHost" ∷ "productKey" ∷ "deviceName" ∷ "deviceSecret"
    ∷ "capability" ∷ "capacity" ∷ "cloudProduct" ∷ "secret" ∷ "timezone" ∷ "locale" ∷ []

-- A key that the rules look for.
abbrev pub is_watched : String → Bool
is_watched k = any (str_eq k) watched

-- The object has such a key.
abbrev pub is_touched : Fields → Bool
is_touched fs = any_field (λ k v. is_watched k) fs

has_field-watched :
    (k : String)
    → is_watched k ≡ true
    → (fs : Fields) → is_touched fs ≡ false
    → has_field k fs ≡ false
unfolding any_field has_field
has_field-watched k w end h = refl
has_field-watched k w (field j v fs) h =
    or-false (str_eq j k) _ (differs (or-left (is_watched j) _ h))
      (has_field-watched k w fs (or-right (is_watched j) _ h))
  where
    differs : is_watched j ≡ false → str_eq j k ≡ false
    differs e = elim (Bool-cases (str_eq j k)) [
      | inl same ↦ absurd (cc ((eq_iff j k).0 same))
      | inr other ↦ other
    ]

pub lookup_field-absent :
    (k : String) (fs : Fields) → has_field k fs ≡ false → lookup_field k fs ≡ none
unfolding has_field any_field
lookup_field-absent k end h = refl
lookup_field-absent k (field j v fs) h =
    rw (or-left (str_eq j k) _ h) (lookup_field-absent k fs (or-right (str_eq j k) _ h))

pub if-same {ℓ} : {A : Type ℓ} (b : Bool) (x : A) → (if b then x else x) ≡ x
if-same true x = refl
if-same false x = refl

module _ (fs : Fields) (plain : is_touched fs ≡ false) where
  absent : (k : String) → is_watched k ≡ true → has_field k fs ≡ false
  absent k w = has_field-watched k w fs plain

  no_value : (k : String) → is_watched k ≡ true → lookup_field k fs ≡ none
  no_value k w = lookup_field-absent k fs (absent k w)

  match_server-plain :
      (d : Option Device) (path : BodyPath) (out : Out)
      → match_server d path fs out ≡ record { node = fs; out = out }
  unfolding match_server our_servers any_key
  match_server-plain none path out = refl
  match_server-plain (some d) path out =
      rw (absent "apiServers" refl, absent "ipServers" refl, absent "dns" refl) refl

  match_mqtt-plain :
      (d : Option Device) (path : BodyPath) (out : Out)
      → match_mqtt d path fs out ≡ record { node = fs; out = out }
  unfolding match_mqtt all_keys
  match_mqtt-plain none path out = refl
  match_mqtt-plain (some d) path out = rw (absent "mqttHost" refl, absent "productKey" refl) refl

  match_oss_sts-plain :
      (policy : Policy) (d : Option Device) (path : BodyPath) (out : Out)
      → match_oss_sts policy d path fs out ≡ record { node = fs; out = out }
  unfolding match_oss_sts upload_list rewrite_uploads
  match_oss_sts-plain policy none path out = refl
  match_oss_sts-plain policy (some d) path out = rw (no_value "capability" refl) refl

  match_cvr_capacity-plain :
      (policy : Policy) (d : Option Device) (path : BodyPath) (out : Out)
      → match_cvr_capacity policy d path fs out ≡ record { node = fs; out = out }
  unfolding match_cvr_capacity replace_windows replace_capacity capacity_window product_window
      replace_window
  match_cvr_capacity-plain policy none path out = refl
  match_cvr_capacity-plain policy (some d) path out =
      rw (no_value "capacity" refl, no_value "cloudProduct" refl)
        (if-same (d.is_camera && policy.local_cvr_window) _)

  match_secret-plain :
      (d : Option Device) (path : BodyPath) (out : Out)
      → match_secret d path fs out ≡ record { node = fs; out = out }
  unfolding match_secret adopt_secret
  match_secret-plain none path out = refl
  match_secret-plain (some d) path out = rw (no_value "secret" refl) refl

  match_locale-plain :
      (d : Option Device) (path : BodyPath) (out : Out)
      → match_locale d path fs out ≡ record { node = fs; out = out }
  unfolding match_locale keep_settings keep_ours
  match_locale-plain none path out = refl
  match_locale-plain (some d) path out =
      rw (no_value "timezone" refl, no_value "locale" refl) (if-same (about_us d fs) _)

  pub substitute-plain :
      (policy : Policy) (path : BodyPath) (out : Out)
      → substitute policy path fs out ≡ record { node = fs; out = out }
  unfolding substitute
  substitute-plain policy path out =
      rw
        (
          match_server-plain policy.device path out,
          match_mqtt-plain policy.device path out,
          match_oss_sts-plain policy policy.device path out,
          match_cvr_capacity-plain policy policy.device path out,
          match_secret-plain policy.device path out,
          match_locale-plain policy.device path out,
        )
        refl
