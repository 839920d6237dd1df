-- ===== src/Tests/Http.antt =====
-- The theorems on addon/petkit_local/http at concrete inputs.
use petkit_local.Prelude.{
  ℕ, zero, suc, ◌+◌, ◌≤◌, ◌≡◌, ◌==◌, refl, true, false, Option, none, some, [], ◌∷◌, ◌⊎◌, arith,
  length, Text, codes, if◌then◌else◌, Bool-cases, inl, inr,
}
use petkit_local.Prelude.Int.{pos}
use petkit_local.Prelude.Json.{Json, num, str, arr, obj, nil, cons, end, field}
use petkit_local.Http.Redact.{Device, JsonCodec, Policy, nothing_found}
use petkit_local.Http.Redact.Objects.{json_eq, text_eq}
use petkit_local.Http.Redact.Equal.{json_eq_lem}
use petkit_local.Mqtt.Topics.Segments.{text_eq→eq}
use petkit_local.Http.Redact.Walker.{Walked, walk}
use petkit_local.Http.Redact.Walker.Clean.{IsClean}
use petkit_local.Http.Redact.Walker.Safe.{ReadsBack}
use petkit_local.Http.Redact.Walker.Settled.{ReadsSmall, SettlesAt, size, walk-SettlesAt}
use petkit_local.Http.Redact.Walker.Harmless.{is_harmless, walk-is_harmless}
use petkit_local.Http.Redact.Ours.{OursHold}
use petkit_local.Http.Redact.Bodies.{
  decode, redact_body, empty_result, blocked, offers_an_update, is_ota_endpoint,
}
use petkit_local.Http.Redact.Bodies.Clean.{redact_body-IsClean, IsOwn}
use petkit_local.Http.Redact.Bodies.Forced.{path_of, redact_body-ota, redact_body-own}

-- A heartbeat with two commands encoded as texts: one runs a shell command, the other sets a plan.
abbrev hostile_text : Text
hostile_text = codes "{\"user_cmd\":{\"run_cmd\":\"reboot\"}}"

abbrev hostile : Json
hostile = obj (field "user_cmd" (obj (field "run_cmd" (str (codes "reboot")) end)) end)

abbrev friendly_text : Text
friendly_text = codes "{\"plan\":1}"

abbrev friendly : Json
friendly = obj (field "plan" (num (pos 1)) end)

abbrev entry : Text → Json
entry t = obj (field "time" (num (pos 5)) (field "content" (str t) end))

abbrev pub heartbeat : Json
heartbeat =
    obj (field "result" (arr (cons (entry hostile_text) (cons (entry friendly_text) nil))) end)

abbrev cleaned_heartbeat : Json
cleaned_heartbeat = obj (field "result" (arr (cons (entry friendly_text) nil)) end)

abbrev read : Text → Option Json
read t =
    if text_eq t hostile_text
    then some hostile
    else if text_eq t friendly_text
    then some friendly
    else none

abbrev pub write : Json → Text
write v =
    if json_eq v hostile then hostile_text else if json_eq v friendly then friendly_text else []

abbrev pub codec : JsonCodec
codec = record {
  loads = read;
  loads_bytes = λ bytes. if length bytes == 1 then some heartbeat else some cleaned_heartbeat;
  dumps_compact = write;
  dumps_bytes = write;
  dumps_compact_bytes = write;
}

read-hostile : read hostile_text ≡ some hostile
unfolding text_eq
read-hostile = refl

read-friendly : read friendly_text ≡ some friendly
unfolding text_eq
read-friendly = refl

read-empty : read [] ≡ none
unfolding text_eq
read-empty = refl

pub codec-ReadsBack : ReadsBack codec
codec-ReadsBack = record { loads-dumps_compact = λ v w h. back v w h }
  where
    back : (v w : Json) → read (write v) ≡ some w → w ≡ v
    back v w h = elim (Bool-cases (json_eq v hostile)) [
      | inl e ↦ cc (json_eq_lem v hostile e, read-hostile, h)
      | inr e ↦ elim (Bool-cases (json_eq v friendly)) [
        | inl k ↦ cc (json_eq_lem v friendly k, read-friendly, h)
        | inr k ↦ absurd (cc (read-empty, h))
      ]
    ]

hostile_fits : size hostile ≤ length hostile_text
unfolding size
hostile_fits = omega arith

friendly_fits : size friendly ≤ length friendly_text
unfolding size
friendly_fits = omega arith

none_read :
    (t : Text) (v : Json)
    → text_eq t hostile_text ≡ false
    → text_eq t friendly_text ≡ false
    → ¬ (read t ≡ some v)
none_read t v e k h = ground arith

fits :
    (t : Text) (v : Json) (s : Text) (w : Json)
    → t ≡ s
    → v ≡ w
    → size w ≤ length s
    → size v ≤ length t
fits t v s w e k h = rw (e, k) h

decoded : decode codec (1 ∷ []) ≡ some heartbeat
unfolding decode
decoded = refl

decoded_too : decode codec (2 ∷ 2 ∷ []) ≡ some cleaned_heartbeat
unfolding decode
decoded_too = refl

codec-ReadsSmall : ReadsSmall codec
codec-ReadsSmall = record { size-loads = λ t v h. small t v h }
  where
    small : (t : Text) (v : Json) → read t ≡ some v → size v ≤ length t
    small t v h = elim (Bool-cases (text_eq t hostile_text)) [
      | inl e ↦
          fits t v hostile_text hostile (text_eq→eq t hostile_text e)
            (cc (text_eq→eq t hostile_text e, read-hostile, h)) hostile_fits
      | inr e ↦ elim (Bool-cases (text_eq t friendly_text)) [
        | inl k ↦
            fits t v friendly_text friendly (text_eq→eq t friendly_text k)
              (cc (text_eq→eq t friendly_text k, read-friendly, h)) friendly_fits
        | inr k ↦ absurd (none_read t v e k h)
      ]
    ]

-- A device whose values are all texts and numbers.
abbrev local : Json
local = str (codes "192.168.1.2")

abbrev fountain : Device
fountain = record {
  petkit_id = pos 7;
  serial_number = codes "S1";
  is_camera = true;
  log_upload_enabled = false;
  serverinfo = local;
  api_servers = local;
  ip_servers = local;
  dns = local;
  mqtt_host = local;
  mqtt_product_key = local;
  mqtt_device_name = local;
  mqtt_device_secret = local;
  capability = local;
  capability_type = num (pos 2);
  capacity = local;
  cloud_product = local;
  timezone_offset = num (pos 2);
  locale = str (codes "Europe/Paris");
  log_upload_token = end;
}

abbrev pub policy : Policy
policy = record {
  device = some fountain;
  block_rce = true;
  block_ota = true;
  block_log_upload = true;
  media_to_real_oss = false;
  local_cvr_window = true;
}

harmless : is_harmless codec (size cleaned_heartbeat) cleaned_heartbeat ≡ true
unfolding is_harmless size text_eq
harmless = refl

-- The command goes with its entry, and the plan stays.
walk-heartbeat :
    (walk codec policy 9 [] false heartbeat nothing_found).got ≡ Walked.keep cleaned_heartbeat
unfolding walk
walk-heartbeat = refl

redact_body-IsClean_example :
    (sent : Json) × (((redact_body codec 9 policy (codes "/6/t6/dev_heartbeat") (1 ∷ [])).body
        ≡ write sent)
      × (IsClean codec sent ⊎ IsOwn policy sent))
redact_body-IsClean_example =
    redact_body-IsClean codec codec-ReadsBack policy refl 9 (codes "/6/t6/dev_heartbeat") (1 ∷ [])
      heartbeat decoded

redact_body-ota_example :
    ((redact_body codec 9 policy (path_of (codes "/6/t6") (codes "dev_ota_check") 1) (1 ∷ [])).body
      ≡ write empty_result)
    × (length (
          blocked
            (redact_body codec 9 policy
              (path_of (codes "/6/t6") (codes "dev_ota_check") 1)
              (1 ∷ [])).out)
        ≡ 1)
unfolding offers_an_update is_ota_endpoint
redact_body-ota_example =
    redact_body-ota codec 9 policy refl (codes "/6/t6") (codes "dev_ota_check") 1 refl (1 ∷ [])
      heartbeat decoded

redact_body-own_example :
    (redact_body codec 9 policy (path_of (codes "/6/t6") (codes "dev_serverinfo") 0) (1 ∷ [])).body
    ≡ (redact_body codec 9 policy
        (path_of (codes "/6/t6") (codes "dev_serverinfo") 0)
        (2 ∷ 2 ∷ [])).body
unfolding text_eq
redact_body-own_example =
    redact_body-own codec 9 policy fountain refl refl refl (codes "/6/t6") (codes "dev_serverinfo")
      0 refl (1 ∷ []) (2 ∷ 2 ∷ []) heartbeat cleaned_heartbeat decoded decoded_too

local-SettlesAt : SettlesAt codec policy 1 local
unfolding walk
local-SettlesAt zero enough path in_list out = absurd (omega arith)
local-SettlesAt (suc fuel) enough path in_list out = refl

paris-SettlesAt : SettlesAt codec policy 1 (str (codes "Europe/Paris"))
unfolding walk
paris-SettlesAt zero enough path in_list out = absurd (omega arith)
paris-SettlesAt (suc fuel) enough path in_list out = refl

number-SettlesAt : (n : ℕ) → SettlesAt codec policy 1 (num (pos n))
unfolding walk
number-SettlesAt n zero enough path in_list out = absurd (omega arith)
number-SettlesAt n (suc fuel) enough path in_list out = refl

fountain-SettlesAt : OursHold (λ k v. SettlesAt codec policy 1 v) (some fountain)
fountain-SettlesAt = record {
  api_servers = local-SettlesAt;
  ip_servers = local-SettlesAt;
  dns = local-SettlesAt;
  mqtt_host = local-SettlesAt;
  product_key = local-SettlesAt;
  device_name = local-SettlesAt;
  device_secret = local-SettlesAt;
  iot_instance = local-SettlesAt;
  capability = local-SettlesAt;
  capability_type = number-SettlesAt 2;
  capacity = local-SettlesAt;
  cloud_product = local-SettlesAt;
  id = number-SettlesAt 7;
  timezone = number-SettlesAt 2;
  locale = paris-SettlesAt;
}

walk-SettlesAt_example : SettlesAt codec policy (size heartbeat + 1) heartbeat
walk-SettlesAt_example = walk-SettlesAt codec codec-ReadsSmall policy 1 fountain-SettlesAt heartbeat

walk-is_harmless_example :
    walk codec policy (size cleaned_heartbeat) [] false cleaned_heartbeat nothing_found
    ≡ record { got = Walked.keep cleaned_heartbeat; out = nothing_found }
walk-is_harmless_example =
    walk-is_harmless codec codec-ReadsSmall policy cleaned_heartbeat harmless
      (size cleaned_heartbeat) (omega arith) [] false nothing_found
