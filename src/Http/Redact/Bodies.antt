-- ===== src/Http/Redact/Bodies.antt =====
-- The entry points of addon/petkit_local/http/redact/__init__.py: the body of a proxied response, and a
-- frame that comes down over MQTT. The fuel is that of the walk.
pub mod Forced
pub mod Clean
use petkit_local.Prelude.{
  ℕ, String, Bool, true, false, not, ◌&&◌, ◌||◌, Option, none, some, List, [], ◌∷◌, ◌==◌, any,
  filter, if◌then◌else◌, Text, Bytes, codes,
}
use petkit_local.Prelude.Json.{
  Json, str, arr, obj, Items, nil, cons, Fields, end, field, lookup_field,
}
use petkit_local.Http.Redact.{
  Rule, Redaction, is_blocking, ota, server, log_upload, Out, nothing_found, Device, JsonCodec,
  Policy, add_record,
}
use petkit_local.Http.Redact.Objects.{has_field, put_field, truthy, text_eq, py_eq}
use petkit_local.Http.Redact.Walker.{Walked, Visit, container, walk}

-- RedactionResult.blocked
unfoldable pub blocked : Out → List Redaction
unfolding is_blocking
blocked out = filter (λ r. is_blocking r.rule) out.records

-- RedactionResult
pub record Result : Type 0 where
  pub body : Bytes
  pub out : Out

-- {"result": {}}
abbrev pub empty_result : Json
empty_result = obj (field "result" (obj end) end)

-- {"result": "success"}
abbrev pub log_upload_done : Json
log_upload_done = obj (field "result" (str (codes "success")) end)

-- _decode
unfoldable pub decode : JsonCodec → Bytes → Option Json
unfolding container
decode codec [] = none
decode codec (b ∷ bytes) = container (codec.loads_bytes (b ∷ bytes))

-- A slash is dropped if nothing is left after it.
unfoldable keep_slash : ℕ → Text → Text
keep_slash c [] = if c == b'/' then [] else c ∷ []
keep_slash c (d ∷ rest) = c ∷ d ∷ rest

-- path.rstrip("/")
unfoldable pub strip_slashes : Text → Text
unfolding keep_slash
strip_slashes [] = []
strip_slashes (c ∷ t) = keep_slash c (strip_slashes t)

-- path.rsplit("/", 1)[-1]
unfoldable pub after_slash : Text → Text
after_slash [] = []
after_slash (c ∷ t) =
    let rest = after_slash t in
    if any (λ d. d == b'/') t then rest else if c == b'/' then t else c ∷ t

-- _last_segment
unfoldable pub last_segment : Text → Text
unfolding strip_slashes after_slash
last_segment path = after_slash (strip_slashes path)

found_true : Option Json → Bool
unfolding truthy
found_true none = false
found_true (some v) = truthy v

-- _offers_an_update
unfoldable pub offers_an_update : Json → Bool
unfolding truthy found_true
offers_an_update (obj fs) = found_true (lookup_field "result" fs)
offers_an_update other = truthy other

unfoldable token_or_empty : Option Device → Json
unfolding found_true
token_or_empty none = empty_result
token_or_empty (some d) =
    if d.log_upload_enabled && found_true (lookup_field "result" d.log_upload_token)
    then obj d.log_upload_token
    else empty_result

-- _log_upload_answer
unfoldable pub log_upload_answer : Text → Policy → Json
unfolding text_eq token_or_empty
log_upload_answer name policy =
    if text_eq name (codes "dev_upload_log") then log_upload_done else token_or_empty policy.device

unfoldable serverinfo_answer : Bool → Option Device → Json → Option (Json × Out)
unfolding py_eq add_record
serverinfo_answer false device upstream = none
serverinfo_answer true none upstream = none
serverinfo_answer true (some d) upstream = some (
  d.serverinfo,
  if py_eq upstream d.serverinfo
      then nothing_found
      else add_record server [] upstream (some d.serverinfo) nothing_found,
)

-- name in OTA_ENDPOINTS, and so on
unfoldable pub is_ota_endpoint : Text → Bool
unfolding text_eq
is_ota_endpoint name = any (text_eq name) (codes "dev_ota_check" ∷ codes "dev_ota_heartbeat" ∷ [])

unfoldable pub is_log_upload_endpoint : Text → Bool
unfolding text_eq
is_log_upload_endpoint name =
    any (text_eq name) (codes "dev_upload_log_token" ∷ codes "dev_upload_log" ∷ [])

unfoldable pub is_serverinfo_endpoint : Text → Bool
unfolding text_eq
is_serverinfo_endpoint name = text_eq name (codes "dev_serverinfo")

unfoldable pub ota_answer : Json → Json × Out
unfolding offers_an_update add_record
ota_answer upstream = (
  empty_result,
  if offers_an_update upstream
      then add_record ota [] upstream (some empty_result) nothing_found
      else nothing_found,
)

unfoldable pub log_answer : Text → Policy → Json → Json × Out
unfolding log_upload_answer add_record
log_answer name policy upstream = (
  log_upload_answer name policy,
  add_record log_upload [] upstream (some (log_upload_answer name policy)) nothing_found,
)

-- The dispatch on the endpoint: an answer of our own in place of the upstream's.
unfoldable pub local_answer : Policy → Text → Json → Option (Json × Out)
unfolding is_ota_endpoint is_log_upload_endpoint is_serverinfo_endpoint ota_answer log_answer
    serverinfo_answer
local_answer policy name upstream =
    if policy.block_ota && is_ota_endpoint name
    then some (ota_answer upstream)
    else if policy.block_log_upload && is_log_upload_endpoint name
    then some (log_answer name policy upstream)
    else serverinfo_answer (is_serverinfo_endpoint name) policy.device upstream

-- An answer keeps its `result`, if only an empty one.
unfoldable pub restore_result : Json → Json → Json
unfolding has_field put_field
restore_result (obj fs) (obj gs) =
    if has_field "result" fs && not (has_field "result" gs)
    then obj (put_field "result" (obj end) gs)
    else obj gs
restore_result upstream cleaned = cleaned

unfoldable pub close_body : Json → Walked → Json
unfolding restore_result
close_body upstream Walked.drop = empty_result
close_body upstream (Walked.keep cleaned) = restore_result upstream cleaned

unfoldable pub answer : JsonCodec → ℕ → Policy → Json → Option (Json × Out) → Result
unfolding close_body
answer codec fuel policy upstream (some (ours, out)) = record {
  body = codec.dumps_bytes ours;
  out = out;
}
answer codec fuel policy upstream none =
    let v = walk codec policy fuel [] false upstream nothing_found in
    record { body = codec.dumps_bytes (close_body upstream v.got); out = v.out }

unfoldable redact_decoded : JsonCodec → ℕ → Policy → Text → Bytes → Option Json → Result
unfolding local_answer answer last_segment
redact_decoded codec fuel policy endpoint body none = record { body = body; out = nothing_found }
redact_decoded codec fuel policy endpoint body (some upstream) =
    answer codec fuel policy upstream (local_answer policy (last_segment endpoint) upstream)

unfoldable pub redact_body : JsonCodec → ℕ → Policy → Text → Bytes → Result
unfolding redact_decoded decode
redact_body codec fuel policy endpoint body =
    redact_decoded codec fuel policy endpoint body (decode codec body)

-- What is sent on of a frame; nothing is left of one that is dropped whole.
unfoldable pub close_frame : Walked → Json
close_frame Walked.drop = obj end
close_frame (Walked.keep cleaned) = cleaned

unfoldable pub frame_result : JsonCodec → ℕ → Policy → Bytes → Option Json → Result
unfolding close_frame walk
frame_result codec fuel policy payload none = record { body = payload; out = nothing_found }
frame_result codec fuel policy payload (some frame) =
    let v = walk codec policy fuel [] false frame nothing_found in
    record { body = codec.dumps_compact_bytes (close_frame v.got); out = v.out }

unfoldable pub redact_mqtt : JsonCodec → ℕ → Policy → Bytes → Result
unfolding frame_result decode
redact_mqtt codec fuel policy payload =
    frame_result codec fuel policy payload (decode codec payload)

error_object : Option Json → Option Json
unfolding has_field
error_object (some (obj fs)) = if has_field "code" fs then some (obj fs) else none
error_object other = none

envelope_error : Option Json → Option Json
unfolding error_object
envelope_error (some (obj fs)) = error_object (lookup_field "error" fs)
envelope_error other = none

unfoldable pub cloud_error : JsonCodec → Bytes → Option Json
unfolding envelope_error decode
cloud_error codec body = envelope_error (decode codec body)
