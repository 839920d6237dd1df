-- ===== src/Http/Redact/Rules.antt =====
-- The rules of addon/petkit_local/http/redact/rules.py that run on every object of a body.
use petkit_local.Prelude.{
  ℕ, ◌+◌, String, Bool, true, false, not, ◌&&◌, ◌||◌, Option, none, some, List, [], ◌∷◌, ◌++◌,
  str_eq, ◌==◌, leb, length, drop, ◌-◌, if◌then◌else◌, Text, codes, any,
}
use petkit_local.Prelude.Json.{Json, null, str, obj, Fields, lookup_field}
use petkit_local.Http.Redact.{
  Rule, rce, ota, server, mqtt, BodyPath, key, Out, Device, Policy, add_record,
}
use petkit_local.Http.Redact.Objects.{
  any_field, has_field, put_present, put_field, or_value, any_key, all_keys, pick, truthy,
}

-- f"{path}.{key}" if path else key
abbrev pub child : BodyPath → String → BodyPath
child path k = path ++ key k ∷ []

-- What a rule leaves of an object, and the records.
pub record Rewritten : Type 0 where
  pub node : Fields
  pub out : Out

-- `isinstance(value, dict) and "run_cmd" in value`
unfoldable pub is_run_cmd : Json → Bool
unfolding has_field
is_run_cmd (obj fs) = has_field "run_cmd" fs
is_run_cmd other = false

-- Whether the object has a `user_cmd` with a `run_cmd`.
unfoldable pub has_rce : Fields → Bool
unfolding is_run_cmd any_field
has_rce = any_field (λ k v. str_eq k "user_cmd" && is_run_cmd v)

run_cmd_in : Option Json → Json
run_cmd_in (some (obj fs)) = or_value (lookup_field "run_cmd" fs) null
run_cmd_in other = null

root_or : BodyPath → String → BodyPath
root_or [] k = key k ∷ []
root_or (step ∷ path) k = step ∷ path

-- _match_rce: the records, if the object must go.
unfoldable pub match_rce : Policy → BodyPath → Fields → Out → Option Out
unfolding has_rce run_cmd_in root_or add_record
match_rce policy path node out =
    if policy.block_rce && has_rce node
    then some (
        add_record rce (root_or path "user_cmd") (run_cmd_in (lookup_field "user_cmd" node)) none
          out)
    else none

-- str.lower, as far as ASCII letters can come out: the Kelvin sign has one too.
abbrev pub lower : Text → Text
lower [] = []
lower (c ∷ t) =
    (if leb b'A' c && leb c b'Z' then c + 32 else if c == 8490 then b'k' else c) ∷ lower t

starts_with : Text → Text → Bool
starts_with [] t = true
starts_with (c ∷ s) [] = false
starts_with (c ∷ s) (d ∷ t) = c == d && starts_with s t

same_text : Text → Text → Bool
unfolding starts_with
same_text s t = length s == length t && starts_with s t

ends_with : Text → Text → Bool
unfolding same_text
ends_with suffix t =
    leb (length suffix) (length t) && same_text suffix (drop (length t - length suffix) t)

-- _is_http_url
unfoldable pub is_http_url : Option Json → Bool
unfolding starts_with
is_http_url (some (str t)) =
    starts_with (codes "http://") (lower t) || starts_with (codes "https://") (lower t)
is_http_url other = false

-- t.split(c, 1)[0]
before : ℕ → Text → Text
before c [] = []
before c (d ∷ t) = if d == c then [] else d ∷ before c t

ota_suffixes : List Text
ota_suffixes =
    codes ".bin"
    ∷ codes ".img"
    ∷ codes ".ota"
    ∷ codes ".pkg"
    ∷ codes ".fw"
    ∷ codes ".rom"
    ∷ codes ".tar"
    ∷ codes ".tar.gz"
    ∷ codes ".gz"
    ∷ codes ".zip"
    ∷ []

-- _looks_like_firmware
unfoldable pub looks_like_firmware : Option Json → Bool
unfolding before ends_with ota_suffixes
looks_like_firmware (some (str url)) =
    any (λ suffix. ends_with suffix (lower (before b'#' (before b'?' url)))) ota_suffixes
looks_like_firmware other = false

ota_explicit_keys : List String
ota_explicit_keys = "otaUrl" ∷ "firmwareUrl" ∷ "upgradeUrl" ∷ []

ota_url_keys : List String
ota_url_keys = "url" ∷ "downloadUrl" ∷ "fileUrl" ∷ "packageUrl" ∷ []

ota_sibling_keys : List String
ota_sibling_keys = "md5" ∷ "size" ∷ "fileSize" ∷ "version" ∷ "firmwareVersion" ∷ []

-- The first of the keys that passes a test.
first_key : (String → Bool) → List String → Option String
first_key test [] = none
first_key test (k ∷ ks) = if test k then some k else first_key test ks

or_else : Option String → Option String → Option String
or_else none other = other
or_else (some k) other = some k

-- The key that makes an object a firmware offer.
unfoldable pub ota_key : Fields → Option String
unfolding first_key or_else ota_explicit_keys ota_url_keys ota_sibling_keys is_http_url
    looks_like_firmware any_key
ota_key node = or_else (first_key (λ k. is_http_url (lookup_field k node)) ota_explicit_keys) (
    first_key
      (λ k.
        is_http_url (lookup_field k node)
        && (looks_like_firmware (lookup_field k node) && any_key ota_sibling_keys node))
      ota_url_keys)

unfoldable pub record_ota : Option String → BodyPath → Fields → Out → Option Out
unfolding add_record
record_ota none path node out = none
record_ota (some k) path node out = some (add_record ota (child path k) (obj node) none out)

-- _match_ota_shape
unfoldable pub match_ota_shape : Policy → BodyPath → Fields → Out → Option Out
unfolding record_ota ota_key
match_ota_shape policy path node out =
    if policy.block_ota then record_ota (ota_key node) path node out else none

-- The keys of `ours` that the object has are set to ours.
unfoldable pub patch : List (String × Json) → Fields → Fields
unfolding put_present
patch [] node = node
patch ((k, v) ∷ ours) node = patch ours (put_present k v node)

keys_of : List (String × Json) → List String
keys_of [] = []
keys_of ((k, v) ∷ ours) = k ∷ keys_of ours

-- The record of a patch: what was there, and what is there now.
record_patch : Rule → BodyPath → List (String × Json) → Fields → Out → Out
unfolding add_record pick keys_of patch
record_patch rule path ours node out =
    add_record rule path (obj (pick (keys_of ours) node))
      (some (obj (pick (keys_of ours) (patch ours node)))) out

unfoldable pub our_servers : Device → List (String × Json)
our_servers d = ("apiServers", d.api_servers) ∷ ("ipServers", d.ip_servers) ∷ ("dns", d.dns) ∷ []

-- _match_server
unfoldable pub match_server : Option Device → BodyPath → Fields → Out → Rewritten
unfolding any_key our_servers record_patch patch keys_of
match_server none path node out = record { node = node; out = out }
match_server (some d) path node out =
    if any_key (keys_of (our_servers d)) node
    then record {
      node = patch (our_servers d) node;
      out = record_patch server path (our_servers d) node out;
    }
    else record { node = node; out = out }

unfoldable pub our_mqtt : Device → List (String × Json)
our_mqtt d =
    ("mqttHost", d.mqtt_host)
    ∷ ("productKey", d.mqtt_product_key)
    ∷ ("deviceName", d.mqtt_device_name)
    ∷ ("deviceSecret", d.mqtt_device_secret)
    ∷ ("iotInstanceId", d.mqtt_product_key)
    ∷ []

-- {"mqtt_host": node.get("mqttHost", ""), …}
mqtt_found : Fields → List (String × Json)
mqtt_found node =
    ("mqtt_host", or_value (lookup_field "mqttHost" node) (str []))
    ∷ ("product_key", or_value (lookup_field "productKey" node) (str []))
    ∷ ("device_name", or_value (lookup_field "deviceName" node) (str []))
    ∷ ("device_secret", or_value (lookup_field "deviceSecret" node) (str []))
    ∷ ("region_id", or_value (lookup_field "regionId" node) (str []))
    ∷ ("iot_instance_id", or_value (lookup_field "iotInstanceId" node) (str []))
    ∷ []

-- `if value or key not in captured: captured[key] = value`
unfoldable pub merge_found : List (String × Json) → Fields → Fields
unfolding truthy has_field put_field
merge_found [] captured = captured
merge_found ((k, v) ∷ found) captured =
    merge_found found
      (if truthy v || not (has_field k captured) then put_field k v captured else captured)

capture_mqtt : List (String × Json) → Out → Out
unfolding merge_found truthy
capture_mqtt found out =
    if any (λ entry. truthy entry.1) found
    then record out { mqtt = merge_found found out.mqtt }
    else out

-- _match_mqtt
unfoldable pub match_mqtt : Option Device → BodyPath → Fields → Out → Rewritten
unfolding has_field all_keys our_mqtt capture_mqtt mqtt_found record_patch patch
match_mqtt none path node out = record { node = node; out = out }
match_mqtt (some d) path node out =
    if has_field "mqttHost" node
      || all_keys ("productKey" ∷ "deviceName" ∷ "deviceSecret" ∷ []) node
    then record {
      node = patch (our_mqtt d) node;
      out = record_patch mqtt path (our_mqtt d) node (capture_mqtt (mqtt_found node) out);
    }
    else record { node = node; out = out }
