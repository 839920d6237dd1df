-- ===== src/Http/Redact/Uploads.antt =====
-- The rules of addon/petkit_local/http/redact/rules.py on uploads, the device's secret and its locale.
-- A window of recording in the cloud is the value of `capacity` or of `cloudProduct`.
use petkit_local.Prelude.{String, Bool, true, false, ◌&&◌, ◌||◌, Option, none, some, if◌then◌else◌}
use petkit_local.Prelude.Json.{Json, num, str, arr, obj, cons, Fields, end, field, lookup_field}
use petkit_local.Http.Redact.{secret, oss_sts, locale, BodyPath, Out, Device, Policy, add_record}
use petkit_local.Http.Redact.Objects.{has_field, put_field, truthy, py_eq}
use petkit_local.Http.Redact.Rules.{child, Rewritten}

-- The upload list: `capability` is a list whose first entry has one of two keys.
unfoldable pub upload_list : Option Json → Option Json
unfolding has_field
upload_list (some (arr (cons (obj fs) xs))) =
    if has_field "cycleType" fs || has_field "primaryParUrl" fs
    then some (arr (cons (obj fs) xs))
    else none
upload_list other = none

unfoldable pub rewrite_uploads : Bool → Device → BodyPath → Option Json → Fields → Out → Rewritten
unfolding add_record put_field
rewrite_uploads real d path none node out = record { node = node; out = out }
rewrite_uploads true d path (some caps) node out = record {
  node = node;
  out = record out { oss_sts = some caps };
}
rewrite_uploads false d path (some caps) node out = record {
  node = put_field "type" d.capability_type (put_field "capability" d.capability node);
  out =
      add_record oss_sts (child path "capability") caps (some d.capability)
        (record out { oss_sts = some caps });
}

-- _match_oss_sts
unfoldable pub match_oss_sts : Policy → Option Device → BodyPath → Fields → Out → Rewritten
unfolding upload_list rewrite_uploads
match_oss_sts policy none path node out = record { node = node; out = out }
match_oss_sts policy (some d) path node out =
    rewrite_uploads policy.media_to_real_oss d path (upload_list (lookup_field "capability" node))
      node out

-- A window in the list `capacity`, and in the object `cloudProduct`.
unfoldable pub capacity_window : Option Json → Option Json
unfolding has_field
capacity_window (some (arr (cons (obj fs) xs))) =
    if has_field "indate" fs then some (arr (cons (obj fs) xs)) else none
capacity_window other = none

unfoldable pub product_window : Option Json → Option Json
unfolding has_field
product_window (some (obj fs)) = if has_field "workIndate" fs then some (obj fs) else none
product_window other = none

-- Our window in place of theirs, if they have one and ours is not empty.
unfoldable pub replace_window : String → Json → BodyPath → Option Json → Rewritten → Rewritten
unfolding add_record put_field truthy
replace_window k ours path none done = done
replace_window k ours path (some theirs) done =
    if truthy ours
    then record {
      node = put_field k ours done.node;
      out = add_record oss_sts (child path k) theirs (some ours) done.out;
    }
    else done

unfoldable pub replace_capacity : Device → BodyPath → Fields → Out → Rewritten
unfolding capacity_window replace_window
replace_capacity d path node out =
    replace_window "capacity" d.capacity path (capacity_window (lookup_field "capacity" node))
      (record { node = node; out = out })

-- Both windows.
unfoldable pub replace_windows : Device → BodyPath → Fields → Out → Rewritten
unfolding product_window replace_window replace_capacity
replace_windows d path node out =
    replace_window "cloudProduct" d.cloud_product path
      (product_window (lookup_field "cloudProduct" node)) (replace_capacity d path node out)

-- _match_cvr_capacity
unfoldable pub match_cvr_capacity : Policy → Option Device → BodyPath → Fields → Out → Rewritten
unfolding replace_windows
match_cvr_capacity policy none path node out = record { node = node; out = out }
match_cvr_capacity policy (some d) path node out =
    if d.is_camera && policy.local_cvr_window
    then replace_windows d path node out
    else record { node = node; out = out }

equals : Json → Option Json → Bool
unfolding py_eq
equals ours none = false
equals ours (some v) = py_eq v ours

-- Whether an object is about the device.
unfoldable pub about_us : Device → Fields → Bool
unfolding has_field equals truthy
about_us d node =
    has_field "signupAt" node
    || (equals (num d.petkit_id) (lookup_field "id" node)
        || truthy (str d.serial_number) && equals (str d.serial_number) (lookup_field "sn" node))

-- The device's own id, where the object has another.
unfoldable pub own_id : Device → BodyPath → Option Json → Fields → Out → Rewritten
unfolding add_record put_field py_eq
own_id d path none node out = record { node = node; out = out }
own_id d path (some id) node out =
    if py_eq id (num d.petkit_id) then record { node = node; out = out } else record {
      node = put_field "id" (num d.petkit_id) node;
      out =
          add_record secret path (obj (field "id" id end))
            (some (obj (field "id" (num d.petkit_id) end))) out;
    }

unfoldable pub adopt_secret : Device → BodyPath → Option Json → Fields → Out → Rewritten
unfolding about_us own_id
adopt_secret d path (some (str s)) node out =
    if about_us d node
    then own_id d path (lookup_field "id" node) node (record out { api_secret = some (str s) })
    else record { node = node; out = out }
adopt_secret d path other node out = record { node = node; out = out }

-- _match_secret
unfoldable pub match_secret : Option Device → BodyPath → Fields → Out → Rewritten
unfolding adopt_secret
match_secret none path node out = record { node = node; out = out }
match_secret (some d) path node out = adopt_secret d path (lookup_field "secret" node) node out

-- One setting of ours, where the object has another value of it.
unfoldable pub keep_ours : String → Json → BodyPath → Option Json → Rewritten → Rewritten
unfolding add_record put_field py_eq
keep_ours k ours path none done = done
keep_ours k ours path (some v) done = if py_eq v ours then done else record {
  node = put_field k ours done.node;
  out = add_record locale (child path k) v (some ours) done.out;
}

-- Both settings.
unfoldable pub keep_settings : Device → BodyPath → Fields → Out → Rewritten
unfolding keep_ours
keep_settings d path node out = keep_ours "locale" d.locale path (lookup_field "locale" node) (
    keep_ours "timezone" d.timezone_offset path (lookup_field "timezone" node)
      (record { node = node; out = out }))

-- _match_locale
unfoldable pub match_locale : Option Device → BodyPath → Fields → Out → Rewritten
unfolding about_us keep_settings
match_locale none path node out = record { node = node; out = out }
match_locale (some d) path node out =
    if about_us d node then keep_settings d path node out else record { node = node; out = out }
