-- ===== src/Http/Redact.antt =====
-- The redaction of what the real cloud sends: addon/petkit_local/http/redact. This file has the models
-- of its __init__.py; `Objects` are the dictionary operations, `Rules` and `Uploads` are rules.py, `Walker` is
-- walker.py, and `Bodies` the two entry points. A path is the list of its keys and indices, and the
-- notes of a record are left out.
pub mod Objects
pub mod Rules
pub mod Uploads
pub mod Equal
pub mod Ours
pub mod Walker
pub mod Bodies
use petkit_local.Prelude.{ℕ, String, Bool, Option, none, some, List, [], ◌∷◌, ◌++◌, Text, Bytes}
use petkit_local.Prelude.Int.{ℤ}
use petkit_local.Prelude.Json.{Json, Fields, end}

-- The rule ids.
pub data Rule : Type 0 where
  rce ota secret server mqtt oss_sts log_upload locale : Rule

-- rule in BLOCKING_RULES
unfoldable pub is_blocking : Rule → Bool
is_blocking Rule.rce = Bool.true
is_blocking Rule.ota = Bool.true
is_blocking other = Bool.false

pub data PathStep : Type 0 where
  key : String → PathStep
  index : ℕ → PathStep

abbrev pub BodyPath : Type 0
BodyPath = List PathStep

pub record Redaction : Type 0 where
  pub rule : Rule
  pub path : BodyPath
  pub original : Json
  pub replacement : Option Json

-- RedactionResult, less its body: the records, and the values captured from upstream.
pub record Out : Type 0 where
  pub records : List Redaction
  pub mqtt : Fields
  pub oss_sts : Option Json
  pub api_secret : Option Json

abbrev pub nothing_found : Out
nothing_found = record { records = []; mqtt = end; oss_sts = none; api_secret = none }

-- What the substitution rules read of a device, and what its `payloads.to_*` functions give.
pub record Device : Type 0 where
  pub petkit_id : ℤ
  pub serial_number : Text
  pub is_camera : Bool
  pub log_upload_enabled : Bool
  pub serverinfo : Json
  pub api_servers : Json
  pub ip_servers : Json
  pub dns : Json
  pub mqtt_host : Json
  pub mqtt_product_key : Json
  pub mqtt_device_name : Json
  pub mqtt_device_secret : Json
  pub capability : Json
  pub capability_type : Json
  pub capacity : Json
  pub cloud_product : Json
  pub timezone_offset : Json
  pub locale : Json
  pub log_upload_token : Fields

pub record Policy : Type 0 where
  pub device : Option Device
  pub block_rce : Bool
  pub block_ota : Bool
  pub block_log_upload : Bool
  pub media_to_real_oss : Bool
  pub local_cvr_window : Bool

-- json.loads of a text and of bytes, and json.dumps: compact to a text, and to bytes.
pub record JsonCodec : Type 0 where
  pub loads : Text → Option Json
  pub loads_bytes : Bytes → Option Json
  pub dumps_compact : Json → Text
  pub dumps_bytes : Json → Bytes
  pub dumps_compact_bytes : Json → Bytes

unfoldable pub add_record : Rule → BodyPath → Json → Option Json → Out → Out
add_record rule path original replacement out = record out {
  records =
      out.records
      ++ record { rule = rule; path = path; original = original; replacement = replacement } ∷ [];
}
