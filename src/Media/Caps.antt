-- ===== src/Media/Caps.antt =====
-- The retention caps and their edits: `RetentionConfig` of addon/petkit_local/media/retention.py. A
-- cap that is `None` and one that is missing both mean that there is none. The numbers of a patch are
-- given as `to_float` sees them, and count units of a fixed fineness.
pub mod Positive
use petkit_local.Prelude.{
  ℕ, ◌*◌, String, Bool, true, false, Option, none, some, List, [], ◌∷◌, if◌then◌else◌,
}
use petkit_local.Prelude.Dict.{Dict, lookup, insert}
use petkit_local.Prelude.Int.{ℤ, pos, positive}
use petkit_local.Events.Rows.{Reading, number, unreadable, unit}

pub record Caps : Type 0 where
  pub max_mb : Option ℤ
  pub max_days : Option ℤ

whole : ℕ → Option ℤ
whole n = some (pos (n * unit))

-- DEFAULT_RETENTION
unfoldable pub default_retention : Dict Caps
unfolding whole
default_retention =
    ("fullVideo", record { max_mb = whole 1024; max_days = whole 7 })
    ∷ ("eventImage", record { max_mb = whole 512; max_days = whole 30 })
    ∷ ("highLight", record { max_mb = whole 512; max_days = whole 30 })
    ∷ ("dynamicVideo", record { max_mb = whole 512; max_days = whole 7 })
    ∷ ("cloudDouble", record { max_mb = whole 256; max_days = whole 3 })
    ∷ ("wasteCheck", record { max_mb = whole 512; max_days = whole 30 })
    ∷ ("healthPic", record { max_mb = whole 256; max_days = whole 90 })
    ∷ ("events", record { max_mb = none; max_days = whole 180 })
    ∷ ("blocked", record { max_mb = none; max_days = whole 365 })
    ∷ ("deviceLog", record { max_mb = whole 18; max_days = whole 1 })
    ∷ ("rawUpload", record { max_mb = whole 2048; max_days = whole 2 })
    ∷ ("thumbnail", record { max_mb = whole 256; max_days = whole 30 })
    ∷ []

-- What a patch has under a category.
pub data PatchValue : Type 0 where
  fields : Dict Reading → PatchValue
  no_fields : PatchValue

-- number if number and number > 0 else None, with number = to_float(value, None)
cap_of : Reading → Option ℤ
cap_of (number z) = if positive z then some z else none
cap_of unreadable = none

-- A field that the patch does not have is left alone.
patched : Option Reading → Option ℤ → Option ℤ
unfolding cap_of
patched none old = old
patched (some value) old = cap_of value

patch_caps : Dict Reading → Caps → Caps
unfolding patched
patch_caps patch caps = record {
  max_mb = patched (lookup "max_mb" patch) caps.max_mb;
  max_days = patched (lookup "max_days" patch) caps.max_days;
}

patch_category : String → PatchValue → Option Caps → Dict Caps → Dict Caps
unfolding patch_caps
patch_category key value none config = config
patch_category key no_fields (some caps) config = config
patch_category key (fields patch) (some caps) config = insert key (patch_caps patch caps) config

-- RetentionConfig.update
unfoldable pub update : Dict PatchValue → Dict Caps → Dict Caps
unfolding patch_category
update [] config = config
update ((key, value) ∷ patch) config =
    update patch (patch_category key value (lookup key config) config)
