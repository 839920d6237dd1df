-- ===== src/Tests/Utils.antt =====
-- The lookups, in a small document.
use petkit_local.Prelude.{Text, ◌⊎◌, ◌≢◌, ◌≤◌, false, length, ◌≡◌, refl, [], ◌∷◌, codes}
use petkit_local.Prelude.Int.{pos}
use petkit_local.Prelude.Json.{null, num, str, obj, Fields, field, end}
use petkit_local.Utils.Paths.{sanitize_filename, clean}
use petkit_local.Utils.Paths.Runs.{has_run}
use petkit_local.Utils.Paths.Safe.{IsFit, sanitize_filename_lem}
use petkit_local.Utils.Dicts.{dig, dig_path}

-- The state of a box, and an event id under two of its spellings.
abbrev document : Fields
document =
    field "state" (obj (field "boxState" (num (pos 3)) (field "pending" null end)))
      (field "eventId" (str []) (field "event_id" (str (codes "e1")) end))

-- An explicit null is reported, a missing key gives the default.
null_is_reported : dig (obj document) ("state" ∷ "pending" ∷ []) (num (pos 9)) ≡ null
unfolding dig
null_is_reported = refl

missing_is_default : dig (obj document) ("state" ∷ "liquid" ∷ []) (num (pos 9)) ≡ num (pos 9)
unfolding dig
missing_is_default = refl

path_is_split : dig_path (obj document) "state.boxState" null ≡ num (pos 3)
unfolding dig_path
path_is_split = refl

no_path_is_default : dig_path (obj document) "" null ≡ null
unfolding dig_path
no_path_is_default = refl

abbrev file : Text
file = codes "file"

-- Dots, a line feed and a slash are taken out.
sanitized : sanitize_filename file 120 (46 ∷ 46 ∷ 10 ∷ codes "a/b..c") ≡ codes "a-b-c"
unfolding sanitize_filename
sanitized = refl

-- The cap can bring two dots together.
dots-capped : sanitize_filename file 7 (codes "ab.cdefg.mp4") ≡ codes "ab..mp4"
unfolding sanitize_filename
dots-capped = refl

sanitize_filename_lem_example :
    (sanitize_filename file 7 (codes "ab.cdefg.mp4") ≡ file)
    ⊎ ((sanitize_filename file 7 (codes "ab.cdefg.mp4") ≢ [])
        × (IsFit 7 (sanitize_filename file 7 (codes "ab.cdefg.mp4"))
            × (length (clean (codes "ab.cdefg.mp4")) ≤ 7
                → has_run false (sanitize_filename file 7 (codes "ab.cdefg.mp4")) ≡ false)))
sanitize_filename_lem_example = sanitize_filename_lem file (codes "ab.cdefg.mp4") 7
