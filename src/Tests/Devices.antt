-- ===== src/Tests/Devices.antt =====
-- The theorems on addon/petkit_local/devices/pending.py at concrete inputs.
use petkit_local.Prelude.{String, ◌≡◌, refl, [], ◌∷◌, some, codes}
use petkit_local.Prelude.Int.{pos}
use petkit_local.Prelude.Json.{Fields, end, field, num, str, lookup_field}
use petkit_local.Devices.Pending.{Store, property_set, other, remember, completed}
use petkit_local.Devices.Pending.Lookups.{is_distinct, newer, unsent}
use petkit_local.Devices.Pending.Newest.{actions, completed-remember}

-- The light was switched, with a mode, and an action is queued behind.
abbrev store : Store
store = record {
  pending = field "light" (num (pos 1)) end;
  queue =
      property_set end (field "light" (num (pos 1)) (field "mode" (num (pos 2)) end))
      ∷ other (str (codes "start"))
      ∷ [];
}

abbrev newest : Fields
newest = field "light" (num (pos 0)) end

abbrev sent : Fields
sent = field "light" (num (pos 1)) end

-- The old value is delivered after the new one was set: the new one still waits.
light-waits :
    lookup_field "light" (completed sent (remember newest store)).pending ≡ some (num (pos 0))
unfolding remember completed
light-waits = refl

completed-remember_example :
    ((k : String)
      → lookup_field k (completed sent (remember newest store)).pending
        ≡ unsent
            (lookup_field k sent)
            (newer (lookup_field k newest) (lookup_field k store.pending)))
    × (actions (completed sent (remember newest store)).queue ≡ actions store.queue)
unfolding is_distinct
completed-remember_example = completed-remember sent newest store refl refl
