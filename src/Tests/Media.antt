-- ===== src/Tests/Media.antt =====
-- The retention sweep, on a few files.
use petkit_local.Prelude.{ℕ, ◌≤◌, ◌≡◌, refl, true, false, none, some, List, [], ◌∷◌, arith, ok}
use petkit_local.Prelude.Dict.{Dict}
use petkit_local.Prelude.Int.{pos, negsuc}
use petkit_local.Events.Rows.{number, unreadable}
use petkit_local.Media.Caps.{PatchValue, fields}
use petkit_local.Media.Retention.{
  Stamp, Expired, Entry, Swept, total_size, select_expired, unlink_all, sweep_directory, reversed,
}
use petkit_local.Media.Retention.Selection.{stamps_of, items_of, IsSplit, select_expired-fits}
use petkit_local.Media.Retention.Sweep.{IsSafe, sweep_directory-IsSafe}

-- Newest first: 40, 30 and 50 bytes, the last of them 90 old at time 100.
abbrev files : List (Stamp × ℕ)
files =
    (record { size = 40; created = some 95 }, 1)
    ∷ (record { size = 30; created = some 60 }, 2)
    ∷ (record { size = 50; created = some 10 }, 3)
    ∷ []

abbrev entries : List Entry
entries =
    record { size = 40; mtime = some 95; path = "b" }
    ∷ record { size = 50; mtime = some 10; path = "a" }
    ∷ []

-- Over a cap of 80 bytes, the oldest goes; over one of 60, the next one goes with it.
oldest_goes :
    select_expired (stamps_of files) (items_of files) (some 80) none 100
    ≡ ok (record { items = 3 ∷ []; freed = 50 })
unfolding select_expired
oldest_goes = refl

-- The young file stays, although the cap is 10 bytes.
young_stays :
    sweep_directory (λ p. true) (some entries) (some 10) none 100 20
    ≡ ok (record { doomed = "a" ∷ []; unlinked = "a" ∷ []; deleted = 1; freed_bytes = 50 })
unfolding sweep_directory unlink_all
young_stays = refl

-- A file that cannot be removed is counted all the same.
failure_counted :
    sweep_directory (λ p. false) (some entries) (some 10) none 100 20
    ≡ ok (record { doomed = "a" ∷ []; unlinked = []; deleted = 1; freed_bytes = 50 })
unfolding sweep_directory unlink_all
failure_counted = refl

select_expired-fits_example :
    (r : Expired ℕ) × (select_expired (stamps_of files) (items_of files) (some 60) (some 80) 100
      ≡ ok r)
    × (split : IsSplit (reversed files) r) × (total_size (stamps_of split.kept) ≤ 60)
select_expired-fits_example = select_expired-fits files 60 (some 80) 100

sweep_directory-IsSafe_example :
    (swept : Swept) × (sweep_directory (λ p. true) (some entries) (some 10) none 100 20 ≡ ok swept)
    × IsSafe (λ p. true) 20 100 entries swept
sweep_directory-IsSafe_example =
    sweep_directory-IsSafe (λ p. true) (some entries) (some 10) none 100 20 (omega arith)

-- A patch with a negative cap, one that is no number and an unknown category.
abbrev patch : Dict PatchValue
patch =
    ("fullVideo", fields (("max_mb", number (negsuc 4)) ∷ ("max_days", unreadable) ∷ []))
    ∷ ("unknown", fields (("max_mb", number (pos 1)) ∷ []))
    ∷ []
