-- ===== src/Media/Retention.antt =====
-- The retention sweeper: which of the stored files must go, of addon/petkit_local/media/retention.py.
-- Sizes are bytes; times and ages are natural numbers of one unit of time, so that `now - created`,
-- which stops at 0 here where the code goes below, exceeds an age cap in the same cases. What
-- `os.walk` and `os.stat` report and which paths `os.remove` can remove are arguments of the sweep.
pub mod Selection
pub mod Entries
pub mod Sweep
use petkit_local.Prelude.{
  ℕ, zero, suc, ◌+◌, ◌-◌, String, Bool, true, false, ◌&&◌, ◌||◌, Option, none, some, List, [], ◌∷◌,
  ◌++◌, map, ltb, ◌==◌, if◌then◌else◌, get_elem?, length, Error, value_error, index_error, Result,
  ok, err, ◌>>=◌, filter,
}
use petkit_local.Events.Rows.{ts_or_0}
use petkit_local.Events.Sessions.Groups.{sort_by}

-- What `_select_expired` reads of one file.
pub record Stamp : Type 0 where
  pub size : ℕ
  pub created : Option ℕ

abbrev pub total_size : List Stamp → ℕ
total_size [] = 0
total_size (s ∷ ss) = s.size + total_size ss

unfoldable pub over_size : Option ℕ → ℕ → Bool
over_size none total = false
over_size (some max_bytes) total = ltb max_bytes total

unfoldable pub over_age : Option ℕ → Option ℕ → ℕ → Bool
over_age none created now = false
over_age (some max_age) none now = false
over_age (some max_age) (some created) now = ltb max_age (now - created)

-- Whether a file must go, while the files take up `total` bytes.
pub is_expired : Option ℕ → Option ℕ → ℕ → ℕ → Stamp → Bool
unfolding over_size over_age
is_expired max_bytes max_age now total s =
    over_size max_bytes total || over_age max_age s.created now

module _ {ℓ} {A : Type ℓ} where
  unfoldable pub reversed : List A → List A
  reversed [] = []
  reversed (x ∷ xs) = reversed xs ++ x ∷ []

-- zip(…, strict=True)
module _ {ℓ} {A : Type ℓ} where
  unfoldable pub zip_strict : List Stamp → List A → Result (List (Stamp × A))
  zip_strict [] [] = ok []
  zip_strict [] (x ∷ xs) = err value_error
  zip_strict (s ∷ ss) [] = err value_error
  zip_strict (s ∷ ss) (x ∷ xs) = do rest ← zip_strict ss xs; ok ((s, x) ∷ rest)

-- The files that go, oldest first, and the bytes that they free.
pub record Expired {ℓ} (A : Type ℓ) : Type ℓ where
  pub items : List A
  pub freed : ℕ

module _ {ℓ} {A : Type ℓ} where
  expire : Stamp → A → Expired A → Expired A
  expire s x rest = record { items = x ∷ rest.items; freed = s.size + rest.freed }

  -- The loop over the files from the oldest on.
  unfoldable pub walk : Option ℕ → Option ℕ → ℕ → ℕ → List (Stamp × A) → Expired A
  unfolding is_expired expire
  walk max_bytes max_age now total [] = record { items = []; freed = 0 }
  walk max_bytes max_age now total ((s, x) ∷ rest) =
      let gone = expire s x (walk max_bytes max_age now (total - s.size) rest) in
      let kept = walk max_bytes max_age now total rest in
      if is_expired max_bytes max_age now total s then gone else kept

  -- _select_expired; the stamps and the items are newest first.
  unfoldable pub select_expired : List Stamp → List A → Option ℕ → Option ℕ → ℕ → Result (Expired A)
  unfolding reversed zip_strict walk
  select_expired stamps items max_bytes max_age now = do
    files ← zip_strict (reversed stamps) (reversed items)
    ok (walk max_bytes max_age now (total_size stamps) files)

-- One file that the scan found.
pub record Entry : Type 0 where
  pub size : ℕ
  pub mtime : Option ℕ
  pub path : String

abbrev stamp_of : Entry → Stamp
stamp_of e = record { size = e.size; created = e.mtime }

-- list(range(n)), from a first number on
unfoldable pub range_from : ℕ → ℕ → List ℕ
range_from i zero = []
range_from i (suc n) = i ∷ range_from (suc i) n

-- The age floor: a file that is too young to be anything but in flight.
pub is_in_flight : ℕ → ℕ → Entry → Bool
is_in_flight min_age now e = if min_age == 0 then false else ltb now (ts_or_0 e.mtime + min_age)

-- What a sweep tries to unlink, what of it is unlinked, and what it reports.
pub record Swept : Type 0 where
  pub doomed : List String
  pub unlinked : List String
  pub deleted : ℕ
  pub freed_bytes : ℕ

nothing_swept : Swept
nothing_swept = record { doomed = []; unlinked = []; deleted = 0; freed_bytes = 0 }

-- entries[i]
entry_at : Option Entry → Result Entry
entry_at none = err index_error
entry_at (some e) = ok e

unfoldable pub spare : ℕ → ℕ → Entry → List Entry → List Entry
unfolding is_in_flight
spare min_age now e rest = if is_in_flight min_age now e then rest else e ∷ rest

-- The entries behind the expired indices, less those in flight.
doomed_entries : ℕ → ℕ → List Entry → List ℕ → Result (List Entry)
unfolding entry_at spare
doomed_entries min_age now entries [] = ok []
doomed_entries min_age now entries (i ∷ is) = do
  e ← entry_at (get_elem? entries i)
  rest ← doomed_entries min_age now entries is
  ok (spare min_age now e rest)

abbrev pub entries_size : List Entry → ℕ
entries_size [] = 0
entries_size (e ∷ es) = e.size + entries_size es

-- _unlink_all: a path that cannot be removed is left out in silence.
unfoldable pub unlink_all : (String → Bool) → List String → List String
unlink_all removable paths = filter removable paths

report : (String → Bool) → List Entry → Swept
unfolding unlink_all
report removable es = record {
  doomed = map (λ e. e.path) es;
  unlinked = unlink_all removable (map (λ e. e.path) es);
  deleted = length es;
  freed_bytes = entries_size es;
}

-- entries.sort(key=lambda e: e[1] or 0, reverse=True)
newest_first : List Entry → List Entry
unfolding sort_by
newest_first = sort_by (λ x y. ltb (ts_or_0 x.mtime) (ts_or_0 y.mtime))

-- The sweep of the entries in their order.
sweep_entries : List Entry → Option ℕ → Option ℕ → ℕ → ℕ → Result (List Entry)
unfolding doomed_entries select_expired range_from
sweep_entries entries max_bytes max_age now min_age = do
  expired ←
      select_expired (map stamp_of entries) (range_from 0 (length entries)) max_bytes max_age now
  doomed_entries min_age now entries expired.items

-- _sweep_directory_sync. A scan that failed is `none`; `removable` is what can be unlinked.
unfoldable pub sweep_directory :
    (String → Bool) → Option (List Entry) → Option ℕ → Option ℕ → ℕ → ℕ → Result Swept
unfolding nothing_swept newest_first sweep_entries report
sweep_directory removable none max_bytes max_age now min_age = ok nothing_swept
sweep_directory removable (some found) max_bytes max_age now min_age = do
  doomed ← sweep_entries (newest_first found) max_bytes max_age now min_age
  ok (report removable doomed)
