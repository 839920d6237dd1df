-- ===== src/Media/Retention/Sweep.antt =====
-- What a sweep of a directory tries to delete.
use petkit_local.Prelude.{
  ℕ, zero, suc, ◌+◌, ◌-◌, ◌≤◌, ◌<◌, ◌==◌, ◌≡◌, ◌≢◌, refl, sym, ap, false, Option, none, some, List,
  [], ◌∷◌, ◌++◌, map, ltb, length, get_elem?, Result, ok, ◌>>=◌, arith, Bool-cases, inl, inr, All,
  String, Bool, filter,
}
use petkit_local.Events.Rows.{ts_or_0}
use petkit_local.Media.Retention.{
  Stamp, is_expired, reversed, expire, walk, Entry, stamp_of, range_from, is_in_flight, Swept,
  nothing_swept, entry_at, spare, doomed_entries, entries_size, report, unlink_all, newest_first,
  sweep_entries, sweep_directory, total_size,
}
use petkit_local.Media.Retention.Entries.{
  AllTrue, get_elem?-AllTrue, AllTrue-sort_by, AllTrue-spare,
}
use petkit_local.Media.Retention.Selection.{stamps_of, items_of, select_expired_lem}

-- What the age floor and the report ask of the entries behind a sweep.
pub record IsSafe (removable : String → Bool) (min_age now : ℕ) (scan : List Entry) (swept : Swept)
    : Type 0 where
  pub gone : List Entry
  pub paths : swept.doomed ≡ map (λ e. e.path) gone
  pub removed : swept.unlinked ≡ filter removable (map (λ e. e.path) gone)
  pub counted : swept.deleted ≡ length gone
  pub freed : swept.freed_bytes ≡ entries_size gone
  pub old : All (λ e. ts_or_0 e.mtime + min_age ≤ now) gone
  pub listed : (test : Entry → Bool) → AllTrue test scan → AllTrue test gone

-- The items of a walk have what all of the files' items have.
All-walk :
    (P : ℕ → Type 0) (max_bytes max_age : Option ℕ) (now total : ℕ) (fs : List (Stamp × ℕ))
    → All P (items_of fs)
    → All P (walk max_bytes max_age now total fs).items
unfolding walk expire
All-walk P max_bytes max_age now total [] h = tt
All-walk P max_bytes max_age now total ((s, x) ∷ fs) (p, h) =
    elim (Bool-cases (is_expired max_bytes max_age now total s)) [
      | inl t ↦ rw t ((p, All-walk P max_bytes max_age now (total - s.size) fs h))
      | inr f ↦ rw f (All-walk P max_bytes max_age now total fs h)
    ]

-- An index in range finds an entry.
get_elem?-some :
    (entries : List Entry) (i : ℕ)
    → i < length entries
    → (e : Entry) × (get_elem? entries i ≡ some e)
get_elem?-some [] i h = absurd (omega arith)
get_elem?-some (e ∷ entries) zero h = (e, refl)
get_elem?-some (e ∷ entries) (suc i) h = get_elem?-some entries i (omega arith)

-- A list of entries that were found and are old enough.
record IsDoomed (min_age now : ℕ) (scan : List Entry) (found : Result (List Entry)) : Type 0 where
  gone : List Entry
  returned : found ≡ ok gone
  old : All (λ e. ts_or_0 e.mtime + min_age ≤ now) gone
  listed : (test : Entry → Bool) → AllTrue test scan → AllTrue test gone

All-spare :
    (min_age now : ℕ) (e : Entry) (rest : List Entry)
    → min_age ≢ 0
    → All (λ e. ts_or_0 e.mtime + min_age ≤ now) rest
    → All (λ e. ts_or_0 e.mtime + min_age ≤ now) (spare min_age now e rest)
unfolding spare is_in_flight
All-spare min_age now e rest h r = elim (Bool-cases (ltb now (ts_or_0 e.mtime + min_age))) [
  | inl t ↦ rw (is_positive min_age h, t) r
  | inr f ↦ rw (is_positive min_age h, f) ((at_most (ts_or_0 e.mtime + min_age) now f, r))
]
  where
    is_positive : (n : ℕ) → n ≢ 0 → (n == 0) ≡ false
    is_positive n h = ground arith

    at_most : (m n : ℕ) → ltb n m ≡ false → m ≤ n
    at_most m n h = ground arith

-- The entries behind indices in range are found, and those in flight are spared.
doomed_entries-IsDoomed :
    (min_age now : ℕ) (entries : List Entry) (is : List ℕ)
    → min_age ≢ 0
    → All (λ i. i < length entries) is
    → IsDoomed min_age now entries (doomed_entries min_age now entries is)
unfolding doomed_entries entry_at
doomed_entries-IsDoomed min_age now entries [] h k = record {
  gone = [];
  returned = refl;
  old = tt;
  listed = λ test a. tt;
}
doomed_entries-IsDoomed min_age now entries (i ∷ is) h (p, k) =
    let found = get_elem?-some entries i p in
    let r = doomed_entries-IsDoomed min_age now entries is h k in
    record {
      gone = spare min_age now found.0 r.gone;
      returned = rw (found.1, r.returned) refl;
      old = All-spare min_age now found.0 r.gone h r.old;
      listed = λ test a.
          AllTrue-spare test min_age now found.0 r.gone
            (get_elem?-AllTrue test entries i found.0 found.1 a) (r.listed test a);
    }

-- The entries with their indices, from a first one on.
files_of : ℕ → List Entry → List (Stamp × ℕ)
files_of i [] = []
files_of i (e ∷ es) = (stamp_of e, i) ∷ files_of (suc i) es

stamps_of-files_of : (i : ℕ) (es : List Entry) → stamps_of (files_of i es) ≡ map stamp_of es
unfolding files_of
stamps_of-files_of i [] = refl
stamps_of-files_of i (e ∷ es) = ap (λ l. stamp_of e ∷ l) (stamps_of-files_of (suc i) es)

items_of-files_of : (i : ℕ) (es : List Entry) → items_of (files_of i es) ≡ range_from i (length es)
unfolding files_of range_from
items_of-files_of i [] = refl
items_of-files_of i (e ∷ es) = ap (λ l. i ∷ l) (items_of-files_of (suc i) es)

All-append :
    (P : ℕ → Type 0) (fs gs : List (Stamp × ℕ))
    → All P (items_of fs)
    → All P (items_of gs)
    → All P (items_of (fs ++ gs))
All-append P [] gs h k = k
All-append P ((s, x) ∷ fs) gs (p, h) k = (p, All-append P fs gs h k)

All-reversed :
    (P : ℕ → Type 0) (fs : List (Stamp × ℕ)) → All P (items_of fs) → All P (items_of (reversed fs))
unfolding reversed
All-reversed P [] h = tt
All-reversed P ((s, x) ∷ fs) (p, h) =
    All-append P (reversed fs) ((s, x) ∷ []) (All-reversed P fs h) (p, tt)

in_range :
    (i n : ℕ) (es : List Entry) → i + length es ≤ n → All (λ j. j < n) (items_of (files_of i es))
unfolding files_of
in_range i n [] h = tt
in_range i n (e ∷ es) h = (omega arith, in_range (suc i) n es (omega arith))

sweep_entries-IsDoomed :
    (entries : List Entry) (max_bytes max_age : Option ℕ) (now min_age : ℕ)
    → min_age ≢ 0
    → IsDoomed min_age now entries (sweep_entries entries max_bytes max_age now min_age)
unfolding sweep_entries
sweep_entries-IsDoomed entries max_bytes max_age now min_age h =
    let fs = files_of 0 entries in
    rw
      (
        sym (stamps_of-files_of 0 entries),
        sym (items_of-files_of 0 entries),
        select_expired_lem fs max_bytes max_age now,
      )
      (doomed_entries-IsDoomed min_age now entries _ h (
        All-walk (λ j. j < length entries) max_bytes max_age now (total_size (stamps_of fs))
          (reversed fs)
          (All-reversed (λ j. j < length entries) fs
            (in_range 0 (length entries) entries (omega arith)))))

report-IsSafe :
    (removable : String → Bool) (min_age now : ℕ) (scan : List Entry) (found : Result (List Entry))
    → IsDoomed min_age now (newest_first scan) found
    → (swept : Swept) × ((found >>= λ doomed. ok (report removable doomed)) ≡ ok swept)
      × IsSafe removable min_age now scan swept
unfolding report unlink_all newest_first
report-IsSafe removable min_age now scan found d = (
  report removable d.gone,
  rw (d.returned) refl,
  record {
    gone = d.gone;
    paths = refl;
    removed = refl;
    counted = refl;
    freed = refl;
    old = d.old;
    listed = λ test a.
        d.listed test
          (AllTrue-sort_by test (λ x y. ltb (ts_or_0 x.mtime) (ts_or_0 y.mtime)) scan a);
  },
)

-- What a scan found; a scan that failed found nothing.
abbrev pub found_by : Option (List Entry) → List Entry
found_by none = []
found_by (some found) = found

-- The age floor holds whatever the caps say: with a positive `min_age` a sweep never raises, what it
-- tries to unlink are the paths of entries that the scan found and that are at least `min_age` old,
-- those of them that can be removed are unlinked, in order, and what it reports is the number and
-- the sum of the sizes of the entries that it tried.
pub sweep_directory-IsSafe :
    (removable : String → Bool) (scan : Option (List Entry)) (max_bytes max_age : Option ℕ)
    (now min_age : ℕ)
    → min_age ≢ 0
    → (swept : Swept) × (sweep_directory removable scan max_bytes max_age now min_age ≡ ok swept)
      × IsSafe removable min_age now (found_by scan) swept
unfolding sweep_directory nothing_swept
sweep_directory-IsSafe removable none max_bytes max_age now min_age h = (
  nothing_swept,
  refl,
  record {
    gone = [];
    paths = refl;
    removed = refl;
    counted = refl;
    freed = refl;
    old = tt;
    listed = λ test a. tt;
  },
)
sweep_directory-IsSafe removable (some found) max_bytes max_age now min_age h =
    report-IsSafe removable min_age now found
      (sweep_entries (newest_first found) max_bytes max_age now min_age)
      (sweep_entries-IsDoomed (newest_first found) max_bytes max_age now min_age h)
