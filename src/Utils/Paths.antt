-- ===== src/Utils/Paths.antt =====
-- `sanitize_filename` of addon/petkit_local/utils/paths.py, on texts as lists of code points.
pub mod Runs
pub mod Safe
use petkit_local.Prelude.{
  ℕ, zero, suc, ◌-◌, Bool, true, false, not, ◌&&◌, ◌||◌, Option, none, some, List, [], ◌∷◌, ◌++◌,
  ◌==◌, leb, ltb, length, take, filter, map, any, contains, if◌then◌else◌, Text, codes,
}

-- A character that _CONTROL_CHARS matches
unfoldable pub is_control : ℕ → Bool
is_control c = leb c 31 || (leb 127 c && leb c 159)

-- A character that _UNSAFE_CHARS matches
unfoldable pub is_unsafe : ℕ → Bool
is_unsafe c = contains (codes "\\/:*?\"<>|#&%") c

-- _UNSAFE_CHARS.sub("-", name), for one character
unfoldable pub dash_unsafe : ℕ → ℕ
unfolding is_unsafe
dash_unsafe c = if is_unsafe c then b'-' else c

-- What a run of dots becomes: _DOT_RUNS matches two or more.
unfoldable pub close_run : ℕ → Text
close_run zero = []
close_run (suc zero) = b'.' ∷ []
close_run (suc (suc n)) = b'-' ∷ []

-- _DOT_RUNS.sub("-", name), after a number of dots
unfoldable pub dash_runs : ℕ → Text → Text
unfolding close_run
dash_runs n [] = close_run n
dash_runs n (c ∷ t) =
    let in_run = dash_runs (suc n) t in
    let after = dash_runs 0 t in if c == b'.' then in_run else close_run n ++ c ∷ after

-- A character of " .-"
unfoldable pub is_stripped : ℕ → Bool
is_stripped c = c == b' ' || (c == b'.' || c == b'-')

unfoldable pub lstrip : Text → Text
unfolding is_stripped
lstrip [] = []
lstrip (c ∷ t) = let rest = lstrip t in if is_stripped c then rest else c ∷ t

unfoldable pub keep_stripped : ℕ → Text → Text
unfolding is_stripped
keep_stripped c [] = if is_stripped c then [] else c ∷ []
keep_stripped c (d ∷ rest) = c ∷ d ∷ rest

unfoldable pub rstrip : Text → Text
unfolding keep_stripped
rstrip [] = []
rstrip (c ∷ t) = keep_stripped c (rstrip t)

-- name.strip(" .-")
unfoldable pub strip : Text → Text
unfolding lstrip rstrip
strip t = rstrip (lstrip t)

unfoldable pub later_dot : ℕ → Text → Option (Text × Text) → Option (Text × Text)
later_dot c t (some (stem, ext)) = some (c ∷ stem, ext)
later_dot c t none = if c == b'.' then some ([], c ∷ t) else none

-- The text before the last dot, and the text from it on.
unfoldable pub at_last_dot : Text → Option (Text × Text)
unfolding later_dot
at_last_dot [] = none
at_last_dot (c ∷ t) = later_dot c t (at_last_dot t)

unfoldable unless_hidden : Text → Option (Text × Text) → Text × Text
unless_hidden name none = (name, [])
unless_hidden name (some (stem, ext)) =
    if any (λ c. not (c == b'.')) stem then (stem, ext) else (name, [])

-- os.path.splitext of a name without separators
unfoldable pub splitext : Text → Text × Text
unfolding unless_hidden at_last_dot
splitext name = unless_hidden name (at_last_dot name)

abbrev pub max_extension_length : ℕ
max_extension_length = 12

unfoldable truncate : ℕ → Text → Text × Text → Text
unfolding strip
truncate max name (stem, ext) =
    if ltb max_extension_length (length ext) || leb max (length ext)
    then strip (take max name)
    else strip (take (max - length ext) stem ++ ext)

-- The cap on the length, which keeps a short extension.
unfoldable pub cap : ℕ → Text → Text
unfolding truncate splitext
cap max name = if ltb max (length name) then truncate max name (splitext name) else name

-- name or fallback
unfoldable pub or_fallback : Text → Text → Text
or_fallback fallback [] = fallback
or_fallback fallback (c ∷ t) = c ∷ t

-- The name before the cap.
unfoldable pub clean : Text → Text
unfolding is_control dash_unsafe dash_runs strip
clean name = strip (dash_runs 0 (map dash_unsafe (filter (λ c. not (is_control c)) name)))

unfoldable finish : Text → ℕ → Text → Text
unfolding or_fallback cap
finish fallback max [] = fallback
finish fallback max (c ∷ t) = or_fallback fallback (cap max (c ∷ t))

-- sanitize_filename
unfoldable pub sanitize_filename : Text → ℕ → Text → Text
unfolding finish clean
sanitize_filename fallback max name = finish fallback max (clean name)
