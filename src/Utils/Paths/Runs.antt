-- ===== src/Utils/Paths/Runs.antt =====
-- The characters and the runs of dots in what `sanitize_filename` of addon/petkit_local/utils/paths.py
-- makes of a name before the cap.
use petkit_local.Prelude.{
  ℕ, zero, suc, ◌≡◌, refl, Bool, true, false, not, ◌&&◌, ◌||◌, inl, inr, [], ◌∷◌, ◌++◌, ◌==◌,
  filter, map, All, Text, arith, Bool-cases,
}
use petkit_local.Utils.Paths.{
  is_control, is_unsafe, dash_unsafe, close_run, dash_runs, is_stripped, lstrip, keep_stripped,
  rstrip, strip,
}

-- Neither a control character nor one that breaks a path or a URL.
abbrev pub IsAllowed : ℕ → Type 0
IsAllowed c = (is_control c || is_unsafe c) ≡ false

-- Two dots in a row, after a dot or not.
pub has_run : Bool → Text → Bool
has_run after [] = false
has_run after (c ∷ t) = (after && c == b'.') || has_run (c == b'.') t

-- The first character is not stripped; an empty text has none.
unfoldable pub starts_plain : Text → Bool
unfolding is_stripped
starts_plain [] = true
starts_plain (c ∷ t) = not (is_stripped c)

dash-IsAllowed : IsAllowed b'-'
unfolding is_control is_unsafe
dash-IsAllowed = refl

dot-IsAllowed : IsAllowed b'.'
unfolding is_control is_unsafe
dot-IsAllowed = refl

dash_unsafe-IsAllowed : (c : ℕ) → is_control c ≡ false → IsAllowed (dash_unsafe c)
unfolding dash_unsafe
dash_unsafe-IsAllowed c h = elim (Bool-cases (is_unsafe c)) [
  | inl e ↦ rw e dash-IsAllowed
  | inr e ↦ rw (e, h, e) refl
]

pub dashed-IsAllowed :
    (t : Text) → All IsAllowed (map dash_unsafe (filter (λ c. not (is_control c)) t))
dashed-IsAllowed [] = tt
dashed-IsAllowed (c ∷ t) = elim (Bool-cases (is_control c)) [
  | inl e ↦ rw e (dashed-IsAllowed t)
  | inr e ↦ rw e (dash_unsafe-IsAllowed c e, dashed-IsAllowed t)
]

close_run-append : (n : ℕ) (t : Text) → All IsAllowed t → All IsAllowed (close_run n ++ t)
unfolding close_run
close_run-append zero t h = h
close_run-append (suc zero) t h = (dot-IsAllowed, h)
close_run-append (suc (suc n)) t h = (dash-IsAllowed, h)

close_run-IsAllowed : (n : ℕ) → All IsAllowed (close_run n)
unfolding close_run
close_run-IsAllowed zero = tt
close_run-IsAllowed (suc zero) = (dot-IsAllowed, tt)
close_run-IsAllowed (suc (suc n)) = (dash-IsAllowed, tt)

pub dash_runs-IsAllowed : (n : ℕ) (t : Text) → All IsAllowed t → All IsAllowed (dash_runs n t)
unfolding dash_runs
dash_runs-IsAllowed n [] h = close_run-IsAllowed n
dash_runs-IsAllowed n (c ∷ t) (p, h) = elim (Bool-cases (c == b'.')) [
  | inl e ↦ rw e (dash_runs-IsAllowed (suc n) t h)
  | inr e ↦ rw e (close_run-append n (c ∷ dash_runs 0 t) (p, dash_runs-IsAllowed 0 t h))
]

close_run-has_run :
    (n c : ℕ) (t : Text)
    → (c == b'.') ≡ false
    → has_run false t ≡ false
    → has_run false (close_run n ++ c ∷ t) ≡ false
unfolding close_run has_run
close_run-has_run zero c t h k = rw (h, k) refl
close_run-has_run (suc zero) c t h k = rw (h, k) refl
close_run-has_run (suc (suc n)) c t h k = rw (h, k) refl

close_run-no_run : (n : ℕ) → has_run false (close_run n) ≡ false
unfolding close_run has_run
close_run-no_run zero = refl
close_run-no_run (suc zero) = refl
close_run-no_run (suc (suc n)) = refl

pub dash_runs-has_run : (n : ℕ) (t : Text) → has_run false (dash_runs n t) ≡ false
unfolding dash_runs
dash_runs-has_run n [] = close_run-no_run n
dash_runs-has_run n (c ∷ t) = elim (Bool-cases (c == b'.')) [
  | inl e ↦ rw e (dash_runs-has_run (suc n) t)
  | inr e ↦ rw e (close_run-has_run n c (dash_runs 0 t) e (dash_runs-has_run 0 t))
]

has_run-false : (after : Bool) (t : Text) → has_run after t ≡ false → has_run false t ≡ false
unfolding has_run
has_run-false after [] h = refl
has_run-false after (c ∷ t) h = ground arith

lstrip-has_run : (t : Text) → has_run false t ≡ false → has_run false (lstrip t) ≡ false
unfolding lstrip has_run
lstrip-has_run [] h = refl
lstrip-has_run (c ∷ t) h = elim (Bool-cases (is_stripped c)) [
  | inl e ↦ rw e (lstrip-has_run t (has_run-false (c == b'.') t h))
  | inr e ↦ rw e h
]

keep_stripped-has_run :
    (after : Bool) (c : ℕ) (t : Text)
    → has_run after (c ∷ t) ≡ false
    → has_run after (keep_stripped c t) ≡ false
unfolding keep_stripped has_run
keep_stripped-has_run after c [] h = elim (Bool-cases (is_stripped c)) [
  | inl e ↦ rw e refl
  | inr e ↦ rw e h
]
keep_stripped-has_run after c (d ∷ t) h = h

rstrip-has_run :
    (after : Bool) (t : Text) → has_run after t ≡ false → has_run after (rstrip t) ≡ false
unfolding rstrip has_run
rstrip-has_run after [] h = refl
rstrip-has_run after (c ∷ t) h =
    keep_stripped-has_run after c (rstrip t) (ground (arith, rstrip-has_run (c == b'.') t))

pub strip-has_run : (t : Text) → has_run false t ≡ false → has_run false (strip t) ≡ false
unfolding strip
strip-has_run t h = rstrip-has_run false (lstrip t) (lstrip-has_run t h)
