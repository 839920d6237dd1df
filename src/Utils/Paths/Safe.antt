-- ===== src/Utils/Paths/Safe.antt =====
-- What `sanitize_filename` of addon/petkit_local/utils/paths.py gives.
use petkit_local.Prelude.{
  ℕ, suc, ◌-◌, ◌+◌, ◌≤◌, ◌≡◌, ◌≢◌, ◌∙◌, refl, sym, subst, true, false, not, ◌||◌, Option, none,
  some, ◌⊎◌, inl, inr, [], ◌∷◌, ◌++◌, ◌==◌, leb, ltb, length, length-append, length-take, take,
  filter, map, any, All, All-take, Text, arith, Bool-cases,
}
use petkit_local.Utils.Paths.{
  is_control, dash_unsafe, dash_runs, is_stripped, lstrip, keep_stripped, rstrip, strip, later_dot,
  at_last_dot, unless_hidden, splitext, truncate, cap, or_fallback, clean, finish,
  sanitize_filename,
}
use petkit_local.Utils.Paths.Runs.{
  IsAllowed, has_run, starts_plain, dashed-IsAllowed, dash_runs-IsAllowed, dash_runs-has_run,
  strip-has_run,
}

lstrip-All : (P : ℕ → Type 0) (t : Text) → All P t → All P (lstrip t)
unfolding lstrip
lstrip-All P [] h = tt
lstrip-All P (c ∷ t) (p, h) = elim (Bool-cases (is_stripped c)) [
  | inl e ↦ rw e (lstrip-All P t h)
  | inr e ↦ rw e (p, h)
]

keep_stripped-All : (P : ℕ → Type 0) (c : ℕ) (t : Text) → P c → All P t → All P (keep_stripped c t)
unfolding keep_stripped
keep_stripped-All P c [] p h = elim (Bool-cases (is_stripped c)) [
  | inl e ↦ rw e tt
  | inr e ↦ rw e (p, tt)
]
keep_stripped-All P c (d ∷ t) p h = (p, h)

rstrip-All : (P : ℕ → Type 0) (t : Text) → All P t → All P (rstrip t)
unfolding rstrip
rstrip-All P [] h = tt
rstrip-All P (c ∷ t) (p, h) = keep_stripped-All P c (rstrip t) p (rstrip-All P t h)

strip-All : (P : ℕ → Type 0) (t : Text) → All P t → All P (strip t)
unfolding strip
strip-All P t h = rstrip-All P (lstrip t) (lstrip-All P t h)

lstrip-starts_plain : (t : Text) → starts_plain (lstrip t) ≡ true
unfolding lstrip starts_plain
lstrip-starts_plain [] = refl
lstrip-starts_plain (c ∷ t) = elim (Bool-cases (is_stripped c)) [
  | inl e ↦ rw e (lstrip-starts_plain t)
  | inr e ↦ rw (e, e) refl
]

rstrip-starts_plain : (t : Text) → starts_plain t ≡ true → starts_plain (rstrip t) ≡ true
unfolding rstrip starts_plain keep_stripped
rstrip-starts_plain [] h = refl
rstrip-starts_plain (c ∷ t) h = kept (rstrip t)
  where
    kept : (r : Text) → starts_plain (keep_stripped c r) ≡ true
    kept [] = elim (Bool-cases (is_stripped c)) [ inl e ↦ rw e refl | inr e ↦ rw e h ]
    kept (d ∷ r) = h

strip-starts_plain : (t : Text) → starts_plain (strip t) ≡ true
unfolding strip
strip-starts_plain t = rstrip-starts_plain (lstrip t) (lstrip-starts_plain t)

lstrip-length : (t : Text) → length (lstrip t) ≤ length t
unfolding lstrip
lstrip-length [] = omega arith
lstrip-length (c ∷ t) = elim (Bool-cases (is_stripped c)) [
  | inl e ↦ rw e (omega (arith, lstrip-length t))
  | inr e ↦ rw e (omega arith)
]

keep_stripped-length : (c : ℕ) (t : Text) → length (keep_stripped c t) ≤ suc (length t)
unfolding keep_stripped
keep_stripped-length c [] = elim (Bool-cases (is_stripped c)) [
  | inl e ↦ rw e (omega arith)
  | inr e ↦ rw e (omega arith)
]
keep_stripped-length c (d ∷ t) = omega arith

rstrip-length : (t : Text) → length (rstrip t) ≤ length t
unfolding rstrip
rstrip-length [] = omega arith
rstrip-length (c ∷ t) = omega (arith, keep_stripped-length c (rstrip t), rstrip-length t)

strip-length : (t : Text) → length (strip t) ≤ length t
unfolding strip
strip-length t = omega (arith, lstrip-length t, rstrip-length (lstrip t))

All-append : (P : ℕ → Type 0) (s t : Text) → All P s → All P t → All P (s ++ t)
All-append P [] t h k = k
All-append P (c ∷ s) t (p, h) k = (p, All-append P s t h k)

abbrev Halves : (ℕ → Type 0) → Option (Text × Text) → Type 0
Halves P none = Unit
Halves P (some (stem, ext)) = All P stem × All P ext

at_last_dot-All : (P : ℕ → Type 0) (t : Text) → All P t → Halves P (at_last_dot t)
unfolding at_last_dot later_dot
at_last_dot-All P [] h = tt
at_last_dot-All P (c ∷ t) (p, h) = joined (at_last_dot t) (at_last_dot-All P t h)
  where
    joined : (o : Option (Text × Text)) → Halves P o → Halves P (later_dot c t o)
    joined (some (stem, ext)) k = ((p, k.0), k.1)
    joined none k = elim (Bool-cases (c == b'.')) [ inl e ↦ rw e (tt, (p, h)) | inr e ↦ rw e tt ]

splitext-All : (P : ℕ → Type 0) (t : Text) → All P t → All P (splitext t).0 × All P (splitext t).1
unfolding splitext unless_hidden
splitext-All P t h = chosen (at_last_dot t) (at_last_dot-All P t h)
  where
    chosen :
        (o : Option (Text × Text))
        → Halves P o
        → All P (unless_hidden t o).0 × All P (unless_hidden t o).1
    chosen none k = (h, tt)
    chosen (some (stem, ext)) k = elim (Bool-cases (any (λ c. not (c == b'.')) stem)) [
      | inl e ↦ rw e k
      | inr e ↦ rw e (h, tt)
    ]

-- A text that is not empty is fit for a name: its characters are allowed, it starts with no space, dot or
-- dash, and it is within the cap.
abbrev pub IsFit : ℕ → Text → Type 0
IsFit max t = All IsAllowed t × ((starts_plain t ≡ true) × (length t ≤ max))

truncate-IsFit :
    (max : ℕ) (name : Text) (parts : Text × Text)
    → All IsAllowed name
    → All IsAllowed parts.0
    → All IsAllowed parts.1
    → IsFit max (truncate max name parts)
unfolding truncate
truncate-IsFit max name (stem, ext) h hs he =
    elim (Bool-cases (ltb 12 (length ext) || leb max (length ext))) [
      | inl e ↦ rw e (
        strip-All IsAllowed (take max name) (All-take IsAllowed max name h),
        (
          strip-starts_plain (take max name),
          omega (arith, strip-length (take max name), length-take max name),
        ),
      )
      | inr e ↦ rw e (
        strip-All IsAllowed (take (max - length ext) stem ++ ext)
            (All-append IsAllowed _ ext (All-take IsAllowed (max - length ext) stem hs) he),
        (
          strip-starts_plain (take (max - length ext) stem ++ ext),
          omega (
            arith,
            strip-length (take (max - length ext) stem ++ ext),
            length-append (take (max - length ext) stem) ext,
            length-take (max - length ext) stem,
            below (length ext) e,
          ),
        ),
      )
    ]
  where
    below : (n : ℕ) → (ltb 12 n || leb max n) ≡ false → n + 1 ≤ max
    below n e = ground arith

clean-IsAllowed : (name : Text) → All IsAllowed (clean name)
unfolding clean
clean-IsAllowed name = strip-All IsAllowed _ (dash_runs-IsAllowed 0 _ (dashed-IsAllowed name))

clean-has_run : (name : Text) → has_run false (clean name) ≡ false
unfolding clean
clean-has_run name =
    strip-has_run _ (dash_runs-has_run 0 (map dash_unsafe (filter (λ c. not (is_control c)) name)))

clean-starts_plain : (name : Text) → starts_plain (clean name) ≡ true
unfolding clean
clean-starts_plain name =
    strip-starts_plain (dash_runs 0 (map dash_unsafe (filter (λ c. not (is_control c)) name)))

cap-IsFit : (max : ℕ) (t : Text) → All IsAllowed t → starts_plain t ≡ true → IsFit max (cap max t)
unfolding cap
cap-IsFit max t h p = elim (Bool-cases (ltb max (length t))) [
  | inl e ↦ rw e (
      truncate-IsFit max t (splitext t) h (splitext-All IsAllowed t h).0
        (splitext-All IsAllowed t h).1)
  | inr e ↦ rw e (h, (p, within (length t) e))
]
  where
    within : (n : ℕ) → ltb max n ≡ false → n ≤ max
    within n e = ground arith

-- A name within the cap is not truncated.
cap-short : (max : ℕ) (t : Text) → length t ≤ max → cap max t ≡ t
unfolding cap
cap-short max t h = rw (small (length t) h) refl
  where
    small : (n : ℕ) → n ≤ max → ltb max n ≡ false
    small n k = ground arith

-- What is given is the fallback, or it is not empty, has only allowed characters, starts with no space,
-- dot or dash and is within the cap; and it has no two dots in a row if the cleaned name is within the cap.
pub sanitize_filename_lem :
    (fallback name : Text) (max : ℕ)
    → (sanitize_filename fallback max name ≡ fallback)
      ⊎ ((sanitize_filename fallback max name ≢ [])
          × (IsFit max (sanitize_filename fallback max name)
              × (length (clean name) ≤ max
                  → has_run false (sanitize_filename fallback max name) ≡ false)))
unfolding sanitize_filename finish or_fallback
sanitize_filename_lem fallback name max =
    finished (clean name) (clean-IsAllowed name) (clean-starts_plain name) (clean-has_run name)
  where
    named :
        (t r : Text)
        → cap max t ≡ r
        → IsFit max r
        → has_run false t ≡ false
        → (or_fallback fallback r ≡ fallback)
          ⊎ ((or_fallback fallback r ≢ [])
              × (IsFit max (or_fallback fallback r)
                  × (length t ≤ max → has_run false (or_fallback fallback r) ≡ false)))
    named t [] e fit run = inl refl
    named t (c ∷ r) e fit run = inr (
      λ empty. cc,
      (fit, λ h. subst (λ u. has_run false u ≡ false) (sym (cap-short max t h) ∙ e) run),
    )

    finished :
        (t : Text)
        → All IsAllowed t
        → starts_plain t ≡ true
        → has_run false t ≡ false
        → (finish fallback max t ≡ fallback)
          ⊎ ((finish fallback max t ≢ [])
              × (IsFit max (finish fallback max t)
                  × (length t ≤ max → has_run false (finish fallback max t) ≡ false)))
    finished [] h p run = inl refl
    finished (c ∷ t) h p run = named (c ∷ t) (cap max (c ∷ t)) refl (cap-IsFit max (c ∷ t) h p) run
