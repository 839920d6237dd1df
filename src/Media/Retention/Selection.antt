-- ===== src/Media/Retention/Selection.antt =====
-- Which files `_select_expired` picks.
use petkit_local.Prelude.{
  ℕ, zero, suc, ◌+◌, ◌-◌, ◌≤◌, ◌<◌, ◌≡◌, refl, sym, ap, ◌∙◌, false, Option, none, some, List, [],
  ◌∷◌, ◌++◌, ltb, ok, arith, Bool-cases, inl, inr, filter, take,
}
use petkit_local.Media.Retention.{
  Stamp, total_size, over_size, over_age, is_expired, reversed, zip_strict, Expired, expire, walk,
  select_expired,
}

module _ {ℓ} {A : Type ℓ} where
  abbrev pub stamps_of : List (Stamp × A) → List Stamp
  stamps_of [] = []
  stamps_of ((s, x) ∷ files) = s ∷ stamps_of files

  abbrev pub items_of : List (Stamp × A) → List A
  items_of [] = []
  items_of ((s, x) ∷ files) = x ∷ items_of files

  stamps_of-append :
      (fs gs : List (Stamp × A)) → stamps_of (fs ++ gs) ≡ stamps_of fs ++ stamps_of gs
  stamps_of-append [] gs = refl
  stamps_of-append ((s, x) ∷ fs) gs = ap (λ l. s ∷ l) (stamps_of-append fs gs)

  items_of-append : (fs gs : List (Stamp × A)) → items_of (fs ++ gs) ≡ items_of fs ++ items_of gs
  items_of-append [] gs = refl
  items_of-append ((s, x) ∷ fs) gs = ap (λ l. x ∷ l) (items_of-append fs gs)

  stamps_of-reversed : (fs : List (Stamp × A)) → reversed (stamps_of fs) ≡ stamps_of (reversed fs)
  unfolding reversed
  stamps_of-reversed [] = refl
  stamps_of-reversed ((s, x) ∷ fs) =
      ap (λ l. l ++ s ∷ []) (stamps_of-reversed fs)
      ∙ sym (stamps_of-append (reversed fs) ((s, x) ∷ []))

  items_of-reversed : (fs : List (Stamp × A)) → reversed (items_of fs) ≡ items_of (reversed fs)
  unfolding reversed
  items_of-reversed [] = refl
  items_of-reversed ((s, x) ∷ fs) =
      ap (λ l. l ++ x ∷ []) (items_of-reversed fs)
      ∙ sym (items_of-append (reversed fs) ((s, x) ∷ []))

  zip_strict-files : (fs : List (Stamp × A)) → zip_strict (stamps_of fs) (items_of fs) ≡ ok fs
  unfolding zip_strict
  zip_strict-files [] = refl
  zip_strict-files ((s, x) ∷ fs) = rw (zip_strict-files fs) refl

  -- The stamps and items of the same files are zipped without an error.
  pub select_expired_lem :
      (fs : List (Stamp × A)) (max_bytes max_age : Option ℕ) (now : ℕ)
      → select_expired (stamps_of fs) (items_of fs) max_bytes max_age now
        ≡ ok (walk max_bytes max_age now (total_size (stamps_of fs)) (reversed fs))
  unfolding select_expired
  select_expired_lem fs max_bytes max_age now =
      rw (stamps_of-reversed fs, items_of-reversed fs, zip_strict-files (reversed fs)) refl

total_size-append : (ss ts : List Stamp) → total_size (ss ++ ts) ≡ total_size ss + total_size ts
total_size-append [] ts = omega arith
total_size-append (s ∷ ss) ts = omega (arith, total_size-append ss ts)

ltb-false : (m n : ℕ) → n ≤ m → ltb m n ≡ false
ltb-false m n h = ground arith

kept_fits :
    (m : ℕ) (max_age : Option ℕ) (now total : ℕ) (s : Stamp)
    → is_expired (some m) max_age now total s ≡ false
    → total ≤ m
unfolding is_expired over_size
kept_fits m max_age now total s h = ground arith

still :
    (max_bytes : Option ℕ) (total : ℕ) (s : Stamp)
    → over_size max_bytes total ≡ false
    → over_size max_bytes (total - s.size) ≡ false
unfolding over_size
still none total s h = refl
still (some m) total s h = ground arith

module _ {ℓ} {A : Type ℓ} where
  -- Every file either goes or stays, in its order.
  pub data Splits : List (Stamp × A) → List (Stamp × A) → List (Stamp × A) → Type ℓ where
    done : Splits [] [] []
    goes :
        {f : Stamp × A} {fs gone kept : List (Stamp × A)}
        → Splits fs gone kept
        → Splits (f ∷ fs) (f ∷ gone) kept
    stays :
        {f : Stamp × A} {fs gone kept : List (Stamp × A)}
        → Splits fs gone kept
        → Splits (f ∷ fs) gone (f ∷ kept)

  -- What goes is what the result lists and counts.
  pub record IsSplit (fs : List (Stamp × A)) (r : Expired A) : Type ℓ where
    pub gone : List (Stamp × A)
    pub kept : List (Stamp × A)
    pub split : Splits fs gone kept
    pub listed : r.items ≡ items_of gone
    pub counted : r.freed ≡ total_size (stamps_of gone)

  pub total_size-reversed :
      (fs : List (Stamp × A)) → total_size (stamps_of (reversed fs)) ≡ total_size (stamps_of fs)
  unfolding reversed
  total_size-reversed [] = refl
  total_size-reversed ((s, x) ∷ fs) =
      rw (stamps_of-append (reversed fs) ((s, x) ∷ [])) (
        omega (arith, total_size-append (stamps_of (reversed fs)) (s ∷ []), total_size-reversed fs))

  -- What is left fits the cap, if the files alone exceed it at most by what they can free.
  walk-fits :
      (m : ℕ) (max_age : Option ℕ) (now total : ℕ) (fs : List (Stamp × A))
      → total ≤ m + total_size (stamps_of fs)
      → total - (walk (some m) max_age now total fs).freed ≤ m
  unfolding walk expire is_expired over_size
  walk-fits m max_age now total [] h = omega arith
  walk-fits m max_age now total ((s, x) ∷ fs) h =
      elim (Bool-cases (is_expired (some m) max_age now total s)) [
        | inl t ↦ rw t (omega (arith, walk-fits m max_age now (total - s.size) fs (omega arith)))
        | inr f ↦ rw f (omega (arith, kept_fits m max_age now total s f))
      ]

  total_size-Splits :
      (fs gone kept : List (Stamp × A))
      → Splits fs gone kept
      → total_size (stamps_of fs) ≡ total_size (stamps_of gone) + total_size (stamps_of kept)
  total_size-Splits fs gone kept done = refl
  total_size-Splits (f ∷ fs) gone kept (goes rest) = omega (arith, total_size-Splits fs _ _ rest)
  total_size-Splits (f ∷ fs) gone kept (stays rest) = omega (arith, total_size-Splits fs _ _ rest)

  -- Which files a walk takes, and what they free.
  walk-IsSplit :
      (max_bytes max_age : Option ℕ) (now total : ℕ) (fs : List (Stamp × A))
      → IsSplit fs (walk max_bytes max_age now total fs)
  unfolding walk expire
  walk-IsSplit max_bytes max_age now total [] = record {
    gone = [];
    kept = [];
    split = done;
    listed = refl;
    counted = refl;
  }
  walk-IsSplit max_bytes max_age now total ((s, x) ∷ fs) =
      elim (Bool-cases (is_expired max_bytes max_age now total s)) [
        | inl t ↦
            let r = walk-IsSplit max_bytes max_age now (total - s.size) fs in
            rw t (record {
              gone = (s, x) ∷ r.gone;
              kept = r.kept;
              split = goes r.split;
              listed = ap (λ l. x ∷ l) r.listed;
              counted = ap (λ n. s.size + n) r.counted;
            })
        | inr f ↦
            let r = walk-IsSplit max_bytes max_age now total fs in
            rw f (record {
              gone = r.gone;
              kept = (s, x) ∷ r.kept;
              split = stays r.split;
              listed = r.listed;
              counted = r.counted;
            })
      ]

  -- The size cap is met: on any files, `_select_expired` returns without an error. Oldest first, the
  -- files split into those that go and those that stay; its items are exactly those of the files
  -- that go, the bytes that it frees are their sizes, and what stays is within the cap.
  pub select_expired-fits :
      (files : List (Stamp × A)) (m : ℕ) (max_age : Option ℕ) (now : ℕ)
      → (r : Expired A) × (select_expired (stamps_of files) (items_of files) (some m) max_age now
          ≡ ok r)
        × (split : IsSplit (reversed files) r) × (total_size (stamps_of split.kept) ≤ m)
  select_expired-fits files m max_age now =
      let total = total_size (stamps_of files) in
      let same = total_size-reversed files in
      let r = walk-IsSplit (some m) max_age now total (reversed files) in
      (
        walk (some m) max_age now total (reversed files),
        select_expired_lem files (some m) max_age now,
        r,
        omega (
          arith,
          walk-fits m max_age now total (reversed files) (omega (arith, same)),
          total_size-Splits (reversed files) r.gone r.kept r.split,
          r.counted,
          same,
        ),
      )

  -- Below the size cap only the age decides.
  walk-aged :
      (max_bytes max_age : Option ℕ) (now total : ℕ) (fs : List (Stamp × A))
      → over_size max_bytes total ≡ false
      → (walk max_bytes max_age now total fs).items
        ≡ items_of (filter (λ f. over_age max_age f.0.created now) fs)
  unfolding walk expire is_expired
  walk-aged max_bytes max_age now total [] h = refl
  walk-aged max_bytes max_age now total ((s, x) ∷ fs) h =
      elim (Bool-cases (over_age max_age s.created now)) [
        | inl t ↦
            rw (h, t)
              (ap (λ l. x ∷ l)
                (walk-aged max_bytes max_age now (total - s.size) fs (still max_bytes total s h)))
        | inr f ↦ rw (h, f) (walk-aged max_bytes max_age now total fs h)
      ]

  -- When the files are within the size cap, or there is none, those that go are exactly the ones
  -- that are over the age cap, oldest first.
  pub select_expired-aged :
      (files : List (Stamp × A)) (max_bytes max_age : Option ℕ) (now : ℕ)
      → over_size max_bytes (total_size (stamps_of files)) ≡ false
      → (r : Expired A) × (select_expired (stamps_of files) (items_of files) max_bytes max_age now
          ≡ ok r)
        × (r.items ≡ items_of (filter (λ f. over_age max_age f.0.created now) (reversed files)))
  select_expired-aged files max_bytes max_age now h = (
    walk max_bytes max_age now (total_size (stamps_of files)) (reversed files),
    select_expired_lem files max_bytes max_age now,
    walk-aged max_bytes max_age now (total_size (stamps_of files)) (reversed files) h,
  )

  -- The first `k` files go, and no fewer would meet the cap.
  pub record IsTrimmed (m total : ℕ) (fs : List (Stamp × A)) (items : List A) : Type ℓ where
    pub k : ℕ
    pub gone : items ≡ items_of (take k fs)
    pub needed : (j : ℕ) → j < k → m < total - total_size (stamps_of (take j fs))

  untouched :
      (m now total : ℕ) (fs : List (Stamp × A))
      → total ≤ m
      → (walk (some m) none now total fs).items ≡ []
  unfolding walk is_expired over_size over_age
  untouched m now total [] h = refl
  untouched m now total ((s, x) ∷ fs) h = rw (ltb-false m total h) (untouched m now total fs h)

  trim_one :
      (m total : ℕ) (s : Stamp) (x : A) (fs : List (Stamp × A)) (items : List A)
      → m < total
      → IsTrimmed m (total - s.size) fs items
      → IsTrimmed m total ((s, x) ∷ fs) (x ∷ items)
  trim_one m total s x fs items h r = record {
    k = suc r.k;
    gone = ap (λ l. x ∷ l) r.gone;
    needed = needed;
  }
    where
      needed : (j : ℕ) → j < suc r.k → m < total - total_size (stamps_of (take j ((s, x) ∷ fs)))
      needed zero k = omega arith
      needed (suc j) k = omega (arith, r.needed j (omega arith))

  walk-IsTrimmed :
      (m now total : ℕ) (fs : List (Stamp × A))
      → IsTrimmed m total fs (walk (some m) none now total fs).items
  unfolding walk expire is_expired over_size over_age
  walk-IsTrimmed m now total [] = record {
    k = 0;
    gone = refl;
    needed = λ j h. absurd (omega arith);
  }
  walk-IsTrimmed m now total ((s, x) ∷ fs) = elim (Bool-cases (ltb m total)) [
    | inl t ↦ rw t (
        trim_one m total s x fs (walk (some m) none now (total - s.size) fs).items (ground arith)
          (walk-IsTrimmed m now (total - s.size) fs))
    | inr f ↦ rw f (record {
      k = 0;
      gone = untouched m now total fs (ground arith);
      needed = λ j h. absurd (omega arith);
    })
  ]

  -- With a size cap alone, the files that go are the oldest `k` ones for some `k`, and any fewer of
  -- the oldest would leave more bytes than the cap.
  pub select_expired-IsTrimmed :
      (files : List (Stamp × A)) (m now : ℕ)
      → (r : Expired A) × (select_expired (stamps_of files) (items_of files) (some m) none now
          ≡ ok r)
        × IsTrimmed m (total_size (stamps_of files)) (reversed files) r.items
  select_expired-IsTrimmed files m now = (
    walk (some m) none now (total_size (stamps_of files)) (reversed files),
    select_expired_lem files (some m) none now,
    walk-IsTrimmed m now (total_size (stamps_of files)) (reversed files),
  )
