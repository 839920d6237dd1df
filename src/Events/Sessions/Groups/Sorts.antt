-- ===== src/Events/Sessions/Groups/Sorts.antt =====
-- The stable sort keeps what it sorts, whatever is measured on the elements, and leaves the keys in
-- order.
use petkit_local.Prelude.{
  ℕ, ◌+◌, ◌≤◌, ◌≡◌, refl, Bool, true, false, List, [], ◌∷◌, arith, Bool-cases, inl, inr,
  if◌then◌else◌, ltb,
}
use petkit_local.Events.Sessions.Groups.{insert_by, sort_by}

module _ {ℓ} {A : Type ℓ} where
  abbrev pub total : (A → ℕ) → List A → ℕ
  total weight [] = 0
  total weight (x ∷ xs) = weight x + total weight xs

  total-insert_by :
      (weight : A → ℕ) (after : A → A → Bool) (x : A) (xs : List A)
      → total weight (insert_by after x xs) ≡ weight x + total weight xs
  unfolding insert_by
  total-insert_by weight after x [] = refl
  total-insert_by weight after x (y ∷ ys) = choose (after x y) (total-insert_by weight after x ys)
    where
      choose :
          (b : Bool)
          → total weight (insert_by after x ys) ≡ weight x + total weight ys
          → total weight (if b then y ∷ insert_by after x ys else x ∷ y ∷ ys)
            ≡ weight x + (weight y + total weight ys)
      choose true h = omega (arith, h)
      choose false h = refl

  pub total-sort_by :
      (weight : A → ℕ) (after : A → A → Bool) (xs : List A)
      → total weight (sort_by after xs) ≡ total weight xs
  unfolding sort_by
  total-sort_by weight after [] = refl
  total-sort_by weight after (x ∷ xs) =
      omega
        (arith, total-insert_by weight after x (sort_by after xs), total-sort_by weight after xs)

  -- The keys do not grow, from a first bound on.
  abbrev pub IsFalling : (A → ℕ) → ℕ → List A → Type 0
  IsFalling key bound [] = Unit
  IsFalling key bound (x ∷ xs) = (key x ≤ bound) × IsFalling key (key x) xs

  weaken : (key : A → ℕ) (m n : ℕ) (xs : List A) → m ≤ n → IsFalling key m xs → IsFalling key n xs
  weaken key m n [] h f = tt
  weaken key m n (x ∷ xs) h (p, f) = (omega arith, f)

  insert-IsFalling :
      (key : A → ℕ) (n : ℕ) (x : A) (xs : List A)
      → key x ≤ n
      → IsFalling key n xs
      → IsFalling key n (insert_by (λ a b. ltb (key a) (key b)) x xs)
  unfolding insert_by
  insert-IsFalling key n x [] h f = (h, tt)
  insert-IsFalling key n x (y ∷ ys) h (p, f) = elim (Bool-cases (ltb (key x) (key y))) [
    | inl t ↦ rw t ((p, insert-IsFalling key (key y) x ys (ground arith) f))
    | inr t ↦ rw t ((h, (ground arith, f)))
  ]

  -- A bound on the keys.
  abbrev pub highest : (A → ℕ) → List A → ℕ
  highest key [] = 0
  highest key (x ∷ xs) = key x + highest key xs

  pub sort_by-IsFalling :
      (key : A → ℕ) (xs : List A)
      → IsFalling key (highest key xs) (sort_by (λ a b. ltb (key a) (key b)) xs)
  unfolding sort_by
  sort_by-IsFalling key [] = tt
  sort_by-IsFalling key (x ∷ xs) =
      insert-IsFalling key (highest key (x ∷ xs)) x (sort_by (λ a b. ltb (key a) (key b)) xs)
        (omega arith)
        (weaken key (highest key xs) (highest key (x ∷ xs))
          (sort_by (λ a b. ltb (key a) (key b)) xs) (omega arith) (sort_by-IsFalling key xs))

  -- The keys do not grow along the list.
  abbrev pub IsNewestFirst : (A → ℕ) → List A → Type 0
  IsNewestFirst key [] = Unit
  IsNewestFirst key (x ∷ xs) = IsFalling key (key x) xs

  pub forget_bound : (key : A → ℕ) (n : ℕ) (xs : List A) → IsFalling key n xs → IsNewestFirst key xs
  forget_bound key n [] f = tt
  forget_bound key n (x ∷ xs) (p, f) = f
