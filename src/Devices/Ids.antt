-- ===== src/Devices/Ids.antt =====
-- A Python dictionary with integer keys, as an association list in insertion order: the tables of
-- addon/petkit_local/devices/registry.py and addon/petkit_local/devices/ble/registry.py.
use petkit_local.Prelude.{
  ◌≡◌, refl, sym, subst, ◌↔◌, Bool, true, false, not, ◌&&◌, Option, none, some, List, [], ◌∷◌, ◌++◌,
  arith, if◌then◌else◌, find, Bool-cases, inl, inr, ==_iff, and-right,
}
use petkit_local.Prelude.Int.{ℤ, pos, negsuc}
use petkit_local.Http.Redact.Objects.{int_eq}

abbrev pub Ids {ℓ} : Type ℓ → Type ℓ
Ids V = List (ℤ × V)

module _ {ℓ} {V : Type ℓ} where
  -- d.get(k)
  abbrev pub at_id : ℤ → Ids V → Option V
  at_id k [] = none
  at_id k ((j, v) ∷ m) = if int_eq j k then some v else at_id k m

  -- d[k] = v: an old key keeps its place.
  abbrev pub put_id : ℤ → V → Ids V → Ids V
  put_id k v [] = (k, v) ∷ []
  put_id k v ((j, w) ∷ m) =
      let rest = put_id k v m in if int_eq j k then (j, v) ∷ m else (j, w) ∷ rest

  -- d.pop(k, None)
  abbrev pub drop_id : ℤ → Ids V → Ids V
  drop_id k [] = []
  drop_id k ((j, w) ∷ m) = let rest = drop_id k m in if int_eq j k then rest else (j, w) ∷ rest

  -- list(d.values())
  abbrev pub id_values : Ids V → List V
  id_values [] = []
  id_values ((k, v) ∷ m) = v ∷ id_values m

  -- No key occurs twice.
  abbrev pub has_id : ℤ → Ids V → Bool
  has_id k [] = false
  has_id k ((j, v) ∷ m) = if int_eq j k then true else has_id k m

  abbrev pub ids_distinct : Ids V → Bool
  ids_distinct [] = true
  ids_distinct ((k, v) ∷ m) = not (has_id k m) && ids_distinct m

pub int_eq_iff : (a b : ℤ) → (int_eq a b ≡ true) ↔ (a ≡ b)
unfolding int_eq
int_eq_iff (pos a) (pos b) = ground (arith, ==_iff a b)
int_eq_iff (pos a) (negsuc b) = ground arith
int_eq_iff (negsuc a) (pos b) = ground arith
int_eq_iff (negsuc a) (negsuc b) = ground (arith, ==_iff a b)

pub int_eq_refl : (a : ℤ) → int_eq a a ≡ true
int_eq_refl a = (int_eq_iff a a).1 refl

module _ {ℓ} {V : Type ℓ} where
  pub at_id-put_id :
      (k j : ℤ) (v : V) (m : Ids V)
      → at_id j (put_id k v m) ≡ (if int_eq k j then some v else at_id j m)
  at_id-put_id k j v [] = refl
  at_id-put_id k j v ((i, w) ∷ m) =
      ground (arith, int_eq_iff k j, int_eq_iff i k, int_eq_iff i j, at_id-put_id k j v m)

  pub at_id-drop_id :
      (k j : ℤ) (m : Ids V) → at_id j (drop_id k m) ≡ (if int_eq k j then none else at_id j m)
  at_id-drop_id k j [] = ground arith
  at_id-drop_id k j ((i, w) ∷ m) =
      ground (arith, int_eq_iff k j, int_eq_iff i k, int_eq_iff i j, at_id-drop_id k j m)

  pub has_id-put_id :
      (k j : ℤ) (v : V) (m : Ids V)
      → has_id j (put_id k v m) ≡ (if int_eq k j then true else has_id j m)
  has_id-put_id k j v [] = refl
  has_id-put_id k j v ((i, w) ∷ m) =
      ground (arith, int_eq_iff k j, int_eq_iff i k, int_eq_iff i j, has_id-put_id k j v m)

  pub has_id-drop_id :
      (k j : ℤ) (m : Ids V) → has_id j (drop_id k m) ≡ (if int_eq k j then false else has_id j m)
  has_id-drop_id k j [] = ground arith
  has_id-drop_id k j ((i, w) ∷ m) =
      ground (arith, int_eq_iff k j, int_eq_iff i k, int_eq_iff i j, has_id-drop_id k j m)

  pub ids_distinct-put_id :
      (k : ℤ) (v : V) (m : Ids V) → ids_distinct m ≡ true → ids_distinct (put_id k v m) ≡ true
  ids_distinct-put_id k v [] h = refl
  ids_distinct-put_id k v ((j, w) ∷ m) h =
      ground
        (arith, int_eq_iff j k, int_eq_iff k j, has_id-put_id k j v m, ids_distinct-put_id k v m)

  pub ids_distinct-drop_id :
      (k : ℤ) (m : Ids V) → ids_distinct m ≡ true → ids_distinct (drop_id k m) ≡ true
  ids_distinct-drop_id k [] h = refl
  ids_distinct-drop_id k ((j, w) ∷ m) h =
      ground (arith, int_eq_iff j k, int_eq_iff k j, has_id-drop_id k j m, ids_distinct-drop_id k m)

  pub put_id-at_id : (k : ℤ) (v : V) (m : Ids V) → at_id k m ≡ some v → put_id k v m ≡ m
  put_id-at_id k v [] h = absurd (cc)
  put_id-at_id k v ((j, w) ∷ m) h = ground (arith, put_id-at_id k v m)

  pub at_id-lacks : (k : ℤ) (m : Ids V) → has_id k m ≡ false → at_id k m ≡ none
  at_id-lacks k [] h = refl
  at_id-lacks k ((j, v) ∷ m) h = ground (arith, at_id-lacks k m)

  -- A new key goes to the end.
  pub put_id-lacks :
      (k : ℤ) (v : V) (m : Ids V) → has_id k m ≡ false → put_id k v m ≡ m ++ (k, v) ∷ []
  put_id-lacks k v [] h = refl
  put_id-lacks k v ((j, w) ∷ m) h = ground (arith, put_id-lacks k v m)

-- A predicate of every entry is kept by a write and a removal, and holds of what is read.
module _ {ℓ κ} {V : Type ℓ} (P : ℤ → V → Type κ) where
  abbrev pub AllIds : Ids V → Type κ
  AllIds [] = Unit
  AllIds ((k, v) ∷ m) = P k v × AllIds m

  pub AllIds-put_id : (k : ℤ) (v : V) (m : Ids V) → P k v → AllIds m → AllIds (put_id k v m)
  AllIds-put_id k v [] p h = (p, tt)
  AllIds-put_id k v ((j, w) ∷ m) p (q, h) = elim (Bool-cases (int_eq j k)) [
    | inl same ↦ rw same (subst (λ i. P i v) (sym ((int_eq_iff j k).0 same)) p, h)
    | inr other ↦ rw other (q, AllIds-put_id k v m p h)
  ]

  pub AllIds-drop_id : (k : ℤ) (m : Ids V) → AllIds m → AllIds (drop_id k m)
  AllIds-drop_id k [] h = tt
  AllIds-drop_id k ((j, w) ∷ m) (q, h) = elim (Bool-cases (int_eq j k)) [
    | inl same ↦ rw same (AllIds-drop_id k m h)
    | inr other ↦ rw other (q, AllIds-drop_id k m h)
  ]

  pub AllIds-at_id : (k : ℤ) (v : V) (m : Ids V) → AllIds m → at_id k m ≡ some v → P k v
  AllIds-at_id k v [] h e = absurd (cc)
  AllIds-at_id k v ((j, w) ∷ m) (p, h) e = elim (Bool-cases (int_eq j k)) [
    | inl same ↦ subst (λ i. P i v) ((int_eq_iff j k).0 same) (subst (P j) (ground arith) p)
    | inr other ↦ AllIds-at_id k v m h (ground arith)
  ]

-- The first value that passes a test, against the values that the keys have.
module _ {ℓ} {V : Type ℓ} (test : V → Bool) where
  pub find-at_id :
      (m : Ids V) (x : V)
      → ids_distinct m ≡ true
      → find test (id_values m) ≡ some x
      → (k : ℤ) × (at_id k m ≡ some x) × (test x ≡ true)
  find-at_id [] x h e = absurd (cc)
  find-at_id ((j, w) ∷ m) x h e = elim (Bool-cases (test w)) [
    | inl here ↦ (j, rw (int_eq_refl j) (ground arith), ground arith)
    | inr other ↦
        let (k, g, passes) = find-at_id m x (and-right (not (has_id j m)) _ h) (ground arith) in
        (k, ground (arith, int_eq_iff j k, at_id-lacks j m), passes)
  ]

  pub find-none-at_id :
      (m : Ids V) (k : ℤ) (v : V)
      → find test (id_values m) ≡ none
      → at_id k m ≡ some v
      → test v ≡ false
  find-none-at_id [] k v h e = absurd (cc)
  find-none-at_id ((j, w) ∷ m) k v h e = ground (arith, find-none-at_id m k v)
