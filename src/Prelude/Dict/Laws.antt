-- ===== src/Prelude/Dict/Laws.antt =====
-- What reading a dictionary gives after a write, a removal or a merge.
use petkit_local.Prelude.{
  String, ◌≡◌, refl, true, false, none, some, [], ◌∷◌, arith, str_eq, eq_iff, if◌then◌else◌, subst,
  sym, Bool-cases, inl, inr, ◌∙◌,
}
use petkit_local.Prelude.Dict.{Dict, lookup, insert, erase, update, lookup_or, has_key}

module _ {ℓ} {V : Type ℓ} where
  pub lookup-insert :
      (k j : String) (v : V) (m : Dict V)
      → lookup j (insert k v m) ≡ (if str_eq k j then some v else lookup j m)
  lookup-insert k j v [] = refl
  lookup-insert k j v ((i, w) ∷ m) =
      ground (arith, eq_iff k j, eq_iff i k, eq_iff i j, lookup-insert k j v m)

  pub lookup-erase :
      (k j : String) (m : Dict V) → lookup j (erase k m) ≡ (if str_eq k j then none else lookup j m)
  lookup-erase k j [] = ground arith
  lookup-erase k j ((i, w) ∷ m) =
      ground (arith, eq_iff k j, eq_iff i k, eq_iff i j, lookup-erase k j m)

  pub lookup_or-insert :
      (k j : String) (d v : V) (m : Dict V)
      → lookup_or j d (insert k v m) ≡ (if str_eq k j then v else lookup_or j d m)
  lookup_or-insert k j d v m = ground (arith, lookup-insert k j v m)

-- A predicate of every entry is kept by a write, a removal and a merge, and holds of what is read.
module _ {ℓ κ} {V : Type ℓ} (P : String → V → Type κ) where
  abbrev pub AllEntries : Dict V → Type κ
  AllEntries [] = Unit
  AllEntries ((k, v) ∷ m) = P k v × AllEntries m

  pub AllEntries-insert :
      (k : String) (v : V) (m : Dict V) → P k v → AllEntries m → AllEntries (insert k v m)
  AllEntries-insert k v [] p h = (p, tt)
  AllEntries-insert k v ((j, w) ∷ m) p (q, h) = elim (Bool-cases (str_eq j k)) [
    | inl same ↦ rw same (subst (λ i. P i v) (sym ((eq_iff j k).0 same)) p, h)
    | inr other ↦ rw other (q, AllEntries-insert k v m p h)
  ]

  pub AllEntries-erase : (k : String) (m : Dict V) → AllEntries m → AllEntries (erase k m)
  AllEntries-erase k [] h = tt
  AllEntries-erase k ((j, w) ∷ m) (q, h) = elim (Bool-cases (str_eq j k)) [
    | inl same ↦ rw same (AllEntries-erase k m h)
    | inr other ↦ rw other (q, AllEntries-erase k m h)
  ]

  pub AllEntries-update :
      (m other : Dict V) → AllEntries m → AllEntries other → AllEntries (update m other)
  AllEntries-update m [] h g = h
  AllEntries-update m ((k, v) ∷ other) h (p, g) =
      AllEntries-update (insert k v m) other (AllEntries-insert k v m p h) g

  pub AllEntries-lookup :
      (k : String) (v : V) (m : Dict V) → AllEntries m → lookup k m ≡ some v → P k v
  AllEntries-lookup k v [] h e = absurd (cc)
  AllEntries-lookup k v ((j, w) ∷ m) (p, h) e = elim (Bool-cases (str_eq j k)) [
    | inl same ↦ subst (λ i. P i v) ((eq_iff j k).0 same) (subst (P j) (ground arith) p)
    | inr other ↦ AllEntries-lookup k v m h (ground arith)
  ]

module _ {ℓ} {V : Type ℓ} where
  pub has_key-insert :
      (k j : String) (v : V) (m : Dict V)
      → has_key j (insert k v m) ≡ (if str_eq k j then true else has_key j m)
  has_key-insert k j v m = ground (arith, lookup-insert k j v m)

  -- A key that the other dictionary does not have is read as before the merge.
  pub lookup-update_lacks :
      (j : String) (m other : Dict V)
      → AllEntries (λ k v. str_eq k j ≡ false) other
      → lookup j (update m other) ≡ lookup j m
  lookup-update_lacks j m [] h = refl
  lookup-update_lacks j m ((k, v) ∷ other) (ne, h) =
      lookup-update_lacks j (insert k v m) other h ∙ (lookup-insert k j v m ∙ rw ne)
