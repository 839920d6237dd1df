-- ===== src/Prelude/Dict.antt =====
-- A Python dictionary with text keys, as an association list in insertion order.
pub mod Laws
use petkit_local.Prelude.{
  String, Bool, true, false, ◌&&◌, Option, none, some, List, [], ◌∷◌, str_eq, if◌then◌else◌,
}

abbrev pub Dict {ℓ} : Type ℓ → Type ℓ
Dict V = List (String × V)

module _ {ℓ} {V : Type ℓ} where
  -- d.get(k)
  abbrev pub lookup : String → Dict V → Option V
  lookup k [] = none
  lookup k ((j, v) ∷ m) = if str_eq j k then some v else lookup k m

  -- d[k] = v: an old key keeps its place.
  abbrev pub insert : String → V → Dict V → Dict V
  insert k v [] = (k, v) ∷ []
  insert k v ((j, w) ∷ m) = if str_eq j k then (j, v) ∷ m else (j, w) ∷ insert k v m

  -- d.pop(k, None)
  abbrev pub erase : String → Dict V → Dict V
  erase k [] = []
  erase k ((j, w) ∷ m) = let rest = erase k m in if str_eq j k then rest else (j, w) ∷ rest

  -- d.update(other)
  abbrev pub update : Dict V → Dict V → Dict V
  update m [] = m
  update m ((k, v) ∷ other) = update (insert k v m) other

  -- k in d
  abbrev pub has_key : String → Dict V → Bool
  has_key k m = elim (lookup k m) [ none ↦ false | some v ↦ true ]

  -- d.get(k, v)
  abbrev pub lookup_or : String → V → Dict V → V
  lookup_or k v m = elim (lookup k m) [ none ↦ v | some w ↦ w ]

  -- Whether every one of the keys is there.
  abbrev pub has_keys : List String → Dict V → Bool
  has_keys [] m = true
  has_keys (k ∷ ks) m = has_key k m && has_keys ks m
