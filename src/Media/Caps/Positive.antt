-- ===== src/Media/Caps/Positive.antt =====
-- What an edit of the caps keeps.
use petkit_local.Prelude.{
  String, ◌≡◌, refl, ap, ◌∙◌, true, false, Option, none, some, List, [], ◌∷◌, if◌then◌else◌, str_eq,
  Bool-cases, inl, inr, arith, ◌⊎◌,
}
use petkit_local.Prelude.Dict.{Dict, lookup, insert}
use petkit_local.Prelude.Dict.Laws.{AllEntries, AllEntries-insert, AllEntries-lookup}
use petkit_local.Prelude.Int.{ℤ, positive}
use petkit_local.Events.Rows.{Reading, number, unreadable}
use petkit_local.Media.Caps.{
  Caps, PatchValue, fields, no_fields, default_retention, cap_of, patched, patch_caps,
  patch_category, update,
}

-- A cap that is there is above 0.
abbrev pub IsPositive : Option ℤ → Type 0
IsPositive none = Unit
IsPositive (some z) = positive z ≡ true

abbrev pub ArePositive : String → Caps → Type 0
ArePositive key caps = IsPositive caps.max_mb × IsPositive caps.max_days

cap_of-IsPositive : (value : Reading) → IsPositive (cap_of value)
unfolding cap_of
cap_of-IsPositive (number z) = choose (Bool-cases (positive z))
  where
    choose :
        (positive z ≡ true) ⊎ (positive z ≡ false)
        → IsPositive (if positive z then some z else none)
    choose (inl t) = rw t t
    choose (inr f) = rw f tt
cap_of-IsPositive unreadable = tt

patched-IsPositive :
    (value : Option Reading) (old : Option ℤ) → IsPositive old → IsPositive (patched value old)
unfolding patched
patched-IsPositive none old h = h
patched-IsPositive (some value) old h = cap_of-IsPositive value

-- The categories of a configuration, in their order.
abbrev pub categories : Dict Caps → List String
categories [] = []
categories ((key, caps) ∷ config) = key ∷ categories config

categories-insert :
    (key : String) (caps old : Caps) (config : Dict Caps)
    → lookup key config ≡ some old
    → categories (insert key caps config) ≡ categories config
categories-insert key caps old [] h = absurd (cc)
categories-insert key caps old ((j, w) ∷ config) h = elim (Bool-cases (str_eq j key)) [
  | inl same ↦ rw same refl
  | inr other ↦ rw other (ap (λ l. j ∷ l) (categories-insert key caps old config (ground arith)))
]

-- What an edit keeps of a configuration.
record IsEdited (before after : Dict Caps) : Type 0 where
  same : categories after ≡ categories before
  caps : AllEntries ArePositive after

patch_category-IsEdited :
    (key : String) (value : PatchValue) (found : Option Caps) (config : Dict Caps)
    → lookup key config ≡ found
    → AllEntries ArePositive config
    → IsEdited config (patch_category key value found config)
unfolding patch_category patch_caps
patch_category-IsEdited key value none config h inv = record { same = refl; caps = inv }
patch_category-IsEdited key no_fields (some old) config h inv = record { same = refl; caps = inv }
patch_category-IsEdited key (fields patch) (some old) config h inv =
    let (mb, days) = AllEntries-lookup ArePositive key old config inv h in
    record {
      same = categories-insert key (patch_caps patch old) old config h;
      caps =
          AllEntries-insert ArePositive key (patch_caps patch old) config
            (
              patched-IsPositive (lookup "max_mb" patch) old.max_mb mb,
              patched-IsPositive (lookup "max_days" patch) old.max_days days,
            )
            inv;
    }

-- Whatever a patch holds, `update` neither adds nor drops a category, and from caps that are above 0
-- where there are any it gives caps that are above 0 where there are any.
pub update-ArePositive :
    (patch : Dict PatchValue) (config : Dict Caps)
    → AllEntries ArePositive config
    → (categories (update patch config) ≡ categories config)
      × AllEntries ArePositive (update patch config)
unfolding update
update-ArePositive [] config inv = (refl, inv)
update-ArePositive ((key, value) ∷ patch) config inv =
    let step = patch_category-IsEdited key value (lookup key config) config refl inv in
    let (same, caps) =
      update-ArePositive patch (patch_category key value (lookup key config) config) step.caps in
    (same ∙ step.same, caps)

-- The caps that the program starts with are above 0.
pub default_retention-ArePositive : AllEntries ArePositive default_retention
unfolding default_retention
default_retention-ArePositive = (
  (refl, refl),
  (
    (refl, refl),
    (
      (refl, refl),
      (
        (refl, refl),
        (
          (refl, refl),
          (
            (refl, refl),
            (
              (refl, refl),
              ((tt, refl), ((tt, refl), ((refl, refl), ((refl, refl), ((refl, refl), tt))))),
            ),
          ),
        ),
      ),
    ),
  ),
)
