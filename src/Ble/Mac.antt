-- ===== src/Ble/Mac.antt =====
-- `normalize_mac` of addon/petkit_local/devices/ble/registry.py. Which characters `str.isalnum` holds
-- of, and what `str.upper` makes of one, are Python's: the record `Letters`.
pub mod Spelling
use petkit_local.Prelude.{
  ℕ, ◌≡◌, Bool, true, false, ◌&&◌, List, [], ◌∷◌, ◌++◌, Text, codes, length, contains, ◌==◌, filter,
  if◌then◌else◌,
}

pub record Letters : Type 0 where
  pub is_alnum : ℕ → Bool
  pub upper : ℕ → Text

-- A character of "0123456789ABCDEF"
unfoldable pub is_hex : ℕ → Bool
is_hex c = contains (codes "0123456789ABCDEF") c

-- What the code relies on: the digits and A to F are letters or digits, and upper case already.
pub record ReadsHex (l : Letters) : Type 0 where
  pub hex_kept : (c : ℕ) → is_hex c ≡ true → l.is_alnum c ≡ true
  pub hex_upper : (c : ℕ) → is_hex c ≡ true → l.upper c ≡ c ∷ []

unfoldable pub all_hex : Text → Bool
unfolding is_hex
all_hex [] = true
all_hex (c ∷ t) = is_hex c && all_hex t

-- "".join(c for c in mac if c.isalnum()).upper()
unfoldable pub cleaned : Letters → Text → Text
cleaned l [] = []
cleaned l (c ∷ t) = let rest = cleaned l t in if l.is_alnum c then l.upper c ++ rest else rest

-- Twelve hex digits, in upper case.
unfoldable pub is_mac : Text → Bool
unfolding all_hex
is_mac t = length t == 12 && all_hex t

-- normalize_mac
unfoldable pub normalize_mac : Letters → Text → Text
unfolding cleaned is_mac
normalize_mac l mac = let t = cleaned l mac in if is_mac t then t else []
