-- ===== src/Ble/Mac/Spelling.antt =====
-- The spellings of a MAC that addon/petkit_local/devices/ble/registry.py takes for the same.
use petkit_local.Prelude.{
  ℕ, ◌≡◌, refl, ap, ◌⊎◌, inl, inr, true, false, [], ◌∷◌, Text, length, ◌==◌, Bool-cases, and-left,
  and-right,
}
use petkit_local.Ble.Mac.{Letters, ReadsHex, is_hex, all_hex, cleaned, is_mac, normalize_mac}

-- A text that has the characters of another, some in lower case, and separators between them.
pub data Spells (l : Letters) : Text → Text → Type 0 where
  done : Spells l [] []
  separator : (c : ℕ) (t m : Text) → l.is_alnum c ≡ false → Spells l t m → Spells l (c ∷ t) m
  digit :
      (c d : ℕ) (t m : Text)
      → l.is_alnum c ≡ true
      → l.upper c ≡ d ∷ []
      → Spells l t m
      → Spells l (c ∷ t) (d ∷ m)

module _ (l : Letters) where
  cleaned-Spells : (t m : Text) → Spells l t m → cleaned l t ≡ m
  unfolding cleaned
  cleaned-Spells _ _ done = refl
  cleaned-Spells _ _ (separator c t m h s) = rw h (cleaned-Spells t m s)
  cleaned-Spells _ _ (digit c d t m h u s) = rw (h, u) (ap (λ x. d ∷ x) (cleaned-Spells t m s))

  -- Every spelling of twelve hex digits in upper case is normalised to them.
  pub normalize_mac-Spells : (t m : Text) → is_mac m ≡ true → Spells l t m → normalize_mac l t ≡ m
  unfolding normalize_mac
  normalize_mac-Spells t m h s = rw (cleaned-Spells t m s, h) refl

  pub hex-Spells : ReadsHex l → (m : Text) → all_hex m ≡ true → Spells l m m
  unfolding all_hex
  hex-Spells r [] h = done
  hex-Spells r (c ∷ m) h =
      let hex = and-left (is_hex c) _ h in
      digit c c m m (r.hex_kept c hex) (r.hex_upper c hex)
        (hex-Spells r m (and-right (is_hex c) _ h))

  -- A MAC is its own normal form.
  pub normalize_mac-is_mac : ReadsHex l → (m : Text) → is_mac m ≡ true → normalize_mac l m ≡ m
  normalize_mac-is_mac r m h =
      normalize_mac-Spells m m h (hex-Spells r m (unfold is_mac in and-right (length m == 12) _ h))

  pub normalize_mac-cases :
      (t : Text) → (normalize_mac l t ≡ []) ⊎ (is_mac (normalize_mac l t) ≡ true)
  unfolding normalize_mac
  normalize_mac-cases t = elim (Bool-cases (is_mac (cleaned l t))) [
    | inl h ↦ inr (rw h h)
    | inr h ↦ inl (rw h refl)
  ]

  normalize_mac-nil : normalize_mac l [] ≡ []
  unfolding normalize_mac cleaned is_mac
  normalize_mac-nil = refl

  -- If hex digits are read as Python reads them, what normalize_mac gives is empty or twelve hex digits
  -- in upper case, it stays so when it is normalised again, and every spelling of twelve such digits,
  -- with separators or in lower case, gives them.
  pub normalize_mac_lem :
      ReadsHex l
      → (t m : Text) → is_mac m ≡ true
      → Spells l t m
      → (u : Text)
      → ((normalize_mac l u ≡ []) ⊎ (is_mac (normalize_mac l u) ≡ true))
        × (normalize_mac l (normalize_mac l u) ≡ normalize_mac l u)
        × (normalize_mac l t ≡ m)
  normalize_mac_lem r t m h s u = (
    normalize_mac-cases u,
    elim (normalize_mac-cases u) [
      | inl e ↦ rw e normalize_mac-nil
      | inr e ↦ normalize_mac-is_mac r (normalize_mac l u) e
    ],
    normalize_mac-Spells t m h s,
  )
