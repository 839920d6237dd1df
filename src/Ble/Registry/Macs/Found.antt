-- ===== src/Ble/Registry/Macs/Found.antt =====
-- An accessory that was imported is found by its MAC: addon/petkit_local/devices/ble/registry.py.
use petkit_local.Prelude.{
  ◌≡◌, refl, sym, ap, ◌∙◌, Bool, true, false, not, Option, none, some, [], ◌∷◌, Text, arith,
  if◌then◌else◌,
}
use petkit_local.Prelude.Int.{ℤ, positive}
use petkit_local.Mqtt.Topics.Segments.{is_nonempty}
use petkit_local.Devices.Ids.{at_id, int_eq_refl}
use petkit_local.Ble.Mac.{Letters, ReadsHex, cleaned, is_mac, normalize_mac}
use petkit_local.Ble.Mac.Spelling.{Spells, normalize_mac-Spells}
use petkit_local.Ble.Registry.{
  Accessory, Binding, Accessories, Applied, no_usable_id, no_parser, upsert, overwrite,
  new_accessory, keep_text, get_by_mac, replace_blocks, clashing, refuse, register, accept,
  unless_taken, apply_cloud_binding,
}
use petkit_local.Ble.Registry.Macs.{
  AreApart, applied, at_id-accept, found_by_mac, missing_by_mac, canonical_mac-normal,
}
use petkit_local.Ble.Registry.Macs.Apart.{apply-AreApart}

module _ (l : Letters) (r : ReadsHex l) where
  upsert-given :
      (b : Binding) (known : Option Accessory)
      → is_nonempty b.mac ≡ true
      → normalize_mac l (Accessory.mac (upsert l b known)) ≡ normalize_mac l b.mac
  unfolding upsert new_accessory overwrite keep_text
  upsert-given b none n = canonical_mac-normal l r b.mac
  upsert-given b (some d) n = rw n refl

  applied-given :
      (b : Binding) (t : Accessories)
      → is_nonempty b.mac ≡ true
      → normalize_mac l (Accessory.mac (applied l b t)) ≡ normalize_mac l b.mac
  unfolding replace_blocks
  applied-given b t = upsert-given b (at_id b.petkit_id t)

  is_mac-nonempty : (m : Text) → is_mac m ≡ true → is_nonempty m ≡ true
  unfolding is_mac is_nonempty
  is_mac-nonempty [] h = absurd (cc)
  is_mac-nonempty (c ∷ m) h = refl

  given : (t : Text) → is_nonempty (normalize_mac l t) ≡ true → is_nonempty t ≡ true
  unfolding normalize_mac is_mac cleaned is_nonempty
  given [] h = h
  given (c ∷ t) h = refl

  -- What is accepted is put into the table, and what is refused leaves it.
  abbrev Answers : Binding → Accessories → Applied → Type 0
  Answers b t a =
      (d : Accessory)
      → a.accessory ≡ some d
      → (d ≡ applied l b t) × (at_id b.petkit_id a.accessories ≡ some d)

  accept-Answers : (b : Binding) (t : Accessories) → Answers b t (accept l b t)
  accept-Answers b t d e =
      let same : d ≡ applied l b t = unfold accept register in ground arith in
      (same, at_id-accept l r b t b.petkit_id ∙ rw (int_eq_refl b.petkit_id) (ap some (sym same)))

  unless-Answers :
      (b : Binding) (t : Accessories) (o : Option ℤ) → Answers b t (unless_taken l o b t)
  unfolding unless_taken refuse
  unless-Answers b t none = accept-Answers b t
  unless-Answers b t (some pid) = λ d e. absurd (cc)

  apply-Answers : (b : Binding) (t : Accessories) → Answers b t (apply_cloud_binding l b t)
  unfolding apply_cloud_binding refuse
  apply-Answers b t = choose (positive b.petkit_id) (is_nonempty b.ble_type)
    where
      taken : Option ℤ
      taken = clashing b.petkit_id (get_by_mac l b.mac t)

      choose :
          (p q : Bool)
          → Answers b t (
              if not p
              then refuse no_usable_id t
              else (if q then unless_taken l taken b t else refuse no_parser t))
      choose false q = λ d e. absurd (cc)
      choose true false = λ d e. absurd (cc)
      choose true true = unless-Answers b t taken

  -- If hex digits are read as Python reads them, and in a registry where each key is the id of its
  -- accessory, no key occurs twice and no two accessories have the same MAC, an entry that
  -- apply_cloud_binding accepts, with a MAC of twelve hex digits, is afterwards what get_by_mac finds
  -- under every spelling of that MAC.
  pub get_by_mac-apply_cloud_binding :
      (b : Binding) (t : Accessories) (d : Accessory) (s m : Text)
      → AreApart l t
      → Applied.accessory (apply_cloud_binding l b t) ≡ some d
      → is_mac m ≡ true
      → Spells l b.mac m
      → Spells l s m
      → get_by_mac l s (Applied.accessories (apply_cloud_binding l b t)) ≡ some d
  get_by_mac-apply_cloud_binding b t d s m h accepted mac of_entry of_text =
      choose (get_by_mac l s t') refl
    where
      t' : Accessories
      t' = Applied.accessories (apply_cloud_binding l b t)

      apart : AreApart l t'
      apart = apply-AreApart l r b t h

      stored : at_id b.petkit_id t' ≡ some d
      stored = (apply-Answers b t d accepted).1

      entry_mac : normalize_mac l b.mac ≡ m
      entry_mac = normalize_mac-Spells l b.mac m mac of_entry

      wanted : normalize_mac l s ≡ m
      wanted = normalize_mac-Spells l s m mac of_text

      filled : is_nonempty m ≡ true
      filled = is_mac-nonempty m mac

      new_mac : normalize_mac l d.mac ≡ m
      new_mac =
          ap (λ (x : Accessory). normalize_mac l x.mac) (apply-Answers b t d accepted).0
          ∙ (applied-given b t (given b.mac (ap is_nonempty entry_mac ∙ filled)) ∙ entry_mac)

      choose : (o : Option Accessory) → get_by_mac l s t' ≡ o → o ≡ some d
      choose none g = absurd (
          missing_by_mac l r s t' b.petkit_id d (ap is_nonempty wanted ∙ filled) g stored
            (new_mac ∙ sym wanted))
      choose (some x) g =
          let (k, at_k, same) = found_by_mac l r s t' x apart.distinct g in
          let is_pid =
            apart.apart k b.petkit_id x d at_k stored (ap is_nonempty (same ∙ wanted) ∙ filled)
              (same ∙ (wanted ∙ sym new_mac)) in
          sym at_k ∙ (ap (λ i. at_id i t') is_pid ∙ stored)
