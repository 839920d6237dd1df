-- ===== src/Ble/Registry/Macs.antt =====
-- The MACs in the accessory registry of addon/petkit_local/devices/ble/registry.py.
pub mod Apart
pub mod Found
pub mod Verdicts
use petkit_local.Prelude.{
  ◌≡◌, ◌≢◌, refl, sym, ap, subst, ◌∙◌, ◌⊎◌, inl, inr, Bool, true, false, not, ◌&&◌, Option, none,
  some, List, [], ◌∷◌, Text, arith, if◌then◌else◌, Bool-cases, Option-cases, find,
}
use petkit_local.Prelude.Int.{ℤ, positive}
use petkit_local.Prelude.Json.{Fields}
use petkit_local.Mqtt.Topics.Segments.{text_eq, is_nonempty, text_eq→eq, text_eq_self}
use petkit_local.Http.Redact.Objects.{int_eq}
use petkit_local.Devices.Ids.{
  at_id, put_id, id_values, ids_distinct, AllIds, int_eq_iff, int_eq_refl, at_id-put_id,
  ids_distinct-put_id, AllIds-put_id, AllIds-at_id, find-at_id, find-none-at_id,
}
use petkit_local.Devices.Registry.{or_text}
use petkit_local.Ble.Mac.{Letters, ReadsHex, is_mac, normalize_mac}
use petkit_local.Ble.Mac.Spelling.{
  normalize_mac-cases, normalize_mac-is_mac, Spells, normalize_mac-Spells,
}
use petkit_local.Ble.Registry.{
  Accessory, Binding, Accessories, Registered, Applied, keep_text, keep_int, overwrite,
  new_accessory, canonical_mac, upsert, register, first_with, get_by_mac, replace_blocks,
  verdict_of, clashing, refuse, accept, unless_taken, apply_cloud_binding,
}

-- Each key is the id of its accessory, no key occurs twice, and no two accessories have the same MAC,
-- however it is spelled.
pub record AreApart (l : Letters) (t : Accessories) : Type 0 where
  pub distinct : ids_distinct t ≡ true
  pub keyed : AllIds (λ pid (d : Accessory). d.petkit_id ≡ pid) t
  pub apart :
      (i j : ℤ) (d e : Accessory)
      → at_id i t ≡ some d
      → at_id j t ≡ some e
      → is_nonempty (normalize_mac l d.mac) ≡ true
      → normalize_mac l d.mac ≡ normalize_mac l e.mac
      → i ≡ j

-- The accessory that apply_cloud_binding leaves, if it accepts the entry.
abbrev pub applied : Letters → Binding → Accessories → Accessory
applied l b t = replace_blocks b (upsert l b (at_id b.petkit_id t))

module _ (l : Letters) (r : ReadsHex l) where
  canonical_mac-normal : (mac : Text) → normalize_mac l (canonical_mac l mac) ≡ normalize_mac l mac
  unfolding canonical_mac or_text
  canonical_mac-normal mac = choose (normalize_mac l mac) refl (normalize_mac-cases l mac)
    where
      choose :
          (m : Text)
          → normalize_mac l mac ≡ m
          → (m ≡ []) ⊎ (is_mac m ≡ true)
          → normalize_mac l (or_text m mac) ≡ m
      choose [] e h = e
      choose (c ∷ m) e (inl h) = absurd (cc)
      choose (c ∷ m) e (inr h) = normalize_mac-is_mac l r (c ∷ m) h

  -- The accessory that an entry leaves has the MAC of the entry, or else the one that it had.
  abbrev HasMacOf : Binding → Option Accessory → Accessory → Type 0
  HasMacOf b known d =
      (normalize_mac l d.mac ≡ normalize_mac l b.mac)
      ⊎ ((old : Accessory) × (known ≡ some old) × (d.mac ≡ old.mac))

  upsert-mac : (b : Binding) (known : Option Accessory) → HasMacOf b known (upsert l b known)
  unfolding upsert new_accessory overwrite
  upsert-mac b none = inl (canonical_mac-normal b.mac)
  upsert-mac b (some old) = choose (is_nonempty b.mac) refl
    where
      choose :
          (h : Bool)
          → is_nonempty b.mac ≡ h
          → HasMacOf b (some old) (record (overwrite b old) { mac = if h then b.mac else old.mac })
      choose true e = inl refl
      choose false e = inr (old, refl, refl)

  applied-mac : (b : Binding) (t : Accessories) → HasMacOf b (at_id b.petkit_id t) (applied l b t)
  unfolding replace_blocks
  applied-mac b t = upsert-mac b (at_id b.petkit_id t)

  keep_int_self : (a b : ℤ) → a ≡ b → keep_int a b ≡ b
  unfolding keep_int
  keep_int_self a b e = ground arith

  upsert_id :
      (b : Binding) (known : Option Accessory)
      → ((d : Accessory) → known ≡ some d → d.petkit_id ≡ b.petkit_id)
      → (upsert l b known).petkit_id ≡ b.petkit_id
  unfolding upsert new_accessory overwrite
  upsert_id b none h = refl
  upsert_id b (some d) h = keep_int_self d.petkit_id b.petkit_id (h d refl)

  at_id-accept :
      (b : Binding) (t : Accessories) (j : ℤ)
      → at_id j (Applied.accessories (accept l b t))
        ≡ (if int_eq b.petkit_id j then some (applied l b t) else at_id j t)
  unfolding accept register
  at_id-accept b t j =
      let known = upsert l b (at_id b.petkit_id t) in
      at_id-put_id b.petkit_id j (applied l b t) (put_id b.petkit_id known t)
      ∙ ground (arith, at_id-put_id b.petkit_id j known t)

  abbrev has_mac : Text → Accessory → Bool
  has_mac mac d = text_eq (normalize_mac l d.mac) (normalize_mac l mac)

  pub found_by_mac :
      (mac : Text) (t : Accessories) (x : Accessory)
      → ids_distinct t ≡ true
      → get_by_mac l mac t ≡ some x
      → (k : ℤ) × (at_id k t ≡ some x) × (normalize_mac l x.mac ≡ normalize_mac l mac)
  unfolding get_by_mac first_with
  found_by_mac mac t x h g =
      let (k, e, same) = find-at_id (has_mac mac) t x h (ground arith) in
      (k, e, text_eq→eq (normalize_mac l x.mac) (normalize_mac l mac) same)

  pub missing_by_mac :
      (mac : Text) (t : Accessories) (k : ℤ) (e : Accessory)
      → is_nonempty (normalize_mac l mac) ≡ true
      → get_by_mac l mac t ≡ none
      → at_id k t ≡ some e
      → normalize_mac l e.mac ≢ normalize_mac l mac
  unfolding get_by_mac first_with
  missing_by_mac mac t k e n g h same =
      let none_found : find (has_mac mac) (id_values t) ≡ none = ground arith in
      let differs = find-none-at_id (has_mac mac) t k e none_found h in
      absurd (
        cc (
          differs,
          ap (λ s. text_eq s (normalize_mac l mac)) same ∙ text_eq_self (normalize_mac l mac),
        ))

  not_clashing : (pid : ℤ) (x : Accessory) → clashing pid (some x) ≡ none → x.petkit_id ≡ pid
  unfolding clashing
  not_clashing pid x c = ground (arith, int_eq_iff x.petkit_id pid)

  -- An entry whose MAC clashes with none leaves no other accessory with its MAC.
  no_clash :
      (b : Binding) (t : Accessories) (j : ℤ) (e : Accessory)
      → AreApart l t
      → clashing b.petkit_id (get_by_mac l b.mac t) ≡ none
      → at_id j t ≡ some e
      → is_nonempty (normalize_mac l b.mac) ≡ true
      → normalize_mac l e.mac ≡ normalize_mac l b.mac
      → j ≡ b.petkit_id
  no_clash b t j e h c g n same = choose (get_by_mac l b.mac t) refl c
    where
      choose :
          (o : Option Accessory)
          → get_by_mac l b.mac t ≡ o
          → clashing b.petkit_id o ≡ none
          → j ≡ b.petkit_id
      choose none f _ = absurd (missing_by_mac b.mac t j e n f g same)
      choose (some x) f none_clash =
          let (k, at_k, equal) = found_by_mac b.mac t x h.distinct f in
          h.apart j k e x g at_k (ap is_nonempty same ∙ n) (same ∙ sym equal)
          ∙ (sym (AllIds-at_id (λ pid (d : Accessory). d.petkit_id ≡ pid) k x t h.keyed at_k)
              ∙ not_clashing b.petkit_id x none_clash)
