-- ===== src/Ble/Registry/Macs/Apart.antt =====
-- No two accessories in the registry of addon/petkit_local/devices/ble/registry.py come to have the same
-- MAC when the accessories of a PetKit account are imported.
use petkit_local.Prelude.{
  ◌≡◌, refl, sym, ap, ◌∙◌, inl, inr, Bool, true, false, not, Option, none, some, List, [], ◌∷◌,
  arith, if◌then◌else◌,
}
use petkit_local.Prelude.Int.{ℤ, positive}
use petkit_local.Mqtt.Topics.Segments.{is_nonempty}
use petkit_local.Http.Redact.Objects.{int_eq}
use petkit_local.Devices.Ids.{
  at_id, ids_distinct, AllIds, int_eq_iff, ids_distinct-put_id, AllIds-put_id, AllIds-at_id,
}
use petkit_local.Ble.Mac.{Letters, ReadsHex, normalize_mac}
use petkit_local.Ble.Registry.{
  Accessory, Binding, Accessories, Applied, upsert, register, get_by_mac, replace_blocks, clashing,
  refuse, accept, unless_taken, apply_cloud_binding, no_usable_id, no_parser,
}
use petkit_local.Ble.Registry.Macs.{
  AreApart, applied, applied-mac, upsert_id, at_id-accept, no_clash,
}

-- An import: apply_cloud_binding for each entry.
unfoldable pub import_all : Letters → List Binding → Accessories → Accessories
unfolding apply_cloud_binding
import_all l [] t = t
import_all l (b ∷ bs) t = import_all l bs (Applied.accessories (apply_cloud_binding l b t))

module _ (l : Letters) (r : ReadsHex l) where
  accept-distinct :
      (b : Binding) (t : Accessories)
      → AreApart l t
      → ids_distinct (Applied.accessories (accept l b t)) ≡ true
  unfolding accept register
  accept-distinct b t h =
      ids_distinct-put_id b.petkit_id (applied l b t) _
        (ids_distinct-put_id b.petkit_id (upsert l b (at_id b.petkit_id t)) t h.distinct)

  accept-keyed :
      (b : Binding) (t : Accessories)
      → AreApart l t
      → AllIds (λ pid (d : Accessory). d.petkit_id ≡ pid) (Applied.accessories (accept l b t))
  unfolding accept register replace_blocks
  accept-keyed b t h =
      let of_id = upsert_id l r b (at_id b.petkit_id t) (λ d e.
        AllIds-at_id (λ pid (d : Accessory). d.petkit_id ≡ pid) b.petkit_id d t h.keyed e) in
      AllIds-put_id _ b.petkit_id (applied l b t) _ of_id
        (AllIds-put_id _ b.petkit_id (upsert l b (at_id b.petkit_id t)) t of_id h.keyed)

  -- Another accessory does not have the MAC of the one that the entry leaves.
  applied-apart :
      (b : Binding) (t : Accessories) (j : ℤ) (e : Accessory)
      → AreApart l t
      → clashing b.petkit_id (get_by_mac l b.mac t) ≡ none
      → at_id j t ≡ some e
      → is_nonempty (normalize_mac l (Accessory.mac (applied l b t))) ≡ true
      → normalize_mac l (Accessory.mac (applied l b t)) ≡ normalize_mac l e.mac
      → b.petkit_id ≡ j
  applied-apart b t j e h c g n same = elim (applied-mac l r b t) [
    | inl of_entry ↦
        sym (no_clash l r b t j e h c g (ap is_nonempty (sym of_entry) ∙ n) (sym same ∙ of_entry))
    | inr (old, known, kept) ↦
        h.apart b.petkit_id j old e known g
          (ap (λ m. is_nonempty (normalize_mac l m)) (sym kept) ∙ n)
          (ap (normalize_mac l) (sym kept) ∙ same)
  ]

  accept-AreApart :
      (b : Binding) (t : Accessories)
      → AreApart l t
      → clashing b.petkit_id (get_by_mac l b.mac t) ≡ none
      → AreApart l (Applied.accessories (accept l b t))
  accept-AreApart b t h c = record {
    distinct = accept-distinct b t h;
    keyed = accept-keyed b t h;
    apart = λ i j d e at_i at_j n same.
        two i j d e n same (int_eq b.petkit_id i) (int_eq b.petkit_id j) refl refl
          (sym (at_id-accept l r b t i) ∙ at_i) (sym (at_id-accept l r b t j) ∙ at_j);
  }
    where
      two :
          (i j : ℤ) (d e : Accessory)
          → is_nonempty (normalize_mac l d.mac) ≡ true
          → normalize_mac l d.mac ≡ normalize_mac l e.mac
          → (p q : Bool) → int_eq b.petkit_id i ≡ p
          → int_eq b.petkit_id j ≡ q
          → (if p then some (applied l b t) else at_id i t) ≡ some d
          → (if q then some (applied l b t) else at_id j t) ≡ some e
          → i ≡ j
      two i j d e n same true true p q at_i at_j =
          sym ((int_eq_iff b.petkit_id i).0 p) ∙ (int_eq_iff b.petkit_id j).0 q
      two i j d e n same true false p q at_i at_j =
          let is_new : applied l b t ≡ d = ground arith in
          sym ((int_eq_iff b.petkit_id i).0 p)
          ∙ applied-apart b t j e h c at_j
              (ap (λ (x : Accessory). is_nonempty (normalize_mac l x.mac)) is_new ∙ n)
              (ap (λ (x : Accessory). normalize_mac l x.mac) is_new ∙ same)
      two i j d e n same false true p q at_i at_j =
          let is_new : applied l b t ≡ e = ground arith in
          let same_new = same ∙ ap (λ (x : Accessory). normalize_mac l x.mac) (sym is_new) in
          sym (applied-apart b t i d h c at_i (ap is_nonempty (sym same_new) ∙ n) (sym same_new))
          ∙ (int_eq_iff b.petkit_id j).0 q
      two i j d e n same false false p q at_i at_j = h.apart i j d e at_i at_j n same

  pub apply-AreApart :
      (b : Binding) (t : Accessories)
      → AreApart l t
      → AreApart l (Applied.accessories (apply_cloud_binding l b t))
  unfolding apply_cloud_binding refuse
  apply-AreApart b t h =
      choose (positive b.petkit_id) (is_nonempty b.ble_type)
        (clashing b.petkit_id (get_by_mac l b.mac t)) refl
    where
      unless :
          (o : Option ℤ)
          → clashing b.petkit_id (get_by_mac l b.mac t) ≡ o
          → AreApart l (Applied.accessories (unless_taken l o b t))
      unless none e = accept-AreApart b t h e
      unless (some pid) e = h

      choose :
          (p q : Bool) (o : Option ℤ)
          → clashing b.petkit_id (get_by_mac l b.mac t) ≡ o
          → AreApart l (
              Applied.accessories (
                if not p
                then refuse no_usable_id t
                else (if q
                    then unless_taken l (clashing b.petkit_id (get_by_mac l b.mac t)) b t
                    else refuse no_parser t)))
      choose false q o e = h
      choose true false o e = h
      choose true true o e = rw e (unless o e)

  -- If hex digits are read as Python reads them, importing any list of entries into a registry where each
  -- key is the id of its accessory, no key occurs twice and no two accessories have the same MAC, however
  -- spelled, leaves such a registry.
  pub import_all-AreApart :
      (bs : List Binding) (t : Accessories) → AreApart l t → AreApart l (import_all l bs t)
  unfolding import_all
  import_all-AreApart [] t h = h
  import_all-AreApart (b ∷ bs) t h =
      import_all-AreApart bs (Applied.accessories (apply_cloud_binding l b t))
        (apply-AreApart b t h)
