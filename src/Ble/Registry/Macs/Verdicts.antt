-- ===== src/Ble/Registry/Macs/Verdicts.antt =====
-- What the verdicts of apply_cloud_binding of addon/petkit_local/devices/ble/registry.py say, and that a
-- refusal changes nothing.
use petkit_local.Prelude.{
  ◌≡◌, ◌≢◌, refl, sym, ap, ◌∙◌, Bool, true, false, not, Option, none, some, arith, if◌then◌else◌,
}
use petkit_local.Prelude.Int.{ℤ, positive}
use petkit_local.Mqtt.Topics.Segments.{is_nonempty}
use petkit_local.Devices.Ids.{at_id, put_id, int_eq_iff, AllIds-at_id, at_id-put_id}
use petkit_local.Ble.Mac.{Letters, ReadsHex, normalize_mac}
use petkit_local.Ble.Registry.{
  Accessory, Binding, Accessories, Applied, Verdict, no_usable_id, no_parser, mac_taken, imported,
  updated, unchanged, same_dict, upsert, get_by_mac, replace_blocks, verdict_of, clashing, refuse,
  accept, unless_taken, register, apply_cloud_binding,
}
use petkit_local.Ble.Registry.Macs.{AreApart, found_by_mac}

module _ (l : Letters) (r : ReadsHex l) where
  -- The accessory that is given stands in the registry under the id of the entry.
  abbrev pub IsStored : Binding → Applied → Accessory → Type 0
  IsStored b a d = (a.accessory ≡ some d) × (at_id b.petkit_id a.accessories ≡ some d)

  -- What a verdict says: of the entry, the registry before, and what is given.
  abbrev pub Says : Binding → Accessories → Applied → Verdict → Type 0
  Says b t a no_usable_id = positive b.petkit_id ≡ false
  Says b t a no_parser = is_nonempty b.ble_type ≡ false
  Says b t a (mac_taken pid) =
      (x : Accessory) × (x.petkit_id ≡ pid)
      × (at_id pid t ≡ some x)
      × (pid ≢ b.petkit_id)
      × (normalize_mac l x.mac ≡ normalize_mac l b.mac)
  Says b t a imported = (d : Accessory) × (at_id b.petkit_id t ≡ none) × IsStored b a d
  Says b t a updated =
      (x : Accessory) × (d : Accessory) × (at_id b.petkit_id t ≡ some x)
      × (same_dict x d ≡ false)
      × IsStored b a d
  Says b t a unchanged =
      (x : Accessory) × (d : Accessory) × (at_id b.petkit_id t ≡ some x)
      × (same_dict x d ≡ true)
      × IsStored b a d

  accept-Says :
      (b : Binding) (t : Accessories) → Says b t (accept l b t) (Applied.verdict (accept l b t))
  unfolding accept verdict_of
  accept-Says b t = known (at_id b.petkit_id t) refl
    where
      given : Accessory
      given = replace_blocks b (upsert l b (at_id b.petkit_id t))

      stored : IsStored b (accept l b t) given
      stored = (
        unfold accept register in refl,
        unfold accept register in
            rw
              (
                at_id-put_id b.petkit_id b.petkit_id given
                    (put_id b.petkit_id (upsert l b (at_id b.petkit_id t)) t),
                (int_eq_iff b.petkit_id b.petkit_id).1 refl,
              )
              refl,
      )

      judged :
          (x : Accessory) (q : Bool)
          → at_id b.petkit_id t ≡ some x
          → same_dict x given ≡ q
          → Says b t (accept l b t) (if q then unchanged else updated)
      judged x true e same = (x, given, e, same, stored)
      judged x false e same = (x, given, e, same, stored)

      known :
          (o : Option Accessory)
          → at_id b.petkit_id t ≡ o
          → Says b t (accept l b t) (verdict_of o given)
      known none e = (given, e, stored)
      known (some x) e = judged x (same_dict x given) e refl

  clashing-some :
      (b : Binding) (t : Accessories) (pid : ℤ) (o : Option Accessory)
      → AreApart l t
      → get_by_mac l b.mac t ≡ o
      → clashing b.petkit_id o ≡ some pid
      → (x : Accessory) × (x.petkit_id ≡ pid)
        × (at_id pid t ≡ some x)
        × (pid ≢ b.petkit_id)
        × (normalize_mac l x.mac ≡ normalize_mac l b.mac)
  unfolding clashing
  clashing-some b t pid none h g c = absurd (cc)
  clashing-some b t pid (some x) h g c =
      let (k, at_k, same) = found_by_mac l r b.mac t x h.distinct g in
      let key = AllIds-at_id (λ i (d : Accessory). d.petkit_id ≡ i) k x t h.keyed at_k in
      let is_pid : x.petkit_id ≡ pid = ground arith in
      (
        x,
        is_pid,
        sym (ap (λ i. at_id i t) (sym key ∙ is_pid)) ∙ at_k,
        ground (arith, int_eq_iff x.petkit_id b.petkit_id),
        same,
      )

  unless-Says :
      (b : Binding) (t : Accessories) (o : Option ℤ)
      → AreApart l t
      → clashing b.petkit_id (get_by_mac l b.mac t) ≡ o
      → Says b t (unless_taken l o b t) (Applied.verdict (unless_taken l o b t))
  unfolding unless_taken refuse
  unless-Says b t none h e = accept-Says b t
  unless-Says b t (some pid) h e = clashing-some b t pid (get_by_mac l b.mac t) h refl e

  abbrev Reports : Binding → Accessories → Applied → Type 0
  Reports b t a = Says b t a a.verdict × (a.accessory ≡ none → a.accessories ≡ t)

  kept :
      (b : Binding) (t : Accessories) (o : Option ℤ)
      → Applied.accessory (unless_taken l o b t) ≡ none
      → Applied.accessories (unless_taken l o b t) ≡ t
  unfolding unless_taken refuse accept
  kept b t none e = absurd (cc)
  kept b t (some pid) e = refl

  -- If hex digits are read as Python reads them, and in a registry where each key is the id of its
  -- accessory, no key occurs twice and no two accessories have the same MAC, apply_cloud_binding
  -- says that there is no usable id only if the id is not above 0, that there is no parser only if
  -- the type is empty, that the MAC is taken only with the id of another accessory that has it,
  -- imported only if the id was unknown, unchanged only if the accessory known under the id has the
  -- same dictionary as the one that it gives, and updated only if the two differ; what it gives as
  -- imported, updated or unchanged stands in the registry under the id; and if it gives no
  -- accessory, the registry is as before.
  pub apply_cloud_binding_lem :
      (b : Binding) (t : Accessories)
      → AreApart l t
      → Says b t (apply_cloud_binding l b t) (Applied.verdict (apply_cloud_binding l b t))
        × (Applied.accessory (apply_cloud_binding l b t) ≡ none
            → Applied.accessories (apply_cloud_binding l b t) ≡ t)
  unfolding apply_cloud_binding refuse
  apply_cloud_binding_lem b t h = choose (positive b.petkit_id) (is_nonempty b.ble_type) refl refl
    where
      taken : Option ℤ
      taken = clashing b.petkit_id (get_by_mac l b.mac t)

      choose :
          (p q : Bool)
          → positive b.petkit_id ≡ p
          → is_nonempty b.ble_type ≡ q
          → Reports b t (
              if not p
              then refuse no_usable_id t
              else (if q then unless_taken l taken b t else refuse no_parser t))
      choose false q e f = (e, λ _. refl)
      choose true false e f = (f, λ _. refl)
      choose true true e f = (unless-Says b t taken h refl, kept b t taken)
