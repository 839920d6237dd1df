-- ===== src/Devices/Registry/Saved/RoundTrip.antt =====
-- What a restart makes of devices.json: addon/petkit_local/devices/registry.py.
use petkit_local.Prelude.{
  ◌≡◌, refl, sym, ap, ◌∙◌, ℕ, suc, true, false, some, [], ◌∷◌, ◌++◌, Text, arith, if◌then◌else◌,
  Bool-cases, inl, inr, append_assoc, append-nil, and-left, and-right, not-false,
}
use petkit_local.Prelude.Int.{ℤ, positive}
use petkit_local.Prelude.Json.{Fields}
use petkit_local.Devices.Ids.{
  put_id, has_id, ids_distinct, AllIds, put_id-lacks, has_id-put_id, int_eq_iff,
}
use petkit_local.Devices.Registry.{Device, Minted, Table, merge_default_settings}
use petkit_local.Devices.Registry.Saved.Settings.{IsBackfilled, merge_default_settings-IsBackfilled}
use petkit_local.Devices.Registry.Saved.{
  loaded, phantom, entry, to_dict, serialize, load_entry, load_saved, configured, rebuilt, or_else,
  add_loaded, go_on, restore_from, restore,
}

-- Each key is the id of its device.
abbrev pub IsKeyed : Table → Type 0
IsKeyed = AllIds (λ pid (d : Device). d.petkit_id ≡ pid)

module _ (default_settings : Text → Fields) where
  -- The devices with an id above 0, with the settings that they lack.
  unfoldable pub kept : Table → Table
  kept [] = []
  kept ((pid, d) ∷ t) =
      let rest = kept t in
      if positive pid then (pid, merge_default_settings default_settings d) ∷ rest else rest

  load_entry-to_dict :
      (minted : Minted) (d : Device)
      → load_entry default_settings minted (entry (to_dict d)) ≡ (
          if positive d.petkit_id
          then loaded (merge_default_settings default_settings d)
          else phantom)
  unfolding load_entry load_saved configured rebuilt to_dict or_else
  load_entry-to_dict minted d = refl

  abbrev Apart : Table → Table → Type 0
  Apart acc = AllIds (λ k (_ : Device). has_id k acc ≡ false)

  Apart-put_id :
      (pid : ℤ) (d : Device) (acc t : Table)
      → has_id pid t ≡ false
      → Apart acc t
      → Apart (put_id pid d acc) t
  Apart-put_id pid d acc [] h a = tt
  Apart-put_id pid d acc ((k, e) ∷ t) h (a, rest) = (
    ground (arith, has_id-put_id pid k d acc, int_eq_iff k pid, int_eq_iff pid k),
    Apart-put_id pid d acc t (ground arith) rest,
  )

  add-kept :
      (minted : Minted) (pid : ℤ) (d : Device) (acc : Table)
      → d.petkit_id ≡ pid
      → positive pid ≡ true
      → add_loaded default_settings (load_entry default_settings minted (entry (to_dict d))) acc
        ≡ some (put_id pid (merge_default_settings default_settings d) acc)
  unfolding add_loaded merge_default_settings
  add-kept minted pid d acc k h =
      rw (load_entry-to_dict minted d, ap positive k ∙ h)
        (ap (λ i. some (put_id i (merge_default_settings default_settings d) acc)) k)

  add-dropped :
      (minted : Minted) (pid : ℤ) (d : Device) (acc : Table)
      → d.petkit_id ≡ pid
      → positive pid ≡ false
      → add_loaded default_settings (load_entry default_settings minted (entry (to_dict d))) acc
        ≡ some acc
  unfolding add_loaded
  add-dropped minted pid d acc k h = rw (load_entry-to_dict minted d, ap positive k ∙ h) refl

  restore_from-serialize :
      (mint : ℕ → Minted) (n : ℕ) (t acc : Table)
      → ids_distinct t ≡ true
      → IsKeyed t
      → Apart acc t
      → restore_from default_settings mint n (serialize t) acc ≡ some (acc ++ kept t)
  unfolding restore_from go_on serialize kept
  restore_from-serialize mint n [] acc h k a = ap some (sym (append-nil acc))
  restore_from-serialize mint n ((pid, d) ∷ t) acc h (k, ks) (a, rest) =
      let new = merge_default_settings default_settings d in
      let lacks = not-false (has_id pid t) (and-left _ _ h) in
      let tail = and-right _ (ids_distinct t) h in
      elim (Bool-cases (positive pid)) [
        | inl e ↦
            rw (add-kept (mint n) pid d acc k e, e)
              (restore_from-serialize mint (suc n) t (put_id pid new acc) tail ks
                  (Apart-put_id pid new acc t lacks rest)
                ∙ rw (put_id-lacks pid new acc a)
                    (ap some (append_assoc acc ((pid, new) ∷ []) (kept t))))
        | inr e ↦
            rw (add-dropped (mint n) pid d acc k e, e)
              (restore_from-serialize mint (suc n) t acc tail ks rest)
      ]

  -- A registry whose ids are all different, and each that of its device, is restored from what it writes
  -- as its devices with an id above 0, in their order, each with the default settings filled in; and
  -- filling them in keeps all fields of a device but its config, all keys of the config but
  -- settings, and of the settings every key that is there: a key that they lack has its default, and
  -- settings that are no object stay as they are.
  pub restore-serialize :
      (mint : ℕ → Minted) (t : Table)
      → ids_distinct t ≡ true
      → IsKeyed t
      → (restore default_settings mint (some (serialize t)) ≡ some (kept t))
        × ((d : Device)
            → IsBackfilled
                (default_settings d.device_type)
                d
                (merge_default_settings default_settings d))
  unfolding restore
  restore-serialize mint t h k = (
    restore_from-serialize mint 0 t [] h k (all_apart t),
    merge_default_settings-IsBackfilled default_settings,
  )
    where
      all_apart : (t : Table) → Apart [] t
      all_apart [] = tt
      all_apart ((pid, d) ∷ t) = (refl, all_apart t)
