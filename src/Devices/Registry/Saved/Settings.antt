-- ===== src/Devices/Registry/Saved/Settings.antt =====
-- The settings that a device lacks, from the defaults of its type: `_merge_default_settings` of
-- addon/petkit_local/devices/registry.py.
use petkit_local.Prelude.{
  ◌≡◌, refl, String, Bool, true, false, Option, none, some, Text, arith, str_eq, eq_iff, Bool-cases,
  inl, inr, if◌then◌else◌, ◌∙◌,
}
use petkit_local.Prelude.Json.{Json, obj, Fields, end, field, lookup_field}
use petkit_local.Devices.Pending.Lookups.{newer}
use petkit_local.Devices.Registry.{
  Device, set_default, set_defaults, fill_settings, in_settings, merge_default_settings,
}

-- What the settings are after the defaults: their own keys first; a value that is no object stays.
abbrev pub Backfilled : Fields → Option Json → Option Json → Type 0
Backfilled defaults none after =
    (fs : Fields) × (after ≡ some (obj fs))
    × ((k : String) → lookup_field k fs ≡ lookup_field k defaults)
Backfilled defaults (some (obj own)) after =
    (fs : Fields) × (after ≡ some (obj fs))
    × ((k : String) → lookup_field k fs ≡ newer (lookup_field k own) (lookup_field k defaults))
Backfilled defaults (some other) after = after ≡ some other

-- The second device is the first one with the settings that it lacked.
pub record IsBackfilled (defaults : Fields) (d e : Device) : Type 0 where
  pub rest : e ≡ record d { config = e.config }
  pub others :
      (k : String) → str_eq k "settings" ≡ false → lookup_field k e.config ≡ lookup_field k d.config
  pub settings :
      Backfilled defaults (lookup_field "settings" d.config) (lookup_field "settings" e.config)

lookup_field-set_default :
    (k j : String) (v : Json) (fs : Fields)
    → lookup_field k (set_default j v fs)
      ≡ newer (lookup_field k fs) (if str_eq j k then some v else none)
unfolding set_default
lookup_field-set_default k j v end = refl
lookup_field-set_default k j v (field i w fs) = elim (Bool-cases (str_eq i j)) [
  | inl same ↦ rw same (elim (Bool-cases (str_eq i k)) [
    | inl here ↦ rw here refl
    | inr past ↦ rw (past, apart same past) (unchanged (lookup_field k fs))
  ])
  | inr other ↦ rw other (elim (Bool-cases (str_eq i k)) [
    | inl here ↦ rw here refl
    | inr past ↦ rw past (lookup_field-set_default k j v fs)
  ])
]
  where
    apart : str_eq i j ≡ true → str_eq i k ≡ false → str_eq j k ≡ false
    apart same past = ground (arith, eq_iff i j, eq_iff j k, eq_iff i k)

    unchanged : (o : Option Json) → o ≡ newer o none
    unchanged none = refl
    unchanged (some u) = refl

lookup_field-set_defaults :
    (k : String) (defaults fs : Fields)
    → lookup_field k (set_defaults defaults fs)
      ≡ newer (lookup_field k fs) (lookup_field k defaults)
unfolding set_defaults
lookup_field-set_defaults k end fs = unchanged (lookup_field k fs)
  where
    unchanged : (o : Option Json) → o ≡ newer o none
    unchanged none = refl
    unchanged (some u) = refl
lookup_field-set_defaults k (field j v defaults) fs =
    lookup_field-set_defaults k defaults (set_default j v fs)
    ∙ rw (lookup_field-set_default k j v fs)
        (choose (lookup_field k fs) (str_eq j k) (lookup_field k defaults))
  where
    choose :
        (o : Option Json) (b : Bool) (p : Option Json)
        → newer (newer o (if b then some v else none)) p ≡ newer o (if b then some v else p)
    choose none true p = refl
    choose none false p = refl
    choose (some u) b p = refl

abbrev filled : Fields → Option Json → Option Json
filled defaults none = none
filled defaults (some v) = some (fill_settings defaults v)

lookup_field-in_settings :
    (k : String) (defaults fs : Fields)
    → lookup_field k (in_settings defaults fs)
      ≡ (if str_eq k "settings" then filled defaults (lookup_field k fs) else lookup_field k fs)
unfolding in_settings
lookup_field-in_settings k defaults end = choose (str_eq k "settings")
  where
    choose : (b : Bool) → none ≡ (if b then filled defaults none else none)
    choose true = refl
    choose false = refl
lookup_field-in_settings k defaults (field j v fs) = elim (Bool-cases (str_eq j "settings")) [
  | inl same ↦ rw same (elim (Bool-cases (str_eq j k)) [
    | inl here ↦ rw (here, named same here) refl
    | inr past ↦ rw (past, apart same past) refl
  ])
  | inr other ↦ rw other (elim (Bool-cases (str_eq j k)) [
    | inl here ↦ rw (here, unnamed other here) refl
    | inr past ↦ rw past (lookup_field-in_settings k defaults fs)
  ])
]
  where
    named : str_eq j "settings" ≡ true → str_eq j k ≡ true → str_eq k "settings" ≡ true
    named same here = ground (arith, eq_iff j "settings", eq_iff j k, eq_iff k "settings")

    apart : str_eq j "settings" ≡ true → str_eq j k ≡ false → str_eq k "settings" ≡ false
    apart same past = ground (arith, eq_iff j "settings", eq_iff j k, eq_iff k "settings")

    unnamed : str_eq j "settings" ≡ false → str_eq j k ≡ true → str_eq k "settings" ≡ false
    unnamed other here = ground (arith, eq_iff j "settings", eq_iff j k, eq_iff k "settings")

settings_filled :
    (defaults config : Fields)
    → lookup_field "settings" (in_settings defaults (set_default "settings" (obj end) config))
      ≡ filled defaults (newer (lookup_field "settings" config) (some (obj end)))
settings_filled defaults config =
    lookup_field-in_settings "settings" defaults (set_default "settings" (obj end) config)
    ∙ rw (lookup_field-set_default "settings" "settings" (obj end) config) refl

filled-Backfilled :
    (defaults : Fields) (o : Option Json)
    → Backfilled defaults o (filled defaults (newer o (some (obj end))))
unfolding fill_settings
filled-Backfilled defaults none =
    (set_defaults defaults end, refl, λ k. lookup_field-set_defaults k defaults end)
filled-Backfilled defaults (some (obj own)) =
    (set_defaults defaults own, refl, λ k. lookup_field-set_defaults k defaults own)
filled-Backfilled defaults (some other) = refl

-- The defaults of its type fill the settings of a device where they have no such key, and change
-- nothing else of it.
pub merge_default_settings-IsBackfilled :
    (default_settings : Text → Fields) (d : Device)
    → IsBackfilled (default_settings d.device_type) d (merge_default_settings default_settings d)
unfolding merge_default_settings
merge_default_settings-IsBackfilled default_settings d = record {
  rest = refl;
  others = λ k h.
      lookup_field-in_settings k (default_settings d.device_type)
        (set_default "settings" (obj end) d.config)
      ∙ rw (h, lookup_field-set_default k "settings" (obj end) d.config) (apart k h);
  settings =
      rw (settings_filled (default_settings d.device_type) d.config)
        (filled-Backfilled (default_settings d.device_type) (lookup_field "settings" d.config));
}
  where
    choose :
        (b : Bool) (o : Option Json) → b ≡ false → newer o (if b then some (obj end) else none) ≡ o
    choose b none h = rw h refl
    choose b (some v) h = refl

    apart :
        (k : String)
        → str_eq k "settings" ≡ false
        → newer (lookup_field k d.config) (if str_eq "settings" k then some (obj end) else none)
          ≡ lookup_field k d.config
    apart k h =
        choose (str_eq "settings" k) (lookup_field k d.config)
          (ground (arith, eq_iff "settings" k, eq_iff k "settings"))
