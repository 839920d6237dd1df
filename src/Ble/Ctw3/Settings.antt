-- ===== src/Ble/Ctw3/Settings.antt =====
-- The settings block of ctw3.py, written and read: `ctw3_config_payload` and `_ctw3_command_for`
-- against `decode_ctw3_config`.
use petkit_local.Prelude.{
  ℕ, ◌≤◌, ◌<◌, String, ◌≡◌, refl, some, List, [], ◌∷◌, arith, Bytes, length, take, All, str_eq,
  eq_iff, none, false, Bool-cases, inl, inr, ◌/◌, ◌%◌, if◌then◌else◌, ok, true, map,
}
use petkit_local.Prelude.Dict.{Dict, lookup, insert, lookup_or, has_keys}
use petkit_local.Prelude.Dict.Laws.{lookup_or-insert}
use petkit_local.Prelude.Int.{ℤ, pos}
use petkit_local.Ble.Framing.Commands.{cmd_set_config}
use petkit_local.Ble.Ctw3.Fields.{needed_fields, mode_fields, config_fields}
use petkit_local.Ble.Ctw3.{decode_ctw3_config, config_block, ctw3_config_payload, ctw3_command_for}

-- Every byte of the settings block that was reported, unchanged, is what a write restates.
ctw3_config_payload-block :
    (a b c d e f g h i j k l : ℕ) (rest : Bytes)
    → All (λ x. x < 256) (a ∷ b ∷ c ∷ d ∷ e ∷ f ∷ g ∷ h ∷ i ∷ j ∷ k ∷ l ∷ [])
    → ctw3_config_payload
        (decode_ctw3_config (a ∷ b ∷ c ∷ d ∷ e ∷ f ∷ g ∷ h ∷ i ∷ j ∷ k ∷ l ∷ rest))
      ≡ ok (some (a ∷ b ∷ c ∷ d ∷ e ∷ f ∷ g ∷ h ∷ i ∷ j ∷ k ∷ l ∷ []))
unfolding ctw3_config_payload decode_ctw3_config
ctw3_config_payload-block a b c d e f g h i j k l rest small = ground arith

-- Writing back a reported settings block with nothing changed sends its twelve bytes as they were.
pub ctw3_config_payload-decode_ctw3_config :
    (tail : Bytes)
    → 12 ≤ length tail
    → All (λ x. x < 256) tail
    → ctw3_config_payload (decode_ctw3_config tail) ≡ ok (some (take 12 tail))
ctw3_config_payload-decode_ctw3_config (a ∷ b ∷ c ∷ d ∷ e ∷ f ∷ g ∷ h ∷ i ∷ j ∷ k ∷ l ∷ rest) long
      small =
    ctw3_config_payload-block a b c d e f g h i j k l rest (omega arith)
ctw3_config_payload-decode_ctw3_config tail long small = absurd (omega arith)

-- The fields of the settings block that are single bytes, and those that are two.
abbrev pub byte_names : List String
byte_names =
    "smartWorkingTime" ∷ "smartSleepTime" ∷ "lightSwitch" ∷ "brightness" ∷ "noDisturbingSwitch"
    ∷ "childLock" ∷ "smartInductiveSwitch" ∷ "batteryInductiveSwitch" ∷ []

abbrev pub short_names : List String
short_names = "energyInterval" ∷ "sleepTime" ∷ []

-- An integer from 0 to below the bound.
abbrev pub IsBelow : ℕ → ℤ → Type 0
IsBelow bound v = (n : ℕ) × (v ≡ pos n) × (n < bound)

-- Every settings field that a dictionary holds fits its place; a missing one counts as 0.
abbrev pub InRange : Dict ℤ → Type 0
InRange m =
    All (λ name. IsBelow 256 (lookup_or name (pos 0) m)) byte_names
    × All (λ name. IsBelow 65536 (lookup_or name (pos 0) m)) short_names

-- What a settings payload decodes to: each of the ten fields as the dictionary has it.
abbrev pub restated : Dict ℤ → Dict ℤ
restated m =
    ("smartWorkingTime", lookup_or "smartWorkingTime" (pos 0) m)
    ∷ ("smartSleepTime", lookup_or "smartSleepTime" (pos 0) m)
    ∷ ("energyInterval", lookup_or "energyInterval" (pos 0) m)
    ∷ ("sleepTime", lookup_or "sleepTime" (pos 0) m)
    ∷ ("lightSwitch", lookup_or "lightSwitch" (pos 0) m)
    ∷ ("brightness", lookup_or "brightness" (pos 0) m)
    ∷ ("noDisturbingSwitch", lookup_or "noDisturbingSwitch" (pos 0) m)
    ∷ ("childLock", lookup_or "childLock" (pos 0) m)
    ∷ ("smartInductiveSwitch", lookup_or "smartInductiveSwitch" (pos 0) m)
    ∷ ("batteryInductiveSwitch", lookup_or "batteryInductiveSwitch" (pos 0) m)
    ∷ []

-- The twelve bytes that ten values in range make are read back as those values.
decode-config_block :
    (w s e z l b n c si bi : ℕ)
    → All (λ x. x < 256) (w ∷ s ∷ l ∷ b ∷ n ∷ c ∷ si ∷ bi ∷ [])
    → All (λ x. x < 65536) (e ∷ z ∷ [])
    → (block : Bytes) × (config_block
          (pos w)
          (pos s)
          (pos e)
          (pos z)
          (pos l)
          (pos b)
          (pos n)
          (pos c)
          (pos si)
          (pos bi)
        ≡ ok block)
      × (decode_ctw3_config block
          ≡ ("smartWorkingTime", pos w)
            ∷ ("smartSleepTime", pos s)
            ∷ ("energyInterval", pos e)
            ∷ ("sleepTime", pos z)
            ∷ ("lightSwitch", pos l)
            ∷ ("brightness", pos b)
            ∷ ("noDisturbingSwitch", pos n)
            ∷ ("childLock", pos c)
            ∷ ("smartInductiveSwitch", pos si)
            ∷ ("batteryInductiveSwitch", pos bi)
            ∷ [])
unfolding decode_ctw3_config config_block
decode-config_block w s e z l b n c si bi small short = (
  w % 256
      ∷ s % 256
      ∷ e / 256
      ∷ e % 256
      ∷ z / 256
      ∷ z % 256
      ∷ l % 256
      ∷ b % 256
      ∷ n % 256
      ∷ c % 256
      ∷ si % 256
      ∷ bi % 256
      ∷ [],
  ground arith,
  ground arith,
)

-- The reverse round trip: the payload of any dictionary in range that holds the needed settings
-- exists, and decodes to that dictionary's settings, field by field.
pub decode_ctw3_config-ctw3_config_payload :
    (m : Dict ℤ)
    → InRange m
    → has_keys needed_fields m ≡ true
    → (payload : Bytes) × (ctw3_config_payload m ≡ ok (some payload))
      × (decode_ctw3_config payload ≡ restated m)
unfolding ctw3_config_payload
decode_ctw3_config-ctw3_config_payload m
      (
        (
          (w, w_eq, w_lt),
          (
            (s, s_eq, s_lt),
            (
              (l, l_eq, l_lt),
              (
                (b, b_eq, b_lt),
                ((n, n_eq, n_lt), ((c, c_eq, c_lt), ((si, si_eq, si_lt), ((bi, bi_eq, bi_lt), _)))),
              ),
            ),
          ),
        ),
        ((e, e_eq, e_lt), ((z, z_eq, z_lt), _)),
      )
      there =
    let (block, written, read) =
      decode-config_block w s e z l b n c si bi
        (w_lt, (s_lt, (l_lt, (b_lt, (n_lt, (c_lt, (si_lt, (bi_lt, tt)))))))) (e_lt, (z_lt, tt)) in
    (
      block,
      rw (there, w_eq, s_eq, e_eq, z_eq, l_eq, b_eq, n_eq, c_eq, si_eq, bi_eq, written),
      rw (w_eq, s_eq, e_eq, z_eq, l_eq, b_eq, n_eq, c_eq, si_eq, bi_eq) read,
    )

-- A key that writes the settings block is none of those that write the mode frame.
config_key_not_mode :
    (key name : String) → lookup key config_fields ≡ some name → lookup key mode_fields ≡ none
config_key_not_mode key name h =
    rw (differs "ctw3_power" (cc), differs "ctw3_working" (cc), differs "ctw3_mode" (cc))
  where
    differs : (j : String) → lookup j config_fields ≡ none → str_eq j key ≡ false
    differs j absent = elim (Bool-cases (str_eq j key)) [
      | inl same ↦ absurd (cc ((eq_iff j key).0 same))
      | inr other ↦ other
    ]

abbrev pub all_names : List String
all_names = map (λ (entry : String × ℤ). entry.0) (restated [])

-- Setting one entity of the settings block, from states in range that hold every needed setting
-- (the new value included), gives a cmd-221 write whose block, read back, has the new value in the
-- field of that entity and in each of the other nine fields the value that was last reported.
pub command_for_setting :
    (states : Dict ℤ) (key name : String) (value : ℤ)
    → lookup key config_fields ≡ some name
    → InRange (insert name value states)
    → has_keys needed_fields (insert name value states) ≡ true
    → (payload : Bytes) × (ctw3_command_for states key value ≡ ok (cmd_set_config, payload))
      × All
          (λ n.
            lookup n (decode_ctw3_config payload)
            ≡ some (if str_eq name n then value else lookup_or n (pos 0) states))
          all_names
unfolding ctw3_command_for
command_for_setting states key name value known fits full =
    let (payload, written, read) =
      decode_ctw3_config-ctw3_config_payload (insert name value states) fits full in
    (
      payload,
      rw (config_key_not_mode key name known, known, written),
      rw read (
          simp lookup_or-insert
            (refl, (refl, (refl, (refl, (refl, (refl, (refl, (refl, (refl, (refl, tt))))))))))),
    )
