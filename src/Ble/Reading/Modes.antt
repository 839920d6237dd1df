-- ===== src/Ble/Reading/Modes.antt =====
-- A reading never holds a mode that is not a mode: FOUNTAIN_MODES of framing.py, as the decoders of
-- w5.py and ctw3.py keep to it.
use petkit_local.Prelude.{String, ◌≡◌, ◌⊎◌, some, arith, str_eq, true}
use petkit_local.Prelude.Dict.{Dict}
use petkit_local.Prelude.Dict.Laws.{AllEntries}
use petkit_local.Prelude.Int.{ℤ, pos}
use petkit_local.Ble.Reading.{is_real_mode}

abbrev pub IsRealMode : ℤ → Type 0
IsRealMode v = (v ≡ pos 1) ⊎ (v ≡ pos 2)

-- An entry that, if it is the mode, has a real one.
abbrev pub ModeEntry : String → ℤ → Type 0
ModeEntry k v = str_eq k "mode" ≡ true → IsRealMode v

abbrev pub ModesAreReal : Dict ℤ → Type 0
ModesAreReal = AllEntries ModeEntry

pub real_mode_lem : (v : ℤ) → is_real_mode (some v) ≡ true → IsRealMode v
unfolding is_real_mode
real_mode_lem v h = ground arith
