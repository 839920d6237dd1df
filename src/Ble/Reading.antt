-- ===== src/Ble/Reading.antt =====
-- What the two decoders share: the two sections of a reading, and reading fields by a table.
pub mod Modes
use petkit_local.Prelude.{
  ℕ, String, Bool, true, false, Option, none, some, List, [], ◌∷◌, Bytes, get_or, ◌==◌,
  if◌then◌else◌, ◌||◌,
}
use petkit_local.Prelude.Dict.{Dict, lookup, insert, erase, update}
use petkit_local.Prelude.Int.{ℤ, pos, negsuc}
use petkit_local.Prelude.Json.{Json, num}
use petkit_local.Ble.Framing.Commands.{is_fountain_mode}
use petkit_local.Ble.Framing.Words.{from_bytes, slice}

-- {"states": …, "consumables": …}
pub record Sections : Type 0 where
  pub states : Dict ℤ
  pub consumables : Dict ℤ

abbrev pub empty : Sections
empty = record { states = []; consumables = [] }

-- {name: data[off] for name, off in table.items()}; the callers have checked the length of `bs`.
abbrev pub read_bytes : List (String × ℕ) → Bytes → Dict ℤ
read_bytes [] bs = []
read_bytes ((name, off) ∷ table) bs = (name, pos (get_or bs off 0)) ∷ read_bytes table bs

-- for name, (off, width) in table.items(): m[name] = int.from_bytes(data[off:off + width], "big")
abbrev pub read_ints : List (String × ℕ × ℕ) → Bytes → Dict ℤ → Dict ℤ
read_ints [] bs m = m
read_ints ((name, off, width) ∷ table) bs m =
    read_ints table bs (insert name (pos (from_bytes 0 (slice off width bs))) m)

-- states.get("mode") not in FOUNTAIN_MODES
unfoldable pub is_real_mode : Option ℤ → Bool
unfolding is_fountain_mode
is_real_mode (some (pos mode)) = is_fountain_mode mode
is_real_mode other = false

-- The mode is kept only if it is a real one.
unfoldable pub drop_unreal_mode : Dict ℤ → Dict ℤ
unfolding is_real_mode
drop_unreal_mode m = if is_real_mode (lookup "mode" m) then m else erase "mode" m

-- result["states"].update(…); result["consumables"].update(…)
unfoldable pub merge : Sections → Sections → Sections
merge result dec = record {
  states = update result.states dec.states;
  consumables = update result.consumables dec.consumables;
}

-- cmd == n, for the command of a frame, which may be any JSON value
abbrev pub is_cmd : ℕ → Json → Bool
is_cmd n (num (pos m)) = m == n
is_cmd n other = false
