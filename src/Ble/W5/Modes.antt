-- ===== src/Ble/W5/Modes.antt =====
-- The latched mode of w5.py: what a status with no mode in it leaves, and what a power write names.
use petkit_local.Prelude.{
  ℕ, suc, ◌≤◌, String, ◌≡◌, refl, some, [], ◌∷◌, arith, Bytes, length, get_or, ok, ◌⊎◌, false, true,
  ltb, leb, str_eq, if◌then◌else◌, Bool,
}
use petkit_local.Prelude.Dict.{Dict, lookup, insert, update}
use petkit_local.Prelude.Dict.Laws.{AllEntries, AllEntries-insert, lookup-update_lacks}
use petkit_local.Prelude.Int.{ℤ, pos}
use petkit_local.Ble.Framing.Words.{slice, from_bytes}
use petkit_local.Ble.Framing.Commands.{cmd_set_mode}
use petkit_local.Ble.Reading.{drop_unreal_mode, read_bytes}
use petkit_local.Ble.W5.{
  decode_w5_status, w5_command_for, with_tail, min_status_len, status_offsets,
}

-- What the optional tail of a status adds keeps every predicate that holds of its entries.
AllEntries-with_tail :
    (P : String → ℤ → Type 0) (bs : Bytes) (m : Dict ℤ)
    → ((v : ℤ) → P "todayPumpRunTime" v × P "smartWorkingTime" v × P "smartSleepTime" v)
    → AllEntries P m
    → AllEntries P (with_tail bs m)
unfolding with_tail
AllEntries-with_tail P bs m added h = maybe (leb 18 (length bs)) "smartSleepTime" _ _ (added _).2 (
    maybe (leb 17 (length bs)) "smartWorkingTime" _ _ (added _).1
      (maybe (leb 16 (length bs)) "todayPumpRunTime" _ _ (added _).0 h))
  where
    maybe :
        (b : Bool) (k : String) (v : ℤ) (d : Dict ℤ)
        → P k v
        → AllEntries P d
        → AllEntries P (if b then insert k v d else d)
    maybe true k v d p g = AllEntries-insert P k v d p g
    maybe false k v d p g = g

status_head_lacks_mode :
    (bs : Bytes)
    → get_or bs 1 0 ≡ 0
    → AllEntries
        (λ k v. str_eq k "mode" ≡ false)
        (insert "pumpRuntime"
          (pos (from_bytes 0 (slice 6 4 bs)))
          (drop_unreal_mode (read_bytes status_offsets bs)))
unfolding drop_unreal_mode
status_head_lacks_mode bs off = ground arith

-- A status whose mode byte is no mode has no entry for the mode.
status_lacks_mode :
    (bs : Bytes)
    → 12 ≤ length bs
    → get_or bs 1 0 ≡ 0
    → AllEntries (λ k v. str_eq k "mode" ≡ false) (decode_w5_status bs).states
unfolding decode_w5_status
status_lacks_mode bs long off =
    let not_short : ltb (length bs) min_status_len ≡ false = ground arith in
    rw not_short (
      AllEntries-with_tail (λ k v. str_eq k "mode" ≡ false) bs _ (λ v. (refl, refl, refl))
        (status_head_lacks_mode bs off))

-- Switching on after off: from states whose mode is 1 or 2, a status that reports the fountain off
-- (mode byte 0) leaves the mode, and a power-on write then names it.
pub power_on_restores :
    (old : Dict ℤ) (mode n : ℕ) (bs : Bytes)
    → (mode ≡ 1) ⊎ (mode ≡ 2)
    → lookup "mode" old ≡ some (pos mode)
    → 12 ≤ length bs
    → get_or bs 1 0 ≡ 0
    → w5_command_for (update old (decode_w5_status bs).states) "w5_power" (pos (suc n))
      ≡ ok (cmd_set_mode, mode ∷ 0 ∷ [])
unfolding w5_command_for
power_on_restores old mode n bs real latched long off =
    rw (lookup-update_lacks "mode" old _ (status_lacks_mode bs long off))
      (rw latched (ground arith))
