-- ===== src/Ble/Framing/Commands.antt =====
-- The commands of framing.py, in the one numbering that runs in both directions.
use petkit_local.Prelude.{ℕ, Bool, true, ◌||◌, ◌==◌, ◌≡◌, ◌≤◌, Bytes, length, Result, ok, err}

abbrev pub cmd_get_state : ℕ
cmd_get_state = 210

abbrev pub cmd_get_config : ℕ
cmd_get_config = 211

abbrev pub cmd_set_mode : ℕ
cmd_set_mode = 220

abbrev pub cmd_set_config : ℕ
cmd_set_config = 221

abbrev pub cmd_reset_filter : ℕ
cmd_reset_filter = 222

abbrev pub cmd_device_status : ℕ
cmd_device_status = 230

-- cmd in BLE_SENDABLE
unfoldable pub is_sendable : ℕ → Bool
is_sendable cmd = cmd == cmd_set_mode || (cmd == cmd_set_config || cmd == cmd_reset_filter)

-- mode in FOUNTAIN_MODES
unfoldable pub is_fountain_mode : ℕ → Bool
is_fountain_mode mode = mode == 1 || mode == 2

-- A command that may be sent, with a payload of at most fourteen bytes; no claim on a refusal.
abbrev pub IsSendable : Result (ℕ × Bytes) → Type 0
IsSendable (ok (cmd, payload)) = (is_sendable cmd ≡ true) × (length payload ≤ 14)
IsSendable (err e) = Unit
