-- ===== src/Ble/Ctw3/Sendable.antt =====
-- What `_ctw3_command_for` of ctw3.py gives can be framed.
use petkit_local.Prelude.{
  String, ◌≡◌, refl, some, none, Option, Bytes, length, arith, ok, err, Result, Bool-cases, inl,
  inr, ◌>>=◌, zero, suc, [], ◌∷◌, of_some,
}
use petkit_local.Prelude.Dict.{Dict, has_keys, lookup, insert}
use petkit_local.Prelude.Int.{ℤ, pos, negsuc}
use petkit_local.Ble.Framing.Commands.{IsSendable, is_sendable}
use petkit_local.Ble.Ctw3.Fields.{mode_fields, config_fields, needed_fields}
use petkit_local.Ble.Ctw3.{
  config_block, settings_block, ctw3_config_payload, ctw3_mode_payload, config_command,
  mode_command, mode_states, setting_command, frame_for, ctw3_command_for,
}

length-mode_payload : (power suspend mode : ℤ) → length (ctw3_mode_payload power suspend mode) ≡ 3
unfolding ctw3_mode_payload
length-mode_payload (pos zero) suspend mode = refl
length-mode_payload (pos (suc n)) suspend mode = refl
length-mode_payload (negsuc n) suspend mode = refl

length-config_block :
    (w s e z l b n c si bi : ℤ) (block : Bytes)
    → config_block w s e z l b n c si bi ≡ ok block
    → length block ≡ 12
unfolding config_block
length-config_block w s (pos e) (pos z) l b n c si bi block h = ground arith
length-config_block w s (pos e) (negsuc z) l b n c si bi block h = ground arith
length-config_block w s (negsuc e) z l b n c si bi block h = ground arith

length-settings_block :
    (m : Dict ℤ) (block : Bytes) → settings_block m ≡ ok block → length block ≡ 12
unfolding settings_block
length-settings_block m block h = length-config_block _ _ _ _ _ _ _ _ _ _ block h

length-config_payload :
    (m : Dict ℤ) (payload : Bytes) → ctw3_config_payload m ≡ ok (some payload) → length payload ≡ 12
unfolding ctw3_config_payload
length-config_payload m payload h = elim (Bool-cases (has_keys needed_fields m)) [
  | inl there ↦ length-settings_block m payload (of_some (settings_block m) payload (rw there at h))
  | inr missing ↦ absurd (ground arith)
]

mode_command-IsSendable : (m : Dict ℤ) → IsSendable (mode_command m)
unfolding mode_command is_sendable
mode_command-IsSendable m =
    elim (Bool-cases (has_keys ("powerStatus" ∷ "suspendStatus" ∷ "mode" ∷ []) m)) [
      | inl there ↦ rw there (refl, omega (arith, length-mode_payload))
      | inr missing ↦ rw missing tt
    ]

config_command-IsSendable :
    (r : Result (Option Bytes))
    → ((payload : Bytes) → r ≡ ok (some payload) → length payload ≡ 12)
    → IsSendable (r >>= config_command)
unfolding config_command is_sendable
config_command-IsSendable (ok none) h = tt
config_command-IsSendable (ok (some payload)) h = (refl, omega (arith, h payload refl))
config_command-IsSendable (err e) h = tt

setting_command-IsSendable :
    (field : Option String) (value : ℤ) (m : Dict ℤ) → IsSendable (setting_command field value m)
unfolding setting_command
setting_command-IsSendable none value m = tt
setting_command-IsSendable (some name) value m =
    config_command-IsSendable (ctw3_config_payload (insert name value m))
      (length-config_payload (insert name value m))

frame_for-IsSendable :
    (field : Option String) (m : Dict ℤ) (key : String) (value : ℤ)
    → IsSendable (frame_for field m key value)
unfolding frame_for
frame_for-IsSendable (some name) m key value =
    mode_command-IsSendable (mode_states key name value m)
frame_for-IsSendable none m key value =
    setting_command-IsSendable (lookup key config_fields) value m

pub command_for-IsSendable :
    (m : Dict ℤ) (key : String) (value : ℤ) → IsSendable (ctw3_command_for m key value)
unfolding ctw3_command_for
command_for-IsSendable m key value = frame_for-IsSendable (lookup key mode_fields) m key value
