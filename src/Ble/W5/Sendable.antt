-- ===== src/Ble/W5/Sendable.antt =====
-- What `_w5_command_for` of w5.py gives can be framed.
use petkit_local.Prelude.{
  String, ◌≡◌, refl, some, none, Option, Bytes, length, arith, ok, err, Result, Bool-cases, inl,
  inr, ◌>>=◌, of_some, str_eq, ◌||◌,
}
use petkit_local.Prelude.Dict.{Dict, has_keys, lookup, insert}
use petkit_local.Prelude.Int.{ℤ, pos, negsuc}
use petkit_local.Ble.Framing.Commands.{IsSendable, is_sendable}
use petkit_local.Ble.W5.{
  config_block, settings_block, w5_config_payload, config_command, setting_command, w5_command_for,
  needed_fields, config_entity_fields,
}

length-config_block :
    (w s l b u o n t p k : ℤ) (block : Bytes)
    → config_block w s l b u o n t p k ≡ ok block
    → length block ≡ 14
unfolding config_block
length-config_block w s l b (pos u) (pos o) n (pos t) (pos p) k block h = ground arith
length-config_block w s l b (negsuc u) o n t p k block h = ground arith
length-config_block w s l b (pos u) (negsuc o) n t p k block h = ground arith
length-config_block w s l b (pos u) (pos o) n (negsuc t) p k block h = ground arith
length-config_block w s l b (pos u) (pos o) n (pos t) (negsuc p) k block h = ground arith

length-settings_block :
    (m : Dict ℤ) (block : Bytes) → settings_block m ≡ ok block → length block ≡ 14
unfolding settings_block
length-settings_block m block h = length-config_block _ _ _ _ _ _ _ _ _ _ block h

length-config_payload :
    (m : Dict ℤ) (payload : Bytes) → w5_config_payload m ≡ ok (some payload) → length payload ≡ 14
unfolding w5_config_payload
length-config_payload m payload h = elim (Bool-cases (has_keys needed_fields m)) [
  | inl there ↦ length-settings_block m payload (of_some (settings_block m) payload (rw there at h))
  | inr missing ↦ absurd (ground arith)
]

config_command-IsSendable :
    (r : Result (Option Bytes))
    → ((payload : Bytes) → r ≡ ok (some payload) → length payload ≡ 14)
    → IsSendable (r >>= config_command)
unfolding config_command is_sendable
config_command-IsSendable (ok none) h = tt
config_command-IsSendable (ok (some payload)) h = (refl, omega (arith, h payload refl))
config_command-IsSendable (err e) h = tt

setting_command-IsSendable :
    (field : Option String) (value : ℤ) (m : Dict ℤ) → IsSendable (setting_command field value m)
unfolding setting_command
setting_command-IsSendable none value m = tt
setting_command-IsSendable (some name) value m =
    config_command-IsSendable (w5_config_payload (insert name value m))
      (length-config_payload (insert name value m))

pub command_for-IsSendable :
    (m : Dict ℤ) (key : String) (value : ℤ) → IsSendable (w5_command_for m key value)
unfolding w5_command_for is_sendable
command_for-IsSendable m key value =
    elim (Bool-cases (str_eq key "w5_power" || str_eq key "w5_mode")) [
      | inl mode ↦ rw mode (refl, omega arith)
      | inr setting ↦
          rw setting (setting_command-IsSendable (lookup key config_entity_fields) value m)
    ]
