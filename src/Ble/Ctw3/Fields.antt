-- ===== src/Ble/Ctw3/Fields.antt =====
-- The tables of ctw3.py: which byte of a block is which field, and which entity sets which field.
use petkit_local.Prelude.{ℕ, String, List, [], ◌∷◌}

abbrev pub min_status_len : ℕ
min_status_len = 26

-- _CTW3_BYTE_FIELDS
abbrev pub byte_fields : List (String × ℕ)
byte_fields =
    ("powerStatus", 0)
    ∷ ("suspendStatus", 1)
    ∷ ("mode", 2)
    ∷ ("electricStatus", 3)
    ∷ ("noDisturbingSwitch", 4)
    ∷ ("breakdownWarning", 5)
    ∷ ("lackWarning", 6)
    ∷ ("lowBattery", 7)
    ∷ ("filterWarning", 8)
    ∷ ("filterPercent", 13)
    ∷ ("runStatus", 14)
    ∷ ("detectStatus", 19)
    ∷ ("batteryPercent", 24)
    ∷ ("moduleStatus", 25)
    ∷ []

-- _CTW3_INT_FIELDS: offset and width
abbrev pub int_fields : List (String × ℕ × ℕ)
int_fields =
    ("waterPumpRunTime", 9, 4)
    ∷ ("todayPumpRunTime", 15, 4)
    ∷ ("supplyVoltage", 20, 2)
    ∷ ("batteryVoltage", 22, 2)
    ∷ []

abbrev pub config_offset : ℕ
config_offset = 30

abbrev pub config_len : ℕ
config_len = 12

-- `needed` of ctw3_config_payload
abbrev pub needed_fields : List String
needed_fields =
    "smartWorkingTime" ∷ "smartSleepTime" ∷ "energyInterval" ∷ "sleepTime" ∷ "lightSwitch"
    ∷ "brightness" ∷ "noDisturbingSwitch" ∷ []

-- _CTW3_MODE_FIELDS
abbrev pub mode_fields : List (String × String)
mode_fields =
    ("ctw3_power", "powerStatus") ∷ ("ctw3_working", "suspendStatus") ∷ ("ctw3_mode", "mode") ∷ []

-- _CTW3_CONFIG_FIELDS
abbrev pub config_fields : List (String × String)
config_fields =
    ("ctw3_light", "lightSwitch")
    ∷ ("ctw3_brightness", "brightness")
    ∷ ("ctw3_dnd", "noDisturbingSwitch")
    ∷ ("ctw3_child_lock", "childLock")
    ∷ ("ctw3_energy_interval", "energyInterval")
    ∷ ("ctw3_sleep_time", "sleepTime")
    ∷ ("ctw3_smart_work", "smartWorkingTime")
    ∷ ("ctw3_smart_sleep", "smartSleepTime")
    ∷ []
