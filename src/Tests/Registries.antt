-- ===== src/Tests/Registries.antt =====
-- The theorems on addon/petkit_local/devices/registry.py at concrete inputs.
use petkit_local.Prelude.{
  ℕ, ◌≡◌, refl, true, false, none, some, List, [], ◌∷◌, Text, codes, arith, inl, inr,
}
use petkit_local.Prelude.Int.{pos}
use petkit_local.Prelude.Digits.{is_digit, str_int}
use petkit_local.Prelude.Json.{str, Fields, end}
use petkit_local.Http.Redact.Objects.{int_eq}
use petkit_local.Devices.Persisted.{
  Registry, Event, change, register, flush_begins, flush_ends, stop_flusher, run,
}
use petkit_local.Devices.Persisted.Written.{IsRecorded, IsOrderly, run-IsRecorded, stop_flusher-run}
use petkit_local.Devices.Registry.{Device, Contact, Minted, Table, merge_default_settings}
use petkit_local.Devices.Registry.Fleet.{
  Call, signup, removal, calls, answers, all_on_fleet, fleet_answers, Represents, calls-Represents,
}
use petkit_local.Devices.Registry.Identity.{KeepsDevice, Has, calls-Has}
use petkit_local.Devices.Registry.Saved.{restore, serialize, entry, not_number, to_dict, load_entry}
use petkit_local.Devices.Registry.Saved.Settings.{IsBackfilled}
use petkit_local.Devices.Registry.Saved.RoundTrip.{kept, restore-serialize}
use petkit_local.Utils.Coerce.{Texts, to_int}
use petkit_local.Utils.Coerce.Numbers.{is_number_like, to_int-str_int}

-- A registry of one number, whose text is that number.
abbrev clean : Registry ℕ ℕ
clean = record { memory = 1; dirty = false; disk = some 1; writing = none; awaited = false }

clean-IsRecorded : IsRecorded some clean
clean-IsRecorded = record { recorded = inr refl; waits = inl refl }

-- Two changes within a flush interval, one while the first is being written.
abbrev events : List (Event ℕ)
events = change 2 true true ∷ flush_begins ∷ change 3 true true ∷ flush_ends true ∷ []

read-memory : Registry.memory (run true some events clean) ≡ 3
unfolding run
read-memory = refl

-- A device is registered while the flusher's thread writes: the thread lands last, and what is on the
-- disk is the older registry, with nothing marked to be written.
read-overtaken :
    run true some (change 2 true true ∷ flush_begins ∷ register 3 true ∷ flush_ends true ∷ []) clean
    ≡ record { memory = 3; dirty = false; disk = some 2; writing = none; awaited = false }
unfolding run
read-overtaken = refl

run-IsRecorded_example : IsRecorded some (run true some events clean)
unfolding IsOrderly
run-IsRecorded_example =
    run-IsRecorded some (λ m. cc) events clean (tt, (tt, (tt, (tt, tt)))) clean-IsRecorded

stop_flusher-run_example :
    Registry.disk (stop_flusher true some true (run true some events clean))
    ≡ some (Registry.memory (run true some events clean))
unfolding IsOrderly run
stop_flusher-run_example =
    stop_flusher-run some (λ m. cc) events clean (tt, (tt, (tt, (tt, tt)))) clean-IsRecorded refl

abbrev no_settings : Text → Fields
no_settings device_type = end

abbrev minted : Minted
minted = record { product_key = codes "pk"; secret = codes "s1" }

abbrev first_contact : Contact
first_contact = record { serial_number = []; mac = codes "a1"; firmware = codes "1" }

abbrev second_contact : Contact
second_contact = record { serial_number = codes "SN"; mac = codes "b2"; firmware = codes "2" }

-- A device signs up, signs up again with a serial number, and another one comes and goes.
abbrev history : List Call
history =
    signup (pos 7) (codes "t5") first_contact minted
    ∷ signup (pos 7) (codes "t5") second_contact minted
    ∷ signup (pos 8) (codes "d4") first_contact minted
    ∷ removal (pos 8)
    ∷ []

empty-Represents : Represents [] (λ pid. none)
empty-Represents = record { reads = λ pid. refl; distinct = refl; keyed = tt }

calls-Represents_example :
    Represents (calls no_settings history []) (all_on_fleet no_settings history (λ pid. none))
    × (answers no_settings history [] ≡ fleet_answers no_settings history (λ pid. none))
calls-Represents_example = calls-Represents no_settings history [] (λ pid. none) empty-Represents

abbrev known : Device
known = record {
  device_type = codes "t5";
  petkit_id = pos 7;
  serial_number = [];
  mac = codes "a1";
  firmware = codes "1";
  wire_type = [];
  mqtt_product_key = codes "pk";
  mqtt_device_name = codes "d_t5_7";
  mqtt_device_secret = codes "s1";
  api_secret = [];
  config = end;
}

abbrev one : Table
one = (pos 7, known) ∷ []

calls-Has_example : Has (pos 7) known (calls no_settings history one)
unfolding KeepsDevice int_eq
calls-Has_example = calls-Has no_settings history (pos 7) known one (refl, tt) refl

abbrev stored : Registry Table Table
stored = record { memory = one; dirty = false; disk = some one; writing = none; awaited = false }

-- An entry whose id is a text ends the load of all the others.
read-ended :
    restore no_settings
      (λ n. minted)
      (some (
        (codes "7", entry (to_dict known))
        ∷ (codes "x", entry (record (to_dict known) { petkit_id = some not_number }))
        ∷ []))
    ≡ none
unfolding restore to_dict load_entry
read-ended = refl

restore-serialize_example :
    (restore no_settings (λ n. minted) (some (serialize one)) ≡ some (kept no_settings one))
    × ((d : Device)
        → IsBackfilled (no_settings d.device_type) d (merge_default_settings no_settings d))
unfolding int_eq
restore-serialize_example = restore-serialize no_settings (λ n. minted) one refl (refl, tt)

abbrev texts : Texts
texts = record { strip = λ t. t; lower = λ t. t; whole_part = λ t. none }

to_int-str_int_example :
    (to_int texts (str (str_int (pos 120))) ≡ some (pos 120))
    × (to_int texts (str (codes "1_0")) ≡ none)
unfolding str_int is_number_like is_digit
to_int-str_int_example = to_int-str_int texts (pos 120) (omega arith) refl (codes "1_0") refl
