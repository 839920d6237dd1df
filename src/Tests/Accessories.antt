-- ===== src/Tests/Accessories.antt =====
-- The theorems on addon/petkit_local/devices/ble/registry.py at concrete inputs.
use petkit_local.Prelude.{
  ◌≡◌, refl, ◌||◌, ◌-◌, none, some, [], ◌∷◌, codes, All, arith, if◌then◌else◌, leb, ◌&&◌,
}
use petkit_local.Prelude.Int.{pos}
use petkit_local.Prelude.Json.{Json, num, str, arr, obj, nil, cons, end, field}
use petkit_local.Mqtt.Topics.Segments.{is_nonempty, text_eq}
use petkit_local.Http.Redact.Objects.{int_eq, py_eq}
use petkit_local.Devices.Registry.{unwritten}
use petkit_local.Ble.Mac.{Letters, ReadsHex, is_hex, is_mac, normalize_mac}
use petkit_local.Ble.Mac.Spelling.{Spells, done, separator, digit, hex-Spells}
use petkit_local.Ble.Registry.{
  Accessory, Binding, Accessories, Registered, Applied, mac_taken, register, get_by_mac,
  apply_cloud_binding,
}
use petkit_local.Ble.Registry.Macs.{AreApart}
use petkit_local.Ble.Registry.Macs.Apart.{import_all, import_all-AreApart}
use petkit_local.Ble.Registry.Macs.Found.{get_by_mac-apply_cloud_binding}
use petkit_local.Ble.Registry.Macs.Verdicts.{Says, apply_cloud_binding_lem}
use petkit_local.Ble.Registry.Updates.Repeated.{register-register}
use petkit_local.Ble.Registry.Bindings.{Readers, cloud_bindings}
use petkit_local.Ble.Registry.Bindings.Usable.{IsUsable, cloud_bindings-IsUsable}

-- The hex digits and the letters a to f are letters or digits.
abbrev letters : Letters
letters = record {
  is_alnum = λ c. is_hex c || (leb b'a' c && leb c b'f');
  upper = λ c. if is_hex c then c ∷ [] else (c - 32) ∷ [];
}

letters-ReadsHex : ReadsHex letters
letters-ReadsHex = record { hex_kept = λ c h. ground arith; hex_upper = λ c h. rw h refl }

-- The first accessory of an account, and a second one with the same MAC in another spelling.
abbrev fountain : Binding
fountain = record {
  ble_type = codes "w5";
  petkit_id = pos 7;
  serial_number = [];
  mac = codes "A4C138000001";
  secret = codes "s";
  link_with = pos 3;
  interval = none;
  scan_type = pos 14;
  config = end;
  settings = end;
}

abbrev rival : Binding
rival = record fountain { petkit_id = pos 8; mac = codes "a4:c1:38:00:00:01" }

abbrev one : Accessories
one = Applied.accessories (apply_cloud_binding letters fountain [])

read-verdict : Applied.verdict (apply_cloud_binding letters rival one) ≡ mac_taken (pos 7)
unfolding apply_cloud_binding is_nonempty normalize_mac int_eq text_eq
read-verdict = refl

-- A second report of a known accessory stores the MAC as it is spelled.
read-spelled :
    Accessory.mac (Registered.accessory (register letters (record rival { petkit_id = pos 7 }) one))
    ≡ codes "a4:c1:38:00:00:01"
unfolding register apply_cloud_binding is_nonempty normalize_mac int_eq
read-spelled = refl

empty-AreApart : AreApart letters []
empty-AreApart = record { distinct = refl; keyed = tt; apart = λ i j d e at_i. absurd (cc) }

import_all-AreApart_example : AreApart letters (import_all letters (fountain ∷ rival ∷ []) [])
import_all-AreApart_example =
    import_all-AreApart letters letters-ReadsHex (fountain ∷ rival ∷ []) [] empty-AreApart

-- "a4:c1:38:00:00:01"
spelled : Spells letters (codes "a4:c1:38:00:00:01") (codes "A4C138000001")
unfolding is_hex
spelled = digit b'a' b'A' _ _ refl refl (
    digit b'4' b'4' _ _ refl refl (
      separator b':' _ _ refl (
        digit b'c' b'C' _ _ refl refl (
          digit b'1' b'1' _ _ refl refl (
            separator b':' _ _ refl (
              digit b'3' b'3' _ _ refl refl (
                digit b'8' b'8' _ _ refl refl (
                  separator b':' _ _ refl (
                    digit b'0' b'0' _ _ refl refl (
                      digit b'0' b'0' _ _ refl refl (
                        separator b':' _ _ refl (
                          digit b'0' b'0' _ _ refl refl (
                            digit b'0' b'0' _ _ refl refl (
                              separator b':' _ _ refl (
                                digit b'0' b'0' _ _ refl refl
                                  (digit b'1' b'1' _ _ refl refl (done)))))))))))))))))

plain : Spells letters (codes "A4C138000001") (codes "A4C138000001")
unfolding is_mac
plain = hex-Spells letters letters-ReadsHex (codes "A4C138000001") refl

abbrev imported_fountain : Accessory
imported_fountain = record {
  ble_type = codes "w5";
  petkit_id = pos 7;
  serial_number = [];
  mac = codes "A4C138000001";
  secret = codes "s";
  link_with = pos 3;
  interval = pos 240;
  scan_type = pos 14;
  config = end;
  settings = end;
}

get_by_mac-apply_cloud_binding_example :
    get_by_mac letters
      (codes "a4:c1:38:00:00:01")
      (Applied.accessories (apply_cloud_binding letters fountain []))
    ≡ some imported_fountain
unfolding is_mac apply_cloud_binding is_nonempty normalize_mac text_eq
get_by_mac-apply_cloud_binding_example =
    get_by_mac-apply_cloud_binding letters letters-ReadsHex fountain [] imported_fountain
      (codes "a4:c1:38:00:00:01") (codes "A4C138000001") empty-AreApart refl refl plain spelled

apply_cloud_binding_lem_example :
    Says letters letters-ReadsHex rival one
      (apply_cloud_binding letters rival one)
      (Applied.verdict (apply_cloud_binding letters rival one))
    × (Applied.accessory (apply_cloud_binding letters rival one) ≡ none
        → Applied.accessories (apply_cloud_binding letters rival one) ≡ one)
unfolding apply_cloud_binding import_all
apply_cloud_binding_lem_example =
    apply_cloud_binding_lem letters letters-ReadsHex rival one
      (import_all-AreApart letters letters-ReadsHex (fountain ∷ []) [] empty-AreApart)

register-register_example :
    (Registered.accessories
        (register letters fountain (Registered.accessories (register letters fountain one)))
      ≡ Registered.accessories (register letters fountain one))
    × (Registered.write
          (register letters fountain (Registered.accessories (register letters fountain one)))
        ≡ unwritten)
unfolding normalize_mac py_eq
register-register_example = register-register letters fountain one refl refl refl

-- What a reply of the account lists: a fountain and an entry without a MAC.
abbrev readers : Readers
readers = record {
  letters = letters;
  texts = record { strip = λ t. t; lower = λ t. t; whole_part = λ t. none };
  shown = λ v. elim v [ str t ↦ t | other ↦ [] ];
}

abbrev reply : Json
reply = obj (
    field "result"
      (obj (
        field "list"
          (arr (
            cons
              (obj (
                field "id" (num (pos 7))
                  (field "mac" (str (codes "a4c138000001")) (field "type" (num (pos 14)) end))))
              (cons (obj (field "id" (num (pos 9)) end)) nil)))
          end))
      end)

cloud_bindings-IsUsable_example :
    All (IsUsable letters (pos 3)) (cloud_bindings readers (codes "dev_ble_device") reply (pos 3))
cloud_bindings-IsUsable_example =
    cloud_bindings-IsUsable readers letters-ReadsHex (codes "dev_ble_device") reply (pos 3)
