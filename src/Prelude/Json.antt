-- ===== src/Prelude/Json.antt =====
-- Decoded JSON, as the handlers receive it: a value of a dynamic type. Numbers with a fraction are
-- not represented; `raw` is a Python `bytes` object, which some callers pass in place of a text.
use petkit_local.Prelude.{
  String, Bool, Option, none, some, List, [], ◌∷◌, Text, Bytes, str_eq, if◌then◌else◌,
}
use petkit_local.Prelude.Int.{ℤ}

mutual
  pub data Json : Type 0 where
    null : Json
    flag : Bool → Json
    num : ℤ → Json
    str : Text → Json
    raw : Bytes → Json
    arr : Items → Json
    obj : Fields → Json

  pub data Items : Type 0 where
    nil : Items
    cons : Json → Items → Items

  pub data Fields : Type 0 where
    end : Fields
    field : String → Json → Fields → Fields

abbrev pub item_list : Items → List Json
item_list nil = []
item_list (cons x xs) = x ∷ item_list xs

-- The value under a key, `none` where the key is absent.
abbrev pub lookup_field : String → Fields → Option Json
lookup_field k end = none
lookup_field k (field j v fs) = if str_eq j k then some v else lookup_field k fs
