-- ===== src/Utils/Dicts/Paths.antt =====
-- Lookups in steps, and what a lookup of alternatives finds.
use petkit_local.Prelude.{
  String, ◌≡◌, refl, Option, none, some, List, [], ◌∷◌, ◌++◌, filter, Bool-cases, inl, inr,
}
use petkit_local.Prelude.Json.{Json, null, str, obj, Fields, lookup_field}
use petkit_local.Utils.Dicts.{
  descend, dig_loop, or_default, dig, has_content, content_or, first_in, first_of,
}

dig_loop-append :
    (found : Option Json) (keys more : List String)
    → dig_loop found (keys ++ more) ≡ dig_loop (dig_loop found keys) more
unfolding dig_loop
dig_loop-append none [] more = refl
dig_loop-append none (key ∷ keys) more = refl
dig_loop-append (some current) [] more = refl
dig_loop-append (some current) (key ∷ keys) more = dig_loop-append (descend current key) keys more

-- Digging in two steps, with `null` where the first one misses, is digging in one, as long as the
-- second step has a key: a miss on the way, or an explicit null there, gives the default.
pub dig-dig :
    (value : Json) (keys : List String) (key : String) (more : List String) (default : Json)
    → dig (dig value keys null) (key ∷ more) default ≡ dig value (keys ++ key ∷ more) default
unfolding dig
dig-dig value keys key more default =
    choose (dig_loop (some value) keys) (dig_loop-append (some value) keys (key ∷ more))
  where
    choose :
        (found : Option Json)
        → dig_loop (some value) (keys ++ key ∷ more) ≡ dig_loop found (key ∷ more)
        → or_default (dig_loop (some (or_default found null)) (key ∷ more)) default
          ≡ or_default (dig_loop (some value) (keys ++ key ∷ more)) default
    choose none h = rw h refl
    choose (some v) h = rw h refl

-- A value that was found, in front of others.
abbrev pub with_found : Option Json → List Json → List Json
with_found none values = values
with_found (some value) values = value ∷ values

-- The values under the keys that are present.
abbrev pub present : Fields → List String → List Json
present fs [] = []
present fs (key ∷ keys) = with_found (lookup_field key fs) (present fs keys)

abbrev pub head_or : List Json → Json → Json
head_or [] default = default
head_or (value ∷ values) default = value

content_or-head_or :
    (found : Option Json) (values : List Json) (default : Json)
    → content_or found (head_or (filter has_content values) default)
      ≡ head_or (filter has_content (with_found found values)) default
unfolding content_or
content_or-head_or none values default = refl
content_or-head_or (some value) values default = elim (Bool-cases (has_content value)) [
  | inl t ↦ rw t refl
  | inr f ↦ rw f refl
]

first_in-present :
    (fs : Fields) (keys : List String) (default : Json)
    → first_in fs keys default ≡ head_or (filter has_content (present fs keys)) default
unfolding first_in
first_in-present fs [] default = refl
first_in-present fs (key ∷ keys) default =
    rw (first_in-present fs keys default)
      (content_or-head_or (lookup_field key fs) (present fs keys) default)

-- On a mapping, `first_of` finds, of the values under the keys in their order, the first that is
-- neither null nor the empty text, and else the default; and where a value has no such key, being a
-- mapping or not, a lookup of that key alone gives the default.
pub first_of-present :
    (value : Json) (fs : Fields) (keys : List String) (default : Json)
    → (first_of (obj fs) keys default ≡ head_or (filter has_content (present fs keys)) default)
      × ((key : String) → descend value key ≡ none → first_of value (key ∷ []) default ≡ default)
unfolding first_of first_in content_or descend
first_of-present value fs keys default = (first_in-present fs keys default, miss value)
  where
    miss :
        (value : Json) (key : String)
        → descend value key ≡ none
        → first_of value (key ∷ []) default ≡ default
    miss (obj gs) key h = rw h refl
    miss null key h = refl
    miss (Json.flag b) key h = refl
    miss (Json.num z) key h = refl
    miss (str t) key h = refl
    miss (Json.raw b) key h = refl
    miss (Json.arr xs) key h = refl
