-- ===== src/Utils/Dicts.antt =====
-- Lookups into loosely typed JSON: addon/petkit_local/utils/dicts.py. An object has each key once, so
-- the value under a key is the first one.
pub mod Paths
use Prim.Native.Char.{Char, code}
use petkit_local.Prelude.{
  str_eq, ◌==◌, if◌then◌else◌, ℕ, String, Bool, true, false, ◌&&◌, not, Option, none, some, List,
  [], ◌∷◌, ◌==◌, if◌then◌else◌,
}
use petkit_local.Prelude.Json.{Json, null, str, obj, Fields, lookup_field}

-- What a key of a mapping leads to, if the value is a mapping and has the key.
unfoldable pub descend : Json → String → Option Json
descend (obj fs) key = lookup_field key fs
descend other key = none

-- The loop of dig: it stops where a level is missing.
unfoldable pub dig_loop : Option Json → List String → Option Json
unfolding descend
dig_loop none keys = none
dig_loop (some current) [] = some current
dig_loop (some current) (key ∷ keys) = dig_loop (descend current key) keys

unfoldable pub or_default : Option Json → Json → Json
or_default none default = default
or_default (some value) default = value

-- dig
unfoldable pub dig : Json → List String → Json → Json
unfolding dig_loop or_default
dig value keys default = or_default (dig_loop (some value) keys) default

push : Char → List String → List String
push c [] = []
push c (word ∷ words) = String.◌∷◌ c word ∷ words

-- path.split(".")
unfoldable pub split_path : String → List String
unfolding push
split_path String.[] = "" ∷ []
split_path (String.◌∷◌ c s) =
    let rest = split_path s in if code c == b'.' then "" ∷ rest else push c rest

-- dig_path
unfoldable pub dig_path : Json → String → Json → Json
unfolding dig split_path
dig_path value path default =
    if str_eq path "" then default else dig value (split_path path) default

-- first_of: `None` and `""` are not content.
unfoldable pub has_content : Json → Bool
has_content null = false
has_content (str []) = false
has_content other = true

content_or : Option Json → Json → Json
unfolding has_content
content_or none rest = rest
content_or (some value) rest = if has_content value then value else rest

first_in : Fields → List String → Json → Json
unfolding content_or
first_in fs [] default = default
first_in fs (key ∷ keys) default = content_or (lookup_field key fs) (first_in fs keys default)

-- first_of
unfoldable pub first_of : Json → List String → Json → Json
unfolding first_in
first_of (obj fs) keys default = first_in fs keys default
first_of other keys default = default
