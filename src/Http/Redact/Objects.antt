-- ===== src/Http/Redact/Objects.antt =====
-- Python's operations on decoded JSON that the rules use. The keys of an object are distinct.
use petkit_local.Prelude.{
  ℕ, ◌+◌, String, Bool, true, false, not, ◌&&◌, ◌||◌, Option, none, some, List, [], ◌∷◌, str_eq,
  ◌==◌, if◌then◌else◌,
}
unfoldable pub use petkit_local.Mqtt.Topics.Segments.{text_eq}
use petkit_local.Prelude.Int.{ℤ, pos, negsuc}
use petkit_local.Prelude.Json.{
  Json, null, flag, num, str, raw, arr, obj, Items, nil, cons, Fields, end, field, lookup_field,
}

-- Whether some item of the object passes a test.
unfoldable pub any_field : (String → Json → Bool) → Fields → Bool
any_field test end = false
any_field test (field k v fs) = test k v || any_field test fs

-- k in node
unfoldable pub has_field : String → Fields → Bool
unfolding any_field
has_field k = any_field (λ j v. str_eq j k)

-- node[k] = v, if k in node
unfoldable pub put_present : String → Json → Fields → Fields
put_present k v end = end
put_present k v (field j w fs) = if str_eq j k then field j v fs else field j w (put_present k v fs)

-- node[k] = v
unfoldable pub put_field : String → Json → Fields → Fields
put_field k v end = field k v end
put_field k v (field j w fs) = if str_eq j k then field j v fs else field j w (put_field k v fs)

-- node.get(k, default)
unfoldable pub or_value : Option Json → Json → Json
or_value none default = default
or_value (some v) default = v

unfoldable pub any_key : List String → Fields → Bool
unfolding has_field
any_key [] fs = false
any_key (k ∷ ks) fs = has_field k fs || any_key ks fs

unfoldable pub all_keys : List String → Fields → Bool
unfolding has_field
all_keys [] fs = true
all_keys (k ∷ ks) fs = has_field k fs && all_keys ks fs

-- {k: node[k] for k in keys if k in node}
keep_found : String → Option Json → Fields → Fields
keep_found k none fs = fs
keep_found k (some v) fs = field k v fs

unfoldable pub pick : List String → Fields → Fields
unfolding keep_found
pick [] fs = end
pick (k ∷ ks) fs = keep_found k (lookup_field k fs) (pick ks fs)

-- bool(value)
unfoldable pub truthy : Json → Bool
truthy null = false
truthy (flag b) = b
truthy (num (pos n)) = not (n == 0)
truthy (num (negsuc n)) = true
truthy (str []) = false
truthy (str (c ∷ t)) = true
truthy (raw []) = false
truthy (raw (b ∷ bs)) = true
truthy (arr nil) = false
truthy (arr (cons x xs)) = true
truthy (obj end) = false
truthy (obj (field k v fs)) = true

unfoldable pub int_eq : ℤ → ℤ → Bool
int_eq (pos m) (pos n) = m == n
int_eq (negsuc m) (negsuc n) = m == n
int_eq a b = false

unfoldable pub bool_eq : Bool → Bool → Bool
bool_eq true b = b
bool_eq false b = not b

-- a == b, for objects whose keys stand in the same order.
unfoldable mutual
  unfolding text_eq int_eq bool_eq

  pub json_eq : Json → Json → Bool
  json_eq null null = true
  json_eq (flag a) (flag b) = bool_eq a b
  json_eq (num a) (num b) = int_eq a b
  json_eq (str s) (str t) = text_eq s t
  json_eq (raw s) (raw t) = text_eq s t
  json_eq (arr xs) (arr ys) = items_eq xs ys
  json_eq (obj fs) (obj gs) = fields_eq fs gs
  json_eq a b = false

  pub items_eq : Items → Items → Bool
  items_eq nil nil = true
  items_eq (cons x xs) (cons y ys) = json_eq x y && items_eq xs ys
  items_eq xs ys = false

  pub fields_eq : Fields → Fields → Bool
  fields_eq end end = true
  fields_eq (field j v fs) (field k w gs) = str_eq j k && (json_eq v w && fields_eq fs gs)
  fields_eq fs gs = false

int_of : Bool → ℤ
int_of true = pos 1
int_of false = pos 0

count_fields : Fields → ℕ
count_fields end = 0
count_fields (field k v fs) = 1 + count_fields fs

passes : (Json → Bool) → Option Json → Bool
passes test none = false
passes test (some v) = test v

-- a == b, in any order of the keys, where a Boolean is also the integer 0 or 1.
unfoldable mutual
  unfolding text_eq int_eq bool_eq int_of count_fields passes

  pub py_eq : Json → Json → Bool
  py_eq null null = true
  py_eq (flag a) (flag b) = bool_eq a b
  py_eq (flag a) (num n) = int_eq (int_of a) n
  py_eq (num n) (flag b) = int_eq n (int_of b)
  py_eq (num a) (num b) = int_eq a b
  py_eq (str s) (str t) = text_eq s t
  py_eq (raw s) (raw t) = text_eq s t
  py_eq (arr xs) (arr ys) = items_py_eq xs ys
  py_eq (obj fs) (obj gs) = count_fields fs == count_fields gs && fields_within fs gs
  py_eq a b = false

  pub items_py_eq : Items → Items → Bool
  items_py_eq nil nil = true
  items_py_eq (cons x xs) (cons y ys) = py_eq x y && items_py_eq xs ys
  items_py_eq xs ys = false

  pub fields_within : Fields → Fields → Bool
  fields_within end gs = true
  fields_within (field k v fs) gs = passes (py_eq v) (lookup_field k gs) && fields_within fs gs
