-- ===== src/Http/Redact/Walker/Clean.antt =====
-- No shell command in what the walk of addon/petkit_local/http/redact/walker.py leaves: the predicate,
-- and what the loops over an object and a list keep of it.
use petkit_local.Prelude.{
  or-false, or-left, or-right, ℕ, zero, suc, ◌≡◌, refl, String, Bool, true, false, not, ◌&&◌,
  Option, none, some,
}
use petkit_local.Prelude.Json.{Json, str, arr, obj, Items, nil, cons, Fields, end, field}
use petkit_local.Http.Redact.{BodyPath, Out, JsonCodec}
use petkit_local.Http.Redact.Objects.{any_field}
use petkit_local.Http.Redact.Rules.{is_run_cmd, has_rce}
use petkit_local.Http.Redact.Walker.{
  Walked, Visitor, FieldsVisit, ItemsVisit, add_field, add_item, walk_fields, walk_items, embedded,
}

-- Every value of an object, and every item of a list, passes a test.
unfoldable pub all_values : (Json → Bool) → Fields → Bool
all_values test end = true
all_values test (field k v fs) = test v && all_values test fs

unfoldable pub all_items : (Json → Bool) → Items → Bool
all_items test nil = true
all_items test (cons x xs) = test x && all_items test xs

unfoldable pub none_or : (Json → Bool) → Option Json → Bool
none_or test none = true
none_or test (some v) = test v

-- No object has a `user_cmd` with a `run_cmd`, as deep as a number of levels, where a text that
-- encodes an object or a list has it as a level.
unfoldable pub is_clean : JsonCodec → ℕ → Json → Bool
unfolding has_rce all_values all_items none_or embedded
is_clean codec zero node = true
is_clean codec (suc n) (obj fs) = not (has_rce fs) && all_values (is_clean codec n) fs
is_clean codec (suc n) (arr xs) = all_items (is_clean codec n) xs
is_clean codec (suc n) (str t) = none_or (is_clean codec n) (embedded codec t)
is_clean codec (suc n) node = true

-- A value is clean at every depth.
abbrev pub IsClean : JsonCodec → Json → Type 0
IsClean codec node = (n : ℕ) → is_clean codec n node ≡ true

-- If a node is kept, this holds of what is kept.
abbrev pub Kept : (Json → Type 0) → Walked → Type 0
Kept P Walked.drop = Unit
Kept P (Walked.keep v) = P v

module _ (codec : JsonCodec) where
  -- A clean value in place of another, that is no command unless the other is.
  abbrev pub Good : Json → Json → Type 0
  Good v w = IsClean codec w × (is_run_cmd v ≡ false → is_run_cmd w ≡ false)

  -- A visitor keeps good values only.
  abbrev pub IsSound : Visitor → Type 0
  IsSound visit =
      (path : BodyPath) (in_list : Bool) (node : Json) (out : Out)
      → Kept (Good node) (visit path in_list node out).got

  abbrev HasGood : (String → Json → Bool) → Fields → FieldsVisit → Type 0
  HasGood test fs rest =
      ((n : ℕ) → all_values (is_clean codec n) rest.fields ≡ true)
      × (any_field test fs ≡ false → any_field test rest.fields ≡ false)

  -- A test that a good value does not come to pass.
  abbrev pub IsStable : (String → Json → Bool) → Type 0
  IsStable test = (k : String) (v w : Json) → Good v w → test k v ≡ false → test k w ≡ false

  add_field-HasGood :
      (test : String → Json → Bool)
      → IsStable test
      → (k : String) (v : Json) (fs : Fields) (got : Walked) (rest : FieldsVisit)
      → Kept (Good v) got
      → HasGood test fs rest
      → HasGood test (field k v fs) (add_field k got rest)
  unfolding add_field any_field all_values
  add_field-HasGood test stable k v fs Walked.drop rest g (c, h) =
      (c, λ e. h (or-right (test k v) _ e))
  add_field-HasGood test stable k v fs (Walked.keep w) rest g (c, h) = (
    λ n. rw (g.0 n) (c n),
    λ e.
        or-false (test k w) _ (stable k v w g (or-left (test k v) _ e))
          (h (or-right (test k v) _ e)),
  )

  pub walk_fields-HasGood :
      (test : String → Json → Bool)
      → IsStable test
      → (visit : Visitor) → IsSound visit
      → (path : BodyPath) (fs : Fields) (out : Out)
      → HasGood test fs (walk_fields visit path fs out)
  unfolding walk_fields any_field all_values
  walk_fields-HasGood test stable visit sound path end out = (λ n. refl, λ e. e)
  walk_fields-HasGood test stable visit sound path (field k v fs) out =
      add_field-HasGood test stable k v fs _ _ (sound _ false v out)
        (walk_fields-HasGood test stable visit sound path fs _)

  add_item-is_clean :
      (n : ℕ) (v : Json) (got : Walked) (rest : ItemsVisit)
      → Kept (Good v) got
      → all_items (is_clean codec n) rest.items ≡ true
      → all_items (is_clean codec n) (add_item got rest).items ≡ true
  unfolding add_item all_items
  add_item-is_clean n v Walked.drop rest g h = h
  add_item-is_clean n v (Walked.keep w) rest g h = rw (g.0 n) h

  pub walk_items-is_clean :
      (visit : Visitor)
      → IsSound visit
      → (n : ℕ) (path : BodyPath) (i : ℕ) (xs : Items) (out : Out)
      → all_items (is_clean codec n) (walk_items visit path i xs out).items ≡ true
  unfolding walk_items all_items
  walk_items-is_clean visit sound n path i nil out = refl
  walk_items-is_clean visit sound n path i (cons x xs) out =
      add_item-is_clean n x _ _ (sound _ true x out)
        (walk_items-is_clean visit sound n path (suc i) xs _)
