-- ===== src/Http/Redact/Equal.antt =====
-- What `json_eq` holds equal is equal.
use petkit_local.Prelude.{
  and-left, and-right, ◌≡◌, refl, Bool, true, ◌&&◌, arith, ap, ==_iff, str_eq, eq_iff,
}
use petkit_local.Prelude.Int.{ℤ, pos, negsuc}
use petkit_local.Prelude.Json.{
  Json, null, flag, num, str, raw, arr, obj, Items, nil, cons, Fields, end, field,
}
use petkit_local.Mqtt.Topics.Segments.{text_eq→eq, text_eq_self}
use petkit_local.Http.Redact.Objects.{int_eq, bool_eq, json_eq, items_eq, fields_eq}

int_eq_lem : (a b : ℤ) → int_eq a b ≡ true → a ≡ b
unfolding int_eq
int_eq_lem (pos m) (pos n) h = ap pos ((==_iff m n).0 h)
int_eq_lem (negsuc m) (negsuc n) h = ap negsuc ((==_iff m n).0 h)
int_eq_lem a b h = absurd (ground arith)

bool_eq_lem : (a b : Bool) → bool_eq a b ≡ true → a ≡ b
unfolding bool_eq
bool_eq_lem a b h = ground arith

mutual
  unfolding json_eq items_eq fields_eq

  pub json_eq_lem : (a b : Json) → json_eq a b ≡ true → a ≡ b
  json_eq_lem null null h = refl
  json_eq_lem (flag a) (flag b) h = ap flag (bool_eq_lem a b h)
  json_eq_lem (num a) (num b) h = ap num (int_eq_lem a b h)
  json_eq_lem (str s) (str t) h = ap str (text_eq→eq s t h)
  json_eq_lem (raw s) (raw t) h = ap raw (text_eq→eq s t h)
  json_eq_lem (arr xs) (arr ys) h = ap arr (items_eq_lem xs ys h)
  json_eq_lem (obj fs) (obj gs) h = ap obj (fields_eq_lem fs gs h)
  json_eq_lem a b h = absurd (ground arith)

  items_eq_lem : (xs ys : Items) → items_eq xs ys ≡ true → xs ≡ ys
  items_eq_lem nil nil h = refl
  items_eq_lem (cons x xs) (cons y ys) h =
      rw (json_eq_lem x y (and-left _ _ h), items_eq_lem xs ys (and-right (json_eq x y) _ h))
  items_eq_lem xs ys h = absurd (ground arith)

  fields_eq_lem : (fs gs : Fields) → fields_eq fs gs ≡ true → fs ≡ gs
  fields_eq_lem end end h = refl
  fields_eq_lem (field j v fs) (field k w gs) h =
      let rest = and-right (str_eq j k) _ h in
      rw (
        (eq_iff j k).0 (and-left _ _ h),
        json_eq_lem v w (and-left _ _ rest),
        fields_eq_lem fs gs (and-right (json_eq v w) _ rest),
      )
  fields_eq_lem fs gs h = absurd (ground arith)

int_eq_refl : (a : ℤ) → int_eq a a ≡ true
unfolding int_eq
int_eq_refl (pos n) = (==_iff n n).1 refl
int_eq_refl (negsuc n) = (==_iff n n).1 refl

bool_eq_refl : (b : Bool) → bool_eq b b ≡ true
unfolding bool_eq
bool_eq_refl b = ground arith

both-true : (a b : Bool) → a ≡ true → b ≡ true → (a && b) ≡ true
both-true a b h k = ground arith

mutual
  unfolding json_eq items_eq fields_eq

  pub json_eq_refl : (a : Json) → json_eq a a ≡ true
  json_eq_refl null = refl
  json_eq_refl (flag b) = bool_eq_refl b
  json_eq_refl (num n) = int_eq_refl n
  json_eq_refl (str t) = text_eq_self t
  json_eq_refl (raw t) = text_eq_self t
  json_eq_refl (arr xs) = items_eq_refl xs
  json_eq_refl (obj fs) = fields_eq_refl fs

  items_eq_refl : (xs : Items) → items_eq xs xs ≡ true
  items_eq_refl nil = refl
  items_eq_refl (cons x xs) = both-true _ _ (json_eq_refl x) (items_eq_refl xs)

  fields_eq_refl : (fs : Fields) → fields_eq fs fs ≡ true
  fields_eq_refl end = refl
  fields_eq_refl (field k v fs) =
      both-true _ _ ((eq_iff k k).1 refl) (both-true _ _ (json_eq_refl v) (fields_eq_refl fs))
