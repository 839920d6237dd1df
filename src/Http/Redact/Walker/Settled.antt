-- ===== src/Http/Redact/Walker/Settled.antt =====
-- How much fuel the walk of addon/petkit_local/http/redact/walker.py needs: each step that it takes down
-- is into a smaller value, or into a value of the device's.
use petkit_local.Prelude.{
  ℕ, zero, suc, ◌+◌, ◌≤◌, ◌≡◌, refl, Bool, true, false, Option, none, some, length, arith, Text,
}
use petkit_local.Prelude.Json.{
  Json, null, flag, num, str, raw, arr, obj, Items, nil, cons, Fields, end, field,
}
use petkit_local.Http.Redact.{BodyPath, Out, JsonCodec, Policy}
use petkit_local.Http.Redact.Ours.{AllFields, OursHold, map-OursHold}
use petkit_local.Http.Redact.Ours.Rules.{substitute-Holds}
use petkit_local.Http.Redact.Walker.{
  Visitor, walk_items, walk_fields, walk_inner, walk_json_string, walk_dict, visit_node, embedded,
  walk,
}
use petkit_local.Http.Redact.Walker.Safe.{loads-embedded}

-- A value counts one, with the values in it and the characters of a text.
unfoldable mutual
  pub size : Json → ℕ
  size null = 1
  size (flag b) = 1
  size (num n) = 1
  size (str t) = suc (length t)
  size (raw bs) = 1
  size (arr xs) = suc (items_size xs)
  size (obj fs) = suc (fields_size fs)

  pub items_size : Items → ℕ
  items_size nil = 0
  items_size (cons x xs) = size x + items_size xs

  pub fields_size : Fields → ℕ
  fields_size end = 0
  fields_size (field k v fs) = size v + fields_size fs

pub size-positive : (v : Json) → 1 ≤ size v
unfolding size
size-positive (arr xs) = omega arith
size-positive (obj fs) = omega arith
size-positive (str t) = omega arith
size-positive v = omega arith

-- A decoded value is no larger than the text that it was read from.
pub record ReadsSmall (codec : JsonCodec) : Type 0 where
  pub size-loads : (t : Text) (v : Json) → codec.loads t ≡ some v → size v ≤ length t

-- From this fuel on, one unit more makes no difference to the walk of the value.
abbrev pub SettlesAt : JsonCodec → Policy → ℕ → Json → Type 0
SettlesAt codec policy n node =
    (fuel : ℕ)
    → n ≤ fuel
    → (path : BodyPath) (in_list : Bool) (out : Out)
    → walk codec policy (suc fuel) path in_list node out
      ≡ walk codec policy fuel path in_list node out

-- Two visitors do the same with a value.
abbrev Agree : Visitor → Visitor → Json → Type 0
Agree visit other node =
    (path : BodyPath) (in_list : Bool) (out : Out)
    → visit path in_list node out ≡ other path in_list node out

AllItems : (Json → Type 0) → Items → Type 0
AllItems P nil = Unit
AllItems P (cons x xs) = P x × AllItems P xs

module _ (visit other : Visitor) where
  walk_fields-Agree :
      (fs : Fields)
      → AllFields (λ k v. Agree visit other v) fs
      → (path : BodyPath) (out : Out)
      → walk_fields visit path fs out ≡ walk_fields other path fs out
  unfolding walk_fields AllFields
  walk_fields-Agree end all path out = refl
  walk_fields-Agree (field k v fs) (a, all) path out =
      rw (a _ false out, walk_fields-Agree fs all path _) refl

  walk_items-Agree :
      (xs : Items)
      → AllItems (Agree visit other) xs
      → (path : BodyPath) (i : ℕ) (out : Out)
      → walk_items visit path i xs out ≡ walk_items other path i xs out
  unfolding walk_items AllItems
  walk_items-Agree nil all path i out = refl
  walk_items-Agree (cons x xs) (a, all) path i out =
      rw (a _ true out, walk_items-Agree xs all path (suc i) _) refl

  walk_inner-Agree :
      (codec : JsonCodec) (t : Text) (found : Option Json)
      → ((inner : Json) → found ≡ some inner → Agree visit other inner)
      → (path : BodyPath) (out : Out)
      → walk_inner codec visit path t found out ≡ walk_inner codec other path t found out
  unfolding walk_inner
  walk_inner-Agree codec t none a path out = refl
  walk_inner-Agree codec t (some inner) a path out = rw (a inner refl path false out) refl

  walk_dict-Agree :
      (policy : Policy)
      → OursHold (λ k v. Agree visit other v) policy.device
      → (fs : Fields) → AllFields (λ k v. Agree visit other v) fs
      → (path : BodyPath) (in_list : Bool) (out : Out)
      → walk_dict visit policy path in_list fs out ≡ walk_dict other policy path in_list fs out
  unfolding walk_dict
  walk_dict-Agree policy ours fs all path in_list out =
      rw
        (walk_fields-Agree _
          (substitute-Holds (λ k v. Agree visit other v) policy ours path fs out all) path _)
        refl

module _ (codec : JsonCodec) (small : ReadsSmall codec) (policy : Policy) (enough : ℕ)
    (ours : OursHold (λ k v. SettlesAt codec policy enough v) policy.device) where
  fields-AllFields :
      (P : Json → Type 0) (n : ℕ)
      → ((v : Json) → size v ≤ n → P v)
      → (fs : Fields) → fields_size fs ≤ n
      → AllFields (λ k v. P v) fs
  unfolding fields_size AllFields
  fields-AllFields P n p end h = tt
  fields-AllFields P n p (field k v fs) h =
      (p v (omega arith), fields-AllFields P n p fs (omega arith))

  items-AllItems :
      (P : Json → Type 0) (n : ℕ)
      → ((v : Json) → size v ≤ n → P v)
      → (xs : Items) → items_size xs ≤ n
      → AllItems P xs
  unfolding items_size AllItems
  items-AllItems P n p nil h = tt
  items-AllItems P n p (cons x xs) h = (p x (omega arith), items-AllItems P n p xs (omega arith))

  visit_node-Agree :
      (visit other : Visitor) (n : ℕ)
      → ((v : Json) → size v ≤ n → Agree visit other v)
      → OursHold (λ k v. Agree visit other v) policy.device
      → (node : Json) → size node ≤ suc n
      → Agree (visit_node codec policy visit) (visit_node codec policy other) node
  unfolding visit_node walk_json_string size
  visit_node-Agree visit other n a o (obj fs) h path in_list out =
      walk_dict-Agree visit other policy o fs
        (fields-AllFields (Agree visit other) n a fs (omega arith)) path in_list out
  visit_node-Agree visit other n a o (arr xs) h path in_list out =
      rw
        (walk_items-Agree visit other xs (items-AllItems (Agree visit other) n a xs (omega arith))
          path 0 out)
        refl
  visit_node-Agree visit other n a o (str t) h path in_list out =
      walk_inner-Agree visit other codec t (embedded codec t)
        (λ inner e.
          a inner (omega (arith, small.size-loads t inner (loads-embedded codec t inner e))))
        path out
  visit_node-Agree visit other n a o node h path in_list out = refl

  smaller-SettlesAt : (n : ℕ) (v : Json) → size v ≤ n → SettlesAt codec policy (n + enough) v
  unfolding walk
  smaller-SettlesAt zero v h fuel enough_fuel = absurd (omega (arith, size-positive v))
  smaller-SettlesAt (suc n) v h zero enough_fuel = absurd (omega arith)
  smaller-SettlesAt (suc n) v h (suc fuel) enough_fuel =
      visit_node-Agree (walk codec policy (suc fuel)) (walk codec policy fuel) n
        (λ w k. smaller-SettlesAt n w k fuel (omega arith))
        (map-OursHold _ _ (λ k w settles. settles fuel (omega arith)) policy.device ours) v h

  -- Once the walks of the device's own values have settled, a walk with as much fuel again as the size of
  -- the value has too.
  pub walk-SettlesAt : (v : Json) → SettlesAt codec policy (size v + enough) v
  walk-SettlesAt v = smaller-SettlesAt (size v) v (omega arith)
