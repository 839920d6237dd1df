-- ===== src/Http/Redact/Walker/Harmless.antt =====
-- What the walk of addon/petkit_local/http/redact/walker.py hands on as it is.
use petkit_local.Prelude.{
  and-left, and-right, not-false, ℕ, zero, suc, ◌≤◌, ◌≡◌, refl, subst, String, Bool, true, false,
  not, ◌&&◌, Option, none, some, arith, Text, if◌then◌else◌,
}
use petkit_local.Prelude.Json.{Json, str, arr, obj, Items, nil, cons, Fields, end, field}
use petkit_local.Http.Redact.{BodyPath, Out, JsonCodec, Policy}
use petkit_local.Http.Redact.Equal.{json_eq_refl}
use petkit_local.Http.Redact.Rules.{has_rce, ota_key, match_rce, match_ota_shape, record_ota}
use petkit_local.Http.Redact.Walker.{
  Walked, Visitor, add_field, add_item, walk_fields, walk_items, walk_inner, walk_json_string,
  walk_dict, close_dict, unless_blocked, re_encode, visit_node, embedded, walk,
}
use petkit_local.Http.Redact.Walker.Clean.{all_values, all_items, none_or}
use petkit_local.Http.Redact.Walker.Plain.{is_touched, if-same, substitute-plain}
use petkit_local.Http.Redact.Walker.Safe.{loads-embedded}
use petkit_local.Http.Redact.Walker.Settled.{
  size, items_size, fields_size, ReadsSmall, size-positive,
}

unfoldable no_offer : Option String → Bool
no_offer none = true
no_offer (some k) = false

-- No command, no firmware, and no key that a rule looks for.
unfoldable is_plain : Fields → Bool
unfolding has_rce ota_key no_offer
is_plain fs = not (has_rce fs) && (no_offer (ota_key fs) && not (is_touched fs))

-- Every object is plain, down to a number of levels, where a text that encodes an object or a list has it
-- as a level.
unfoldable pub is_harmless : JsonCodec → ℕ → Json → Bool
unfolding is_plain all_values all_items none_or embedded
is_harmless codec zero node = true
is_harmless codec (suc n) (obj fs) = is_plain fs && all_values (is_harmless codec n) fs
is_harmless codec (suc n) (arr xs) = all_items (is_harmless codec n) xs
is_harmless codec (suc n) (str t) = none_or (is_harmless codec n) (embedded codec t)
is_harmless codec (suc n) node = true

module _ (fs : Fields) (plain : is_plain fs ≡ true) where
  no_rce : has_rce fs ≡ false
  unfolding is_plain
  no_rce = not-false (has_rce fs) (and-left (not (has_rce fs)) _ plain)

  untouched : is_touched fs ≡ false
  unfolding is_plain
  untouched =
      not-false (is_touched fs)
        (and-right (no_offer (ota_key fs)) _ (and-right (not (has_rce fs)) _ plain))

  no_ota : ota_key fs ≡ none
  unfolding is_plain
  no_ota =
      none_lem (ota_key fs)
        (and-left (no_offer (ota_key fs)) _ (and-right (not (has_rce fs)) _ plain))
    where
      none_lem : (o : Option String) → no_offer o ≡ true → o ≡ none
      none_lem none h = refl
      none_lem (some k) h = absurd (cc)

  match_rce-plain :
      (policy : Policy) (path : BodyPath) (out : Out) → match_rce policy path fs out ≡ none
  unfolding match_rce
  match_rce-plain policy path out = rw no_rce (if-none policy.block_rce _)
    where
      if-none : (b : Bool) (a : Option Out) → (if b && false then a else none) ≡ none
      if-none true a = refl
      if-none false a = refl

  match_ota_shape-plain :
      (policy : Policy) (path : BodyPath) (out : Out) → match_ota_shape policy path fs out ≡ none
  unfolding match_ota_shape record_ota
  match_ota_shape-plain policy path out = rw no_ota (if-same policy.block_ota none)

module _ (visit : Visitor) where
  -- The visitor hands a value on as it is.
  abbrev Keeps : Json → Type 0
  Keeps node =
      (path : BodyPath) (in_list : Bool) (out : Out)
      → visit path in_list node out ≡ record { got = Walked.keep node; out = out }

  walk_fields-Keeps :
      (test : Json → Bool) (n : ℕ)
      → ((v : Json) → size v ≤ n → test v ≡ true → Keeps v)
      → (fs : Fields) → fields_size fs ≤ n
      → all_values test fs ≡ true
      → (path : BodyPath) (out : Out)
      → walk_fields visit path fs out ≡ record { fields = fs; tainted = false; out = out }
  unfolding walk_fields add_field all_values fields_size
  walk_fields-Keeps test n keeps end s h path out = refl
  walk_fields-Keeps test n keeps (field k v fs) s h path out =
      rw
        (
          keeps v (omega arith) (and-left (test v) _ h) _ false out,
          walk_fields-Keeps test n keeps fs (omega arith) (and-right (test v) _ h) path out,
        )
        refl

  walk_items-Keeps :
      (test : Json → Bool) (n : ℕ)
      → ((v : Json) → size v ≤ n → test v ≡ true → Keeps v)
      → (xs : Items) → items_size xs ≤ n
      → all_items test xs ≡ true
      → (path : BodyPath) (i : ℕ) (out : Out)
      → walk_items visit path i xs out ≡ record { items = xs; out = out }
  unfolding walk_items add_item all_items items_size
  walk_items-Keeps test n keeps nil s h path i out = refl
  walk_items-Keeps test n keeps (cons x xs) s h path i out =
      rw
        (
          keeps x (omega arith) (and-left (test x) _ h) _ true out,
          walk_items-Keeps test n keeps xs (omega arith) (and-right (test x) _ h) path (suc i) out,
        )
        refl

  walk_inner-Keeps :
      (codec : JsonCodec) (t : Text) (found : Option Json)
      → ((inner : Json) → found ≡ some inner → Keeps inner)
      → (path : BodyPath) (out : Out)
      → walk_inner codec visit path t found out ≡ record { got = Walked.keep (str t); out = out }
  unfolding walk_inner re_encode
  walk_inner-Keeps codec t none keeps path out = refl
  walk_inner-Keeps codec t (some inner) keeps path out =
      rw (keeps inner refl path false out, json_eq_refl inner) refl

  walk_dict-Keeps :
      (policy : Policy) (fs : Fields)
      → is_plain fs ≡ true
      → (path : BodyPath) (in_list : Bool) (out : Out)
      → walk_fields visit path fs out ≡ record { fields = fs; tainted = false; out = out }
      → walk_dict visit policy path in_list fs out
        ≡ record { got = Walked.keep (obj fs); out = out }
  unfolding walk_dict unless_blocked close_dict
  walk_dict-Keeps policy fs plain path in_list out walked =
      rw
        (
          match_rce-plain fs plain policy path out,
          match_ota_shape-plain fs plain policy path out,
          substitute-plain fs (untouched fs plain) policy path out,
          walked,
        )
        refl

module _ (codec : JsonCodec) (small : ReadsSmall codec) (policy : Policy) where
  visit_node-Keeps :
      (visit : Visitor) (n : ℕ)
      → ((v : Json) → size v ≤ n → is_harmless codec n v ≡ true → Keeps visit v)
      → (node : Json) → size node ≤ suc n
      → is_harmless codec (suc n) node ≡ true
      → Keeps (visit_node codec policy visit) node
  unfolding visit_node walk_json_string size is_harmless
  visit_node-Keeps visit n keeps (obj fs) s h path in_list out =
      walk_dict-Keeps visit policy fs (and-left _ _ h) path in_list out (
        walk_fields-Keeps visit (is_harmless codec n) n keeps fs (omega arith)
          (and-right (is_plain fs) _ h) path out)
  visit_node-Keeps visit n keeps (arr xs) s h path in_list out =
      rw (walk_items-Keeps visit (is_harmless codec n) n keeps xs (omega arith) h path 0 out) refl
  visit_node-Keeps visit n keeps (str t) s h path in_list out =
      walk_inner-Keeps visit codec t (embedded codec t)
        (λ inner e.
          keeps inner (omega (arith, small.size-loads t inner (loads-embedded codec t inner e)))
            (found inner e))
        path out
    where
      found : (inner : Json) → embedded codec t ≡ some inner → is_harmless codec n inner ≡ true
      found inner e = subst (λ o. none_or (is_harmless codec n) o ≡ true) e h
  visit_node-Keeps visit n keeps node s h path in_list out = refl

  smaller-Keeps :
      (n : ℕ) (node : Json)
      → size node ≤ n
      → is_harmless codec n node ≡ true
      → (fuel : ℕ) → n ≤ fuel
      → Keeps (walk codec policy fuel) node
  unfolding walk
  smaller-Keeps zero node s h fuel enough = absurd (omega (arith, size-positive node))
  smaller-Keeps (suc n) node s h zero enough = absurd (omega arith)
  smaller-Keeps (suc n) node s h (suc fuel) enough =
      visit_node-Keeps (walk codec policy fuel) n
        (λ v k e. smaller-Keeps n v k e fuel (omega arith)) node s h

  -- With as much fuel as its size, a value is handed on as it is, and nothing is recorded, if no object in
  -- it, at any depth, has a shell command, a firmware offer or a key that the rules look for, and what
  -- json.loads reads is no larger than its text.
  pub walk-is_harmless :
      (node : Json)
      → is_harmless codec (size node) node ≡ true
      → (fuel : ℕ) → size node ≤ fuel
      → (path : BodyPath) (in_list : Bool) (out : Out)
      → walk codec policy fuel path in_list node out ≡ record { got = Walked.keep node; out = out }
  walk-is_harmless node h fuel enough = smaller-Keeps (size node) node (omega arith) h fuel enough
