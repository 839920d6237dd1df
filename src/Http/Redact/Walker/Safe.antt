-- ===== src/Http/Redact/Walker/Safe.antt =====
-- That the walk of addon/petkit_local/http/redact/walker.py lets no shell command through.
use petkit_local.Prelude.{
  or-false, or-left, or-right, ℕ, zero, suc, ◌≡◌, refl, subst, String, Bool, true, false, ◌&&◌,
  Option, none, some, arith, str_eq, eq_iff, Text, Bool-cases, inl, inr, if◌then◌else◌,
  Option-cases,
}
use petkit_local.Prelude.Json.{Json, str, arr, obj, Fields, end, field}
use petkit_local.Http.Redact.{BodyPath, Out, JsonCodec, Policy}
use petkit_local.Http.Redact.Objects.{any_field, has_field, json_eq}
use petkit_local.Http.Redact.Equal.{json_eq_lem}
use petkit_local.Http.Redact.Ours.{is_ours, AllFields, all-OursHold}
use petkit_local.Http.Redact.Ours.Rules.{substitute-Holds}
use petkit_local.Http.Redact.Rules.{is_run_cmd, has_rce, match_rce}
use petkit_local.Http.Redact.Walker.{
  Walked, Visit, Visitor, FieldsVisit, embedded, re_encode, walk_inner, walk_json_string,
  unless_blocked, close_dict, substitute, walk_dict, walk_fields, container, opens_document,
  visit_node, walk,
}
use petkit_local.Http.Redact.Walker.Clean.{
  is_clean, IsClean, Kept, Good, IsSound, IsStable, walk_fields-HasGood, walk_items-is_clean,
}

-- What json.loads reads in what json.dumps has written is what was written.
pub record ReadsBack (codec : JsonCodec) : Type 0 where
  pub loads-dumps_compact : (v w : Json) → codec.loads (codec.dumps_compact v) ≡ some w → w ≡ v

not_ours : (k name : String) → is_ours name ≡ false → is_ours k ≡ true → str_eq k name ≡ false
not_ours k name other ours = elim (Bool-cases (str_eq k name)) [
  | inl e ↦ absurd (cc ((eq_iff k name).0 e))
  | inr e ↦ e
]

second-false : (a b : Bool) → a ≡ true → (a && b) ≡ false → b ≡ false
second-false a b h e = ground arith

container_lem : (o : Option Json) (w : Json) → container o ≡ some w → o ≡ some w
unfolding container
container_lem (some (arr xs)) w h = h
container_lem (some (obj fs)) w h = h
container_lem other w h = absurd (cc)

pub loads-embedded :
    (codec : JsonCodec) (t : Text) (w : Json) → embedded codec t ≡ some w → codec.loads t ≡ some w
unfolding embedded
loads-embedded codec t w e = choose (opens_document t) e
  where
    choose :
        (b : Bool)
        → (if b then container (codec.loads t) else none) ≡ some w
        → codec.loads t ≡ some w
    choose true h = container_lem (codec.loads t) w h
    choose false h = absurd (cc)

abbrev pub rce_test : String → Json → Bool
rce_test k v = str_eq k "user_cmd" && is_run_cmd v

rce_test-ours : (k : String) → is_ours k ≡ true → (v : Json) → rce_test k v ≡ false
rce_test-ours k ours v = rw (not_ours k "user_cmd" refl ours) refl

abbrev cmd_test : String → Json → Bool
cmd_test k v = str_eq k "run_cmd"

cmd_test-ours : (k : String) → is_ours k ≡ true → (v : Json) → cmd_test k v ≡ false
cmd_test-ours k ours v = not_ours k "run_cmd" refl ours

pub any_field-AllFields :
    (test : String → Json → Bool) (fs : Fields)
    → any_field test fs ≡ false
    → AllFields (λ k v. test k v ≡ false) fs
unfolding any_field AllFields
any_field-AllFields test end h = tt
any_field-AllFields test (field k v fs) h =
    (or-left (test k v) _ h, any_field-AllFields test fs (or-right (test k v) _ h))

pub AllFields-any_field :
    (test : String → Json → Bool) (fs : Fields)
    → AllFields (λ k v. test k v ≡ false) fs
    → any_field test fs ≡ false
unfolding any_field AllFields
AllFields-any_field test end all = refl
AllFields-any_field test (field k v fs) (h, all) =
    or-false (test k v) _ h (AllFields-any_field test fs all)

-- A test that no item of ours passes is passed by no item after the rules, if by none before.
any_field-substitute :
    (test : String → Json → Bool)
    → ((k : String) → is_ours k ≡ true → (v : Json) → test k v ≡ false)
    → (policy : Policy) (path : BodyPath) (fs : Fields) (out : Out) → any_field test fs ≡ false
    → any_field test (substitute policy path fs out).node ≡ false
any_field-substitute test quiet policy path fs out h = AllFields-any_field test _ (
    substitute-Holds (λ k v. test k v ≡ false) policy (all-OursHold _ quiet policy.device) path fs
      out (any_field-AllFields test fs h))

unless_blocked-Kept :
    (P : Json → Type 0) (blocked : Option Out) (visit : Visit)
    → Kept P visit.got
    → Kept P (unless_blocked blocked visit).got
unfolding unless_blocked
unless_blocked-Kept P none visit h = h
unless_blocked-Kept P (some out) visit h = tt

-- With the block on, what is kept had no command when its turn came.
match_rce-Kept :
    (P : Json → Type 0) (policy : Policy)
    → policy.block_rce ≡ true
    → (path : BodyPath) (fs : Fields) (out : Out) (visit : Visit)
    → (has_rce fs ≡ false → Kept P visit.got)
    → Kept P (unless_blocked (match_rce policy path fs out) visit).got
unfolding match_rce unless_blocked
match_rce-Kept P policy on path fs out visit h = elim (Bool-cases (has_rce fs)) [
  | inl e ↦ rw (on, e) tt
  | inr e ↦ rw (on, e) (h e)
]

close_dict-Kept :
    (P : Json → Type 0) (in_list : Bool) (rest : FieldsVisit)
    → P (obj rest.fields)
    → Kept P (close_dict in_list rest).got
unfolding close_dict
close_dict-Kept P in_list rest h = elim (Bool-cases (rest.tainted && in_list)) [
  | inl e ↦ rw e tt
  | inr e ↦ rw e h
]

module _ (codec : JsonCodec) (reads : ReadsBack codec) where
  rce_test-IsStable : IsStable codec rce_test
  rce_test-IsStable k v w good e = elim (Bool-cases (str_eq k "user_cmd")) [
    | inl same ↦ rw same (good.1 (second-false (str_eq k "user_cmd") _ same e))
    | inr other ↦ rw other refl
  ]

  cmd_test-IsStable : IsStable codec cmd_test
  cmd_test-IsStable k v w good e = e

  pub levels : (v : Json) → ((n : ℕ) → is_clean codec (suc n) v ≡ true) → IsClean codec v
  unfolding is_clean
  levels v h zero = refl
  levels v h (suc n) = h n

  dumps_compact-IsClean : (v : Json) → IsClean codec v → IsClean codec (str (codec.dumps_compact v))
  unfolding is_clean
  dumps_compact-IsClean v h zero = refl
  dumps_compact-IsClean v h (suc n) = elim (Option-cases (embedded codec (codec.dumps_compact v))) [
    | inl e ↦ rw e refl
    | inr (w, e) ↦ rw (e, reads.loads-dumps_compact v w (loads-embedded codec _ w e)) (h n)
  ]

  embedded-IsClean :
      (t : Text) (v : Json) → embedded codec t ≡ some v → IsClean codec v → IsClean codec (str t)
  unfolding is_clean
  embedded-IsClean t v e h zero = refl
  embedded-IsClean t v e h (suc n) = rw e (h n)

  pub plain-IsClean : (t : Text) → embedded codec t ≡ none → IsClean codec (str t)
  unfolding is_clean
  plain-IsClean t e zero = refl
  plain-IsClean t e (suc n) = rw e refl

  re_encode-Kept :
      (t : Text) (inner : Json) (got : Walked)
      → embedded codec t ≡ some inner
      → Kept (Good codec inner) got
      → Kept (Good codec (str t)) (re_encode codec t inner got)
  unfolding re_encode is_run_cmd
  re_encode-Kept t inner Walked.drop e g = tt
  re_encode-Kept t inner (Walked.keep v) e g = elim (Bool-cases (json_eq v inner)) [
    | inl same ↦ rw same (
      embedded-IsClean t inner e (subst (IsClean codec) (json_eq_lem v inner same) g.0),
      λ h. refl,
    )
    | inr changed ↦ rw changed (dumps_compact-IsClean v g.0, λ h. refl)
  ]

  walk_inner-Kept :
      (visit : Visitor)
      → IsSound codec visit
      → (path : BodyPath) (t : Text) (found : Option Json) (out : Out) → embedded codec t ≡ found
      → Kept (Good codec (str t)) (walk_inner codec visit path t found out).got
  unfolding walk_inner is_run_cmd
  walk_inner-Kept visit sound path t none out e = (plain-IsClean t e, λ h. refl)
  walk_inner-Kept visit sound path t (some inner) out e =
      re_encode-Kept t inner _ e (sound path false inner out)

  fields-Good :
      (visit : Visitor)
      → IsSound codec visit
      → (policy : Policy) (path : BodyPath) (in_list : Bool) (fs : Fields) (out : Out)
      → has_rce fs ≡ false
      → Kept
          (Good codec (obj fs))
          (close_dict in_list (
            walk_fields visit path
              (substitute policy path fs out).node
              (substitute policy path fs out).out)).got
  unfolding has_rce is_run_cmd has_field is_clean
  fields-Good visit sound policy path in_list fs out e =
      let done = substitute policy path fs out in
      let rce =
        walk_fields-HasGood codec rce_test rce_test-IsStable visit sound path done.node done.out in
      let cmd =
        walk_fields-HasGood codec cmd_test cmd_test-IsStable visit sound path done.node done.out in
      close_dict-Kept (Good codec (obj fs)) in_list _ (
        levels (obj _) (λ n.
            rw (rce.1 (any_field-substitute rce_test rce_test-ours policy path fs out e))
              (rce.0 n)),
        λ h. cmd.1 (any_field-substitute cmd_test cmd_test-ours policy path fs out h),
      )

  visit_node-IsSound :
      (policy : Policy)
      → policy.block_rce ≡ true
      → (visit : Visitor) → IsSound codec visit
      → IsSound codec (visit_node codec policy visit)
  unfolding visit_node walk_dict walk_json_string is_run_cmd is_clean
  visit_node-IsSound policy on visit sound path in_list (obj fs) out =
      match_rce-Kept (Good codec (obj fs)) policy on path fs out _ (λ e.
        unless_blocked-Kept (Good codec (obj fs)) _ _
          (fields-Good visit sound policy path in_list fs out e))
  visit_node-IsSound policy on visit sound path in_list (arr xs) out =
      (levels (arr _) (λ n. walk_items-is_clean codec visit sound n path 0 xs out), λ h. h)
  visit_node-IsSound policy on visit sound path in_list (str t) out =
      walk_inner-Kept visit sound path t _ out refl
  visit_node-IsSound policy on visit sound path in_list node out = (levels node (λ n. refl), λ h. h)

  pub walk-IsSound :
      (policy : Policy)
      → policy.block_rce ≡ true
      → (fuel : ℕ) → IsSound codec (walk codec policy fuel)
  unfolding walk
  walk-IsSound policy on zero path in_list node out = tt
  walk-IsSound policy on (suc fuel) path in_list node out =
      visit_node-IsSound policy on (walk codec policy fuel) (walk-IsSound policy on fuel) path
        in_list node out
