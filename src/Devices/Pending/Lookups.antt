-- ===== src/Devices/Pending/Lookups.antt =====
-- The value of a key in the pending settings of addon/petkit_local/devices/pending.py.
use petkit_local.Prelude.{
  and-right, ◌≡◌, refl, subst, String, Bool, true, false, not, ◌&&◌, Option, none, some, arith,
  str_eq, eq_iff, Bool-cases, Option-cases, inl, inr, if◌then◌else◌,
}
use petkit_local.Prelude.Json.{Json, Fields, end, field, lookup_field}
use petkit_local.Http.Redact.Objects.{has_field, put_field, py_eq}
use petkit_local.Http.Redact.Walker.Plain.{lookup_field-absent}
use petkit_local.Devices.Pending.{merge, pop, has_value, settle}

-- No key of the object occurs twice.
unfoldable pub is_distinct : Fields → Bool
unfolding has_field
is_distinct end = true
is_distinct (field k v fs) = not (has_field k fs) && is_distinct fs

-- The first of two values, or else the second.
abbrev pub newer : Option Json → Option Json → Option Json
newer none old = old
newer (some v) old = some v

-- What is left of a pending value when another has been sent.
abbrev pub unsent : Option Json → Option Json → Option Json
unsent none kept = kept
unsent (some v) none = none
unsent (some v) (some w) = if py_eq w v then none else some w

lookup_field-put_field :
    (k j : String) (v : Json) (fs : Fields)
    → lookup_field k (put_field j v fs) ≡ (if str_eq j k then some v else lookup_field k fs)
unfolding put_field
lookup_field-put_field k j v end = refl
lookup_field-put_field k j v (field i w fs) =
    ground (arith, eq_iff k j, eq_iff i k, eq_iff i j, eq_iff j k, lookup_field-put_field k j v fs)

lookup_field-pop :
    (k j : String) (fs : Fields)
    → lookup_field k (pop j fs) ≡ (if str_eq j k then none else lookup_field k fs)
unfolding pop
lookup_field-pop k j end = ground arith
lookup_field-pop k j (field i w fs) =
    ground (arith, eq_iff k j, eq_iff i k, eq_iff i j, eq_iff j k, lookup_field-pop k j fs)

first-not : (a b : Bool) → (not a && b) ≡ true → a ≡ false
first-not a b h = ground arith

-- A distinct object has the value of its first key only there.
head-absent :
    (k j : String) (v : Json) (fs : Fields)
    → is_distinct (field j v fs) ≡ true
    → str_eq j k ≡ true
    → lookup_field k fs ≡ none
unfolding is_distinct
head-absent k j v fs h e =
    subst (λ i. lookup_field i fs ≡ none) ((eq_iff j k).0 e)
      (lookup_field-absent j fs (first-not (has_field j fs) _ h))

pub lookup_field-merge :
    (k : String) (params pending : Fields)
    → is_distinct params ≡ true
    → lookup_field k (merge params pending) ≡ newer (lookup_field k params) (lookup_field k pending)
unfolding merge is_distinct
lookup_field-merge k end pending h = refl
lookup_field-merge k (field j v params) pending h =
    let rest =
      lookup_field-merge k params (put_field j v pending)
        (and-right (not (has_field j params)) _ h) in
    elim (Bool-cases (str_eq j k)) [
      | inl e ↦
          rw (rest, lookup_field-put_field k j v pending, head-absent k j v params h e, e) refl
      | inr e ↦ rw (rest, lookup_field-put_field k j v pending, e) refl
    ]

abbrev pop_if : Json → String → Fields → Fields
pop_if v j pending = if has_value v (lookup_field j pending) then pop j pending else pending

pop_if-same :
    (v : Json) (k : String) (pending : Fields)
    → lookup_field k (pop_if v k pending) ≡ unsent (some v) (lookup_field k pending)
unfolding has_value
pop_if-same v k pending = elim (Option-cases (lookup_field k pending)) [
  | inl e ↦ rw e e
  | inr (w, e) ↦ elim (Bool-cases (py_eq w v)) [
    | inl h ↦ rw (e, h, lookup_field-pop k k pending, (eq_iff k k).1 refl) refl
    | inr h ↦ rw (e, h) e
  ]
]

pop_if-other :
    (v : Json) (j k : String) (pending : Fields)
    → str_eq j k ≡ false
    → lookup_field k (pop_if v j pending) ≡ lookup_field k pending
pop_if-other v j k pending e = elim (Bool-cases (has_value v (lookup_field j pending))) [
  | inl h ↦ rw (h, lookup_field-pop k j pending, e) refl
  | inr h ↦ rw h refl
]

pub lookup_field-settle :
    (k : String) (sent pending : Fields)
    → is_distinct sent ≡ true
    → lookup_field k (settle sent pending) ≡ unsent (lookup_field k sent) (lookup_field k pending)
unfolding settle is_distinct
lookup_field-settle k end pending h = refl
lookup_field-settle k (field j v sent) pending h =
    let rest =
      lookup_field-settle k sent (pop_if v j pending) (and-right (not (has_field j sent)) _ h) in
    elim (Bool-cases (str_eq j k)) [
      | inl e ↦
          rw (rest, head-absent k j v sent h e, e)
            (subst
              (λ i. lookup_field i (pop_if v j pending) ≡ unsent (some v) (lookup_field i pending))
              ((eq_iff j k).0 e) (pop_if-same v j pending))
      | inr e ↦ rw (rest, pop_if-other v j k pending e, e) refl
    ]
