-- ===== src/Devices/Pending/Newest.antt =====
-- That the newest value of a setting is the one that waits, and that only property writes are dropped.
use petkit_local.Prelude.{◌≡◌, refl, String, true, false, List, [], ◌∷◌, All, Bool-cases, inl, inr}
use petkit_local.Prelude.Json.{Json, Fields, end, field, lookup_field}
use petkit_local.Http.Redact.Objects.{any_field, has_field}
use petkit_local.Devices.Pending.{
  Command, property_set, other, Store, merge, without, keep_write, supersede, remember,
  drop_delivered, is_delivered, completed,
}
use petkit_local.Devices.Pending.Lookups.{
  is_distinct, newer, unsent, lookup_field-merge, lookup_field-settle,
}

-- What is queued besides property writes.
pub actions : List Command → List Json
actions [] = []
actions (property_set rest params ∷ queue) = actions queue
actions (other c ∷ queue) = c ∷ actions queue

-- A queued write has params, and none of these keys.
abbrev pub IsSuperseded : Fields → Command → Type 0
IsSuperseded params (property_set rest end) = ⊥
IsSuperseded params (property_set rest (field k v old)) =
    any_field (λ j w. has_field j params) (field k v old) ≡ false
IsSuperseded params (other c) = Unit

any_field-without :
    (params old : Fields) → any_field (λ j w. has_field j params) (without params old) ≡ false
unfolding without any_field
any_field-without params end = refl
any_field-without params (field k v old) = elim (Bool-cases (has_field k params)) [
  | inl e ↦ rw e (any_field-without params old)
  | inr e ↦ rw (e, e) (any_field-without params old)
]

keep_write-All :
    (params rest old : Fields) (queue : List Command)
    → any_field (λ j w. has_field j params) old ≡ false
    → All (IsSuperseded params) queue
    → All (IsSuperseded params) (keep_write rest old queue)
unfolding keep_write
keep_write-All params rest end queue h all = all
keep_write-All params rest (field k v old) queue h all = (h, all)

supersede-All :
    (params : Fields) (queue : List Command) → All (IsSuperseded params) (supersede params queue)
unfolding supersede
supersede-All params [] = tt
supersede-All params (property_set rest old ∷ queue) =
    keep_write-All params rest (without params old) _ (any_field-without params old)
      (supersede-All params queue)
supersede-All params (other c ∷ queue) = (tt, supersede-All params queue)

actions-keep_write :
    (rest old : Fields) (queue : List Command) → actions (keep_write rest old queue) ≡ actions queue
unfolding keep_write actions
actions-keep_write rest end queue = refl
actions-keep_write rest (field k v old) queue = refl

actions-supersede :
    (params : Fields) (queue : List Command) → actions (supersede params queue) ≡ actions queue
unfolding supersede actions
actions-supersede params [] = refl
actions-supersede params (property_set rest old ∷ queue) =
    rw (actions-keep_write rest (without params old) (supersede params queue))
      (actions-supersede params queue)
actions-supersede params (other c ∷ queue) = rw (actions-supersede params queue) refl

actions-drop_delivered :
    (sent : Fields) (queue : List Command) → actions (drop_delivered sent queue) ≡ actions queue
unfolding drop_delivered actions
actions-drop_delivered sent [] = refl
actions-drop_delivered sent (property_set rest params ∷ queue) =
    elim (Bool-cases (is_delivered sent params)) [
      | inl e ↦ rw e (actions-drop_delivered sent queue)
      | inr e ↦ rw e (actions-drop_delivered sent queue)
    ]
actions-drop_delivered sent (other c ∷ queue) = rw (actions-drop_delivered sent queue) refl

-- After new settings, whose keys are distinct, each key waits with its newest value; every queued write has
-- params, and none of the new keys; and what is queued besides writes stays, in its order.
pub remember_lem :
    (params : Fields) (store : Store)
    → is_distinct params ≡ true
    → ((k : String)
        → lookup_field k (remember params store).pending
          ≡ newer (lookup_field k params) (lookup_field k store.pending))
      × (All (IsSuperseded params) (remember params store).queue
          × (actions (remember params store).queue ≡ actions store.queue))
unfolding remember
remember_lem params store h = (
  λ k. lookup_field-merge k params store.pending h,
  (supersede-All params store.queue, actions-supersede params store.queue),
)

-- When settings with distinct keys have been sent and newer ones, with distinct keys, came meanwhile, what
-- waits of a key is its newest value, unless that is the one sent; and no action is lost or repeated.
pub completed-remember :
    (sent params : Fields) (store : Store)
    → is_distinct sent ≡ true
    → is_distinct params ≡ true
    → ((k : String)
        → lookup_field k (completed sent (remember params store)).pending
          ≡ unsent
              (lookup_field k sent)
              (newer (lookup_field k params) (lookup_field k store.pending)))
      × (actions (completed sent (remember params store)).queue ≡ actions store.queue)
unfolding remember completed
completed-remember sent params store hs hp = (
  λ k.
      rw
        (
          lookup_field-settle k sent (merge params store.pending) hs,
          lookup_field-merge k params store.pending hp,
        )
        refl,
  rw (actions-drop_delivered sent (supersede params store.queue))
      (actions-supersede params store.queue),
)
