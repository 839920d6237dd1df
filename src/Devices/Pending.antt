-- ===== src/Devices/Pending.antt =====
-- Settings of the panel that wait for their device: addon/petkit_local/devices/pending.py. The state is
-- the pending settings and the command queue of a device. A queued command is a property write, given by
-- its other fields and its `params`, or something else.
pub mod Lookups
pub mod Newest
use petkit_local.Prelude.{
  String, Bool, true, false, not, ◌&&◌, Option, none, some, List, [], ◌∷◌, str_eq, if◌then◌else◌,
}
use petkit_local.Prelude.Json.{Json, Fields, end, field, lookup_field}
use petkit_local.Http.Redact.Objects.{has_field, put_field, py_eq}

pub data Command : Type 0 where
  property_set : (rest params : Fields) → Command
  other : Json → Command

pub record Store : Type 0 where
  pub pending : Fields
  pub queue : List Command

-- pending.update(params)
unfoldable pub merge : Fields → Fields → Fields
unfolding put_field
merge end pending = pending
merge (field k v params) pending = merge params (put_field k v pending)

-- {k: v for k, v in old.items() if k not in params}
unfoldable pub without : Fields → Fields → Fields
unfolding has_field
without params end = end
without params (field k v old) =
    if has_field k params then without params old else field k v (without params old)

-- A write that nothing is left of goes.
unfoldable pub keep_write : Fields → Fields → List Command → List Command
keep_write rest end queue = queue
keep_write rest (field k v params) queue = property_set rest (field k v params) ∷ queue

unfoldable pub supersede : Fields → List Command → List Command
unfolding keep_write without
supersede params [] = []
supersede params (property_set rest old ∷ queue) =
    keep_write rest (without params old) (supersede params queue)
supersede params (other c ∷ queue) = other c ∷ supersede params queue

-- remember
unfoldable pub remember : Fields → Store → Store
unfolding merge supersede
remember params store = record {
  pending = merge params store.pending;
  queue = supersede params store.queue;
}

-- pending.pop(k, None)
unfoldable pub pop : String → Fields → Fields
pop k end = end
pop k (field j v fs) = if str_eq j k then pop k fs else field j v (pop k fs)

-- Whether a field that may be missing has a value.
unfoldable pub has_value : Json → Option Json → Bool
unfolding py_eq
has_value v none = false
has_value v (some w) = py_eq w v

-- The pending settings that were sent, and have not changed since, go.
unfoldable pub settle : Fields → Fields → Fields
unfolding has_value pop
settle end pending = pending
settle (field k v sent) pending =
    settle sent (if has_value v (lookup_field k pending) then pop k pending else pending)

-- all(k in sent and sent[k] == v for k, v in params.items())
unfoldable pub all_sent : Fields → Fields → Bool
unfolding has_value
all_sent sent end = true
all_sent sent (field k v params) = has_value v (lookup_field k sent) && all_sent sent params

-- Whether a write is to go: it has params, and all of them were sent.
unfoldable pub is_delivered : Fields → Fields → Bool
unfolding all_sent
is_delivered sent end = false
is_delivered sent (field k v params) = all_sent sent (field k v params)

unfoldable pub drop_delivered : Fields → List Command → List Command
unfolding is_delivered
drop_delivered sent [] = []
drop_delivered sent (property_set rest params ∷ queue) =
    let kept = drop_delivered sent queue in
    if is_delivered sent params then kept else property_set rest params ∷ kept
drop_delivered sent (other c ∷ queue) = other c ∷ drop_delivered sent queue

-- completed
unfoldable pub completed : Fields → Store → Store
unfolding settle drop_delivered
completed sent store = record {
  pending = settle sent store.pending;
  queue = drop_delivered sent store.queue;
}
