-- ===== src/Mqtt/Upstream/Supervise.antt =====
-- Which upstream connections are held: `wanted` and `reconcile` of addon/petkit_local/mqtt/upstream.py. A
-- task is the id of its device, and whether it has finished.
use petkit_local.Prelude.{
  ℕ, ◌≡◌, Bool, true, false, not, ◌&&◌, List, [], ◌∷◌, ◌++◌, any, filter, if◌then◌else◌, ◌==◌, All,
  Option, none, some,
}
use petkit_local.Prelude.Json.{Json, Fields, lookup_field, flag}
use petkit_local.Http.Redact.Objects.{truthy, or_value}

pub record Task : Type 0 where
  pub petkit_id : ℕ
  pub is_done : Bool

-- petkit_id in self._tasks
unfoldable pub has_task : ℕ → List Task → Bool
has_task id tasks = any (λ t. t.petkit_id == id) tasks

-- wanted
unfoldable pub wanted : Fields → Bool
unfolding truthy or_value
wanted config =
    truthy (or_value (lookup_field "proxy_mode" config) (flag false))
    && truthy (or_value (lookup_field "proxy_mqtt_bridge" config) (flag true))

-- The finished tasks go.
unfoldable pub reap : List Task → List Task
reap tasks = filter (λ t. not t.is_done) tasks

-- One device with credentials: it gets a task, if it has none and is registered.
unfoldable pub start_one : (ℕ → Bool) → ℕ → List Task → List Task
unfolding has_task
start_one registered id tasks =
    if has_task id tasks
    then tasks
    else if registered id
    then tasks ++ record { petkit_id = id; is_done = false } ∷ []
    else tasks

unfoldable pub start_missing : (ℕ → Bool) → List ℕ → List Task → List Task
unfolding start_one
start_missing registered [] tasks = tasks
start_missing registered (id ∷ ids) tasks =
    start_missing registered ids (start_one registered id tasks)

-- reconcile, for the devices with credentials and the registered ones
unfoldable pub reconcile : Fields → List ℕ → (ℕ → Bool) → List Task → List Task
unfolding wanted reap start_missing
reconcile config ids registered tasks =
    if wanted config then start_missing registered ids (reap tasks) else []

-- A switch that is off unless it is set, and one that is on unless it is set to something falsy.
abbrev pub switched_on : Option Json → Bool
switched_on none = false
switched_on (some v) = truthy v

abbrev pub left_on : Option Json → Bool
left_on none = true
left_on (some v) = truthy v

-- No task has finished.
abbrev pub AreLive : List Task → Type 0
AreLive tasks = All (λ t. t.is_done ≡ false) tasks
