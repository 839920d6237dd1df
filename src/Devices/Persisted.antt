-- ===== src/Devices/Persisted.antt =====
-- The debounced writer `PersistedRegistry` of addon/petkit_local/devices/registry.py. The state is the
-- registry in memory, the dirty flag, the text of the file, and the text that a worker thread is
-- writing, with whether the flusher still waits for that thread. Whether an event loop runs, and
-- whether a write to the disk goes well, come with the events. `encode` is json.dumps of
-- `_serialize()`, which gives none where it raises. A thread that `stop` left behind lands before the
-- next flush begins.
pub mod Written
use petkit_local.Prelude.{Bool, true, false, ◌||◌, Option, none, some, List, [], ◌∷◌, if◌then◌else◌}

pub record Registry {ℓ κ} (M : Type ℓ) (D : Type κ) : Type (ℓ ⊔ κ) where
  pub memory : M
  pub dirty : Bool
  pub disk : Option D
  pub writing : Option D
  pub awaited : Bool

pub data Event {ℓ} (M : Type ℓ) : Type ℓ where
  -- The registry becomes `m`, and mark_dirty is called.
  change : (m : M) (loop_runs written : Bool) → Event M
  -- The registry becomes `m`, and save is called.
  register : (m : M) (written : Bool) → Event M
  flush_begins : Event M
  flush_ends : (written : Bool) → Event M
  stop : (written : Bool) → Event M

module _ {ℓ κ} {M : Type ℓ} {D : Type κ} (persists : Bool) (encode : M → Option D) where
  unfoldable set_dirty : Bool → Registry M D → Registry M D
  set_dirty b r = record r { dirty = b }

  -- atomic_write_json, from the encoded document: without one it raises before the file is touched.
  unfoldable pub write : Option D → Bool → Registry M D → Registry M D
  unfolding set_dirty
  write none written r = set_dirty false r
  write (some d) true r = record r { dirty = false; disk = some d }
  write (some d) false r = set_dirty true r

  -- save
  unfoldable pub save : Bool → Registry M D → Registry M D
  unfolding set_dirty write
  save written r = if persists then write (encode r.memory) written r else set_dirty false r

  -- mark_dirty
  unfoldable pub mark_dirty : Bool → Bool → Registry M D → Registry M D
  unfolding set_dirty save
  mark_dirty loop_runs written r =
      let marked = set_dirty true r in
      if persists then (if loop_runs then marked else save written marked) else r

  -- Hands a text to the worker thread.
  unfoldable hand_over : Option D → Registry M D → Registry M D
  unfolding set_dirty
  hand_over none r = set_dirty false r
  hand_over (some d) r = record r { dirty = false; writing = some d; awaited = true }

  unfoldable begin_flush : Option D → Registry M D → Registry M D
  unfolding hand_over
  begin_flush (some d) r = r
  begin_flush none r =
      let handed = hand_over (encode r.memory) r in
      if persists then (if r.dirty then handed else r) else r

  -- flush, until it waits for the thread
  unfoldable pub flush : Registry M D → Registry M D
  unfolding begin_flush
  flush r = begin_flush r.writing r

  unfoldable land : Option D → Bool → Registry M D → Registry M D
  land none written r = r
  land (some d) true r = record r { disk = some d; writing = none; awaited = false }
  land (some d) false r = record r { dirty = r.awaited || r.dirty; writing = none; awaited = false }

  -- The thread is done; the rest of flush runs if something waits for it.
  unfoldable pub flush_end : Bool → Registry M D → Registry M D
  unfolding land
  flush_end written r = land r.writing written r

  -- stop
  unfoldable pub stop_flusher : Bool → Registry M D → Registry M D
  unfolding save
  stop_flusher written r =
      let left = record r { awaited = false } in if r.dirty then save written left else left

  unfoldable pub step : Event M → Registry M D → Registry M D
  unfolding mark_dirty save flush flush_end stop_flusher
  step (change m loop_runs written) r = mark_dirty loop_runs written (record r { memory = m })
  step (register m written) r = save written (record r { memory = m })
  step flush_begins r = flush r
  step (flush_ends written) r = flush_end written r
  step (stop written) r = stop_flusher written r

  unfoldable pub run : List (Event M) → Registry M D → Registry M D
  unfolding step
  run [] r = r
  run (e ∷ events) r = run events (step e r)
