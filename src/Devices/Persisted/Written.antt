-- ===== src/Devices/Persisted/Written.antt =====
-- Nothing of a registry that `PersistedRegistry` keeps is lost between its writes:
-- addon/petkit_local/devices/registry.py.
use petkit_local.Prelude.{
  ◌≡◌, ◌≢◌, refl, sym, ◌∙◌, ◌⊎◌, inl, inr, Bool, true, false, Option, none, some, List, [], ◌∷◌,
  arith, if◌then◌else◌,
}
use petkit_local.Devices.Persisted.{
  Registry, Event, change, register, flush_begins, flush_ends, stop, set_dirty, write, save,
  mark_dirty, hand_over, begin_flush, flush, land, flush_end, stop_flusher, step, run,
}

-- The text that the file has once the thread is done, if the write goes well.
abbrev pub to_be {ℓ} : {D : Type ℓ} → Option D → Option D → Option D
to_be none disk = disk
to_be (some d) disk = some d

module _ {ℓ κ} {M : Type ℓ} {D : Type κ} (encode : M → Option D) where
  -- What is in memory is on the disk, on its way there, or marked to be written; and a text on its
  -- way has the flusher wait for it.
  pub record IsRecorded (r : Registry M D) : Type (ℓ ⊔ κ) where
    pub recorded : (r.dirty ≡ true) ⊎ (to_be r.writing r.disk ≡ encode r.memory)
    pub waits : (r.writing ≡ none) ⊎ (r.awaited ≡ true)

  -- save and stop do not come while a thread writes.
  unfoldable pub IsOrderlyAt : Event M → Registry M D → Type κ
  IsOrderlyAt (change m true written) r = Unit
  IsOrderlyAt (change m false written) r = r.writing ≡ none
  IsOrderlyAt (register m written) r = r.writing ≡ none
  IsOrderlyAt flush_begins r = Unit
  IsOrderlyAt (flush_ends written) r = Unit
  IsOrderlyAt (stop written) r = r.writing ≡ none

  unfoldable pub IsOrderly : List (Event M) → Registry M D → Type κ
  unfolding IsOrderlyAt
  IsOrderly [] r = Unit
  IsOrderly (e ∷ events) r = IsOrderlyAt e r × IsOrderly events (step true encode e r)

module _ {ℓ κ} {M : Type ℓ} {D : Type κ} (encode : M → Option D)
    (total : (m : M) → encode m ≢ none) where
  write-IsRecorded :
      (o : Option D) (written : Bool) (r : Registry M D)
      → o ≡ encode r.memory
      → r.writing ≡ none
      → IsRecorded encode (write true encode o written r)
  unfolding write set_dirty
  write-IsRecorded none written r e w = absurd (total r.memory (sym e))
  write-IsRecorded (some d) true r e w = record { recorded = inr (rw w e); waits = inl w }
  write-IsRecorded (some d) false r e w = record { recorded = inl refl; waits = inl w }

  save-IsRecorded :
      (written : Bool) (r : Registry M D)
      → r.writing ≡ none
      → IsRecorded encode (save true encode written r)
  unfolding save
  save-IsRecorded written r w = write-IsRecorded (encode r.memory) written r refl w

  mark_dirty-IsRecorded :
      (loop_runs written : Bool) (m : M) (r : Registry M D)
      → IsOrderlyAt encode (change m loop_runs written) r
      → IsRecorded encode r
      → IsRecorded encode (mark_dirty true encode loop_runs written (record r { memory = m }))
  unfolding mark_dirty set_dirty IsOrderlyAt
  mark_dirty-IsRecorded true written m r o h = record { recorded = inl refl; waits = h.waits }
  mark_dirty-IsRecorded false written m r o h =
      save-IsRecorded written (record r { memory = m; dirty = true }) o

  hand_over-IsRecorded :
      (o : Option D) (r : Registry M D)
      → o ≡ encode r.memory
      → IsRecorded encode (hand_over true encode o r)
  unfolding hand_over set_dirty
  hand_over-IsRecorded none r e = absurd (total r.memory (sym e))
  hand_over-IsRecorded (some d) r e = record { recorded = inr e; waits = inr refl }

  begin_flush-IsRecorded :
      (o : Option D) (r : Registry M D)
      → IsRecorded encode r
      → IsRecorded encode (begin_flush true encode o r)
  unfolding begin_flush
  begin_flush-IsRecorded (some d) r h = h
  begin_flush-IsRecorded none r h = choose r.dirty
    where
      choose :
          (b : Bool)
          → IsRecorded encode (if b then hand_over true encode (encode r.memory) r else r)
      choose true = hand_over-IsRecorded (encode r.memory) r refl
      choose false = h

  land-IsRecorded :
      (o : Option D) (written : Bool) (r : Registry M D)
      → o ≡ r.writing
      → IsRecorded encode r
      → IsRecorded encode (land true encode o written r)
  unfolding land
  land-IsRecorded none written r e h = h
  land-IsRecorded (some d) true r e h = record {
    recorded = ground (arith, h.recorded);
    waits = inl refl;
  }
  land-IsRecorded (some d) false r e h = record {
    recorded = ground (arith, h.waits);
    waits = inl refl;
  }

  stop-IsRecorded :
      (written : Bool) (r : Registry M D)
      → r.writing ≡ none
      → IsRecorded encode r
      → IsRecorded encode (stop_flusher true encode written r)
  unfolding stop_flusher
  stop-IsRecorded written r w h = choose r.dirty
    where
      choose :
          (b : Bool)
          → IsRecorded encode (
              if b
              then save true encode written (record r { awaited = false })
              else record r { awaited = false })
      choose true = save-IsRecorded written (record r { awaited = false }) w
      choose false = record { recorded = h.recorded; waits = inl w }

  step-IsRecorded :
      (e : Event M) (r : Registry M D)
      → IsOrderlyAt encode e r
      → IsRecorded encode r
      → IsRecorded encode (step true encode e r)
  unfolding step IsOrderlyAt
  step-IsRecorded (change m loop_runs written) r o h =
      mark_dirty-IsRecorded loop_runs written m r o h
  step-IsRecorded (register m written) r o h = save-IsRecorded written (record r { memory = m }) o
  step-IsRecorded flush_begins r o h = unfold flush in begin_flush-IsRecorded r.writing r h
  step-IsRecorded (flush_ends written) r o h =
      unfold flush_end in land-IsRecorded r.writing written r refl h
  step-IsRecorded (stop written) r o h = stop-IsRecorded written r o h

  -- If every registry can be encoded and the writer has a path, then after events among which no
  -- save or stop comes while a thread writes, what is in memory is on the disk, on its way there, or
  -- marked to be written, if it was so before; and a text on its way has the flusher wait for it.
  pub run-IsRecorded :
      (events : List (Event M)) (r : Registry M D)
      → IsOrderly encode events r
      → IsRecorded encode r
      → IsRecorded encode (run true encode events r)
  unfolding run IsOrderly
  run-IsRecorded [] r o h = h
  run-IsRecorded (e ∷ events) r (o, os) h =
      run-IsRecorded events (step true encode e r) os (step-IsRecorded e r o h)

  write-disk :
      (o : Option D) (r : Registry M D)
      → o ≡ encode r.memory
      → (write true encode o true r).disk ≡ encode r.memory
  unfolding write
  write-disk none r e = absurd (total r.memory (sym e))
  write-disk (some d) r e = e

  to_be-none : (writing disk : Option D) → writing ≡ none → to_be writing disk ≡ disk
  to_be-none none disk w = refl
  to_be-none (some d) disk w = absurd (cc)

  stop-disk :
      (r : Registry M D)
      → IsRecorded encode r
      → r.writing ≡ none
      → (stop_flusher true encode true r).disk ≡ encode r.memory
  unfolding stop_flusher save
  stop-disk r h w = choose r.dirty h.recorded
    where
      choose :
          (b : Bool)
          → (b ≡ true) ⊎ (to_be r.writing r.disk ≡ encode r.memory)
          → Registry.disk (
              if b
              then write true encode (encode r.memory) true (record r { awaited = false })
              else record r { awaited = false })
            ≡ encode r.memory
      choose true e = write-disk (encode r.memory) (record r { awaited = false }) refl
      choose false (inl e) = absurd (cc)
      choose false (inr e) = sym (to_be-none r.writing r.disk w) ∙ e

  -- If every registry can be encoded, the writer has a path and what is in memory was on the disk,
  -- on its way there or marked, then after events among which no save or stop comes while a thread
  -- writes, a stop while no thread writes, with a disk that takes the write, leaves on the disk what
  -- is in memory.
  pub stop_flusher-run :
      (events : List (Event M)) (r : Registry M D)
      → IsOrderly encode events r
      → IsRecorded encode r
      → (run true encode events r).writing ≡ none
      → (stop_flusher true encode true (run true encode events r)).disk
        ≡ encode (run true encode events r).memory
  stop_flusher-run events r o h w =
      stop-disk (run true encode events r) (run-IsRecorded events r o h) w

module _ {ℓ κ} {M : Type ℓ} {D : Type κ} (persists : Bool) (encode : M → Option D) where
  write-memory :
      (o : Option D) (written : Bool) (r : Registry M D)
      → (write persists encode o written r).memory ≡ r.memory
  unfolding write set_dirty
  write-memory none written r = refl
  write-memory (some d) true r = refl
  write-memory (some d) false r = refl

  pub save-memory :
      (written : Bool) (r : Registry M D) → (save persists encode written r).memory ≡ r.memory
  unfolding save set_dirty
  save-memory written r = ground (arith, write-memory (encode r.memory) written r)

  pub mark_dirty-memory :
      (loop_runs written : Bool) (r : Registry M D)
      → (mark_dirty persists encode loop_runs written r).memory ≡ r.memory
  unfolding mark_dirty set_dirty
  mark_dirty-memory loop_runs written r =
      ground (arith, save-memory written (record r { dirty = true }))
