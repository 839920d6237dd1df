-- ===== src/Devices/Registry/Persistence.antt =====
-- Signups of addon/petkit_local/devices/registry.py together with the writer that the registry
-- inherits: `get_or_create` and `remove` on a registry that is kept on the disk.
use petkit_local.Prelude.{Bool, true, Option, List, [], ◌∷◌, Text}
use petkit_local.Prelude.Int.{ℤ}
use petkit_local.Prelude.Json.{Fields}
use petkit_local.Devices.Persisted.{Registry, Event, change, register, run}
use petkit_local.Devices.Registry.{
  Contact, Minted, Table, Write, unwritten, marked, saved, get_or_create,
}

-- The write that the call asks for, as an event of the writer.
unfoldable pub writes : Write → (t : Table) (loop_runs written : Bool) → List (Event Table)
writes unwritten t loop_runs written = []
writes marked t loop_runs written = change t loop_runs written ∷ []
writes saved t loop_runs written = register t written ∷ []

module _ {κ} {D : Type κ} (encode : Table → Option D) (default_settings : Text → Fields) where
  -- get_or_create on the registry that the writer keeps
  unfoldable pub sign_up :
      ℤ → Text → Contact → Minted → (loop_runs written : Bool) → Registry Table D → Registry Table D
  unfolding get_or_create writes run
  sign_up pid device_type c minted loop_runs written r =
      let o = get_or_create default_settings pid device_type c minted r.memory in
      run true encode (writes o.write o.devices loop_runs written) r
