-- ===== src/Ble/Command/Sendable.antt =====
-- What `ble_command_for` of devices/ble/__init__.py gives goes out as a frame, and is read back.
use petkit_local.Prelude.{
  ℕ, ◌≤◌, String, ◌≡◌, refl, some, Bytes, length, arith, ok, Bool-cases, inl, inr, Text, [], ◌∷◌,
  str_eq, ◌||◌, ◌&&◌, subst,
}
use petkit_local.Prelude.Dict.{Dict}
use petkit_local.Prelude.Int.{ℤ, pos}
use petkit_local.Prelude.Json.{Json, num, cons, nil}
use petkit_local.Ble.Framing.{Codec, IsLawful, ble_command_frame, build_ble_frame, iter_ble_frames}
use petkit_local.Ble.Framing.RoundTrip.{relayed, entry, ble_command_frame_lem}
use petkit_local.Ble.Framing.Commands.{IsSendable, is_sendable}
use petkit_local.Ble.Ctw3.Sendable
use petkit_local.Ble.W5.Sendable as W5Sendable
use petkit_local.Ble.Command.{ble_command_for, is_w5_protocol, ctw3_writable, w5_writable}

ble_command_for-IsSendable :
    (ble_type : String) (states : Dict ℤ) (key : String) (value : ℤ)
    → IsSendable (ble_command_for ble_type states key value)
unfolding ble_command_for is_sendable
ble_command_for-IsSendable ble_type states key value =
    elim (Bool-cases (str_eq key "ctw3_reset_filter" || str_eq key "w5_reset_filter")) [
      | inl reset ↦ rw reset (refl, omega arith)
      | inr other ↦ rw other (elim (Bool-cases (str_eq ble_type "ctw3" && ctw3_writable key)) [
        | inl ctw3 ↦ rw ctw3 (Sendable.command_for-IsSendable states key value)
        | inr no_ctw3 ↦ rw no_ctw3 (elim (Bool-cases (is_w5_protocol ble_type && w5_writable key)) [
          | inl w5 ↦ rw w5 (W5Sendable.command_for-IsSendable states key value)
          | inr no_w5 ↦ rw no_w5 tt
        ])
      ])
    ]

-- Whatever command `ble_command_for` gives, for any accessory, entity and value, has a frame; its
-- payload has at most fourteen bytes; and under a lawful codec the frame, relayed back, is read as
-- that command and payload.
pub command_for-framed :
    (k : Codec)
    → IsLawful k
    → (ble_type key : String) (states : Dict ℤ) (value : ℤ) (beside : Json) (cmd seq : ℕ)
      (payload : Bytes)
    → ble_command_for ble_type states key value ≡ ok (cmd, payload)
    → (t : Text) × (ble_command_frame k cmd seq payload ≡ some t)
      × (length payload ≤ 14)
      × (iter_ble_frames k (relayed (cons (entry beside t) nil)) ≡ (num (pos cmd), payload) ∷ [])
unfolding ble_command_frame
command_for-framed k lawful ble_type key states value beside cmd seq payload h =
    let sendable : IsSendable (ok (cmd, payload)) =
      subst IsSendable h (ble_command_for-IsSendable ble_type states key value) in
    let framed : ble_command_frame k cmd seq payload ≡ some (build_ble_frame k cmd seq payload) =
      rw (sendable.0) in
    (
      build_ble_frame k cmd seq payload,
      framed,
      sendable.1,
      (ble_command_frame_lem k lawful beside cmd seq payload).0 _ framed,
    )
