-- ===== src/Ble/Ctw3/Status.antt =====
-- What the status decoder of ctw3.py lets through.
use petkit_local.Prelude.{
  ℕ, ◌<◌, ◌≡◌, refl, some, List, [], ◌∷◌, arith, Bytes, length, true, Bool-cases, inl, inr, ◌⊎◌,
  ◌||◌, false, leb, ltb, ◌+◌, ◌≢◌, ok, ◌≤◌, All, drop, length-take, length-drop, take-take,
  All-take, ap, ◌∙◌,
}
use petkit_local.Prelude.Dict.{Dict, lookup, update, erase}
use petkit_local.Prelude.Dict.Laws.{
  AllEntries-erase, AllEntries-update, AllEntries-lookup, has_key-insert, lookup_or-insert,
}
use petkit_local.Prelude.Int.{ℤ, pos}
use petkit_local.Prelude.Json.{Json, num}
use petkit_local.Ble.Framing.{Codec, iter_ble_frames}
use petkit_local.Ble.Framing.Words.{slice}
use petkit_local.Ble.Reading.{Sections, empty, is_cmd, is_real_mode}
use petkit_local.Ble.Reading.Modes.{ModeEntry, ModesAreReal}
use petkit_local.Ble.Ctw3.Settings.{ctw3_config_payload-decode_ctw3_config}
use petkit_local.Ble.Ctw3.Fields.{config_offset, config_len, min_status_len}
use petkit_local.Ble.Framing.Commands.{cmd_get_state, cmd_get_config, cmd_device_status}
use petkit_local.Ble.Ctw3.{
  decode_ctw3_config, status_fields, with_config, decode_ctw3_status, apply_frame, apply_frames,
  parse_ctw3_ble_response, ctw3_config_payload,
}

config-ModesAreReal : (tail : Bytes) → ModesAreReal (decode_ctw3_config tail)
unfolding decode_ctw3_config
config-ModesAreReal tail = elim (Bool-cases (ltb (length tail) config_len)) [
  | inl short ↦ rw short tt
  | inr long ↦ rw long (ground arith)
]

status_fields-ModesAreReal : (bs : Bytes) → ModesAreReal (status_fields bs)
unfolding status_fields is_real_mode
status_fields-ModesAreReal bs = ground arith

status-ModesAreReal : (bs : Bytes) → ModesAreReal (decode_ctw3_status bs).states
unfolding decode_ctw3_status with_config
status-ModesAreReal bs = elim (Bool-cases (ltb (length bs) min_status_len)) [
  | inl short ↦ rw short tt
  | inr long ↦ rw long (elim (Bool-cases (leb (config_offset + config_len) (length bs))) [
    | inl with_tail ↦ rw with_tail (
        AllEntries-update ModeEntry _ _ kept
          (config-ModesAreReal (slice config_offset config_len bs)))
    | inr bare ↦ rw bare kept
  ])
]
  where
    kept : ModesAreReal (erase "filterPercent" (status_fields bs))
    kept = AllEntries-erase ModeEntry "filterPercent" _ (status_fields-ModesAreReal bs)

apply_frame-ModesAreReal :
    (r : Sections) (frame : Json × Bytes)
    → ModesAreReal r.states
    → ModesAreReal (apply_frame r frame).states
unfolding apply_frame
apply_frame-ModesAreReal r (cmd, []) h = h
apply_frame-ModesAreReal r (cmd, b ∷ bs) h =
    elim (Bool-cases (is_cmd cmd_device_status cmd || is_cmd cmd_get_state cmd)) [
      | inl status ↦ rw status (AllEntries-update ModeEntry _ _ h (status-ModesAreReal (b ∷ bs)))
      | inr other ↦ rw other (elim (Bool-cases (is_cmd cmd_get_config cmd)) [
        | inl config ↦ rw config (AllEntries-update ModeEntry _ _ h (config-ModesAreReal (b ∷ bs)))
        | inr unknown ↦ rw unknown h
      ])
    ]

apply_frames-ModesAreReal :
    (r : Sections) (frames : List (Json × Bytes))
    → ModesAreReal r.states
    → ModesAreReal (apply_frames r frames).states
unfolding apply_frames
apply_frames-ModesAreReal r [] h = h
apply_frames-ModesAreReal r (frame ∷ frames) h =
    apply_frames-ModesAreReal (apply_frame r frame) frames (apply_frame-ModesAreReal r frame h)

-- Whatever a CTW3 relays, merging the decoded reading into states that hold no mode but 1 and 2
-- leaves states that hold no mode but 1 and 2: a fountain that reports 0 cannot overwrite its mode.
pub parse_mode_real :
    (k : Codec) (content : Json) (old : Dict ℤ) (v : ℤ)
    → ModesAreReal old
    → lookup "mode" (update old (parse_ctw3_ble_response k content).states) ≡ some v
    → (v ≡ pos 1) ⊎ (v ≡ pos 2)
unfolding parse_ctw3_ble_response
parse_mode_real k content old v h e =
    AllEntries-lookup ModeEntry "mode" v _
      (AllEntries-update ModeEntry old _ h
        (apply_frames-ModesAreReal empty (iter_ble_frames k content) tt))
      e refl

-- A status block shorter than 26 bytes, such as a one-byte acknowledgement, changes nothing.
pub apply_frame_short :
    (r : Sections) (cmd : ℕ) (bs : Bytes)
    → cmd ≢ cmd_get_config
    → length bs < min_status_len
    → apply_frame r (num (pos cmd), bs) ≡ r
unfolding apply_frame decode_ctw3_status
apply_frame_short r cmd [] other short = refl
apply_frame_short r cmd (b ∷ bs) other short = ground arith

-- Settings that are merged into other states are written as if they stood alone.
config_payload-update :
    (m : Dict ℤ) (tail : Bytes)
    → 12 ≤ length tail
    → ctw3_config_payload (update m (decode_ctw3_config tail))
      ≡ ctw3_config_payload (decode_ctw3_config tail)
unfolding ctw3_config_payload decode_ctw3_config
config_payload-update m tail long =
    let reaches : ltb (length tail) config_len ≡ false = ground arith in
    rw reaches (simp (has_key-insert, lookup_or-insert))

-- After a long status, a settings write with nothing changed restates the tail of that status: the
-- twelve bytes from offset 30, whatever the short half and the byte fields said.
pub ctw3_config_payload-decode_ctw3_status :
    (bs : Bytes)
    → 42 ≤ length bs
    → All (λ x. x < 256) (drop 30 bs)
    → ctw3_config_payload (decode_ctw3_status bs).states ≡ ok (some (slice 30 12 bs))
unfolding decode_ctw3_status with_config
ctw3_config_payload-decode_ctw3_status bs long small =
    let not_short : ltb (length bs) min_status_len ≡ false = ground arith in
    let reaches : leb (config_offset + config_len) (length bs) ≡ true = ground arith in
    let whole : 12 ≤ length (slice 30 12 bs) =
      omega (arith, length-take 12 (drop 30 bs), length-drop 30 bs) in
    rw
      (
        not_short,
        reaches,
        config_payload-update (erase "filterPercent" (status_fields bs)) (slice 30 12 bs) whole,
      )
      (ctw3_config_payload-decode_ctw3_config (slice 30 12 bs) whole
          (All-take (λ x. x < 256) 12 (drop 30 bs) small)
        ∙ ap (λ l. ok (some l)) (take-take 12 (drop 30 bs)))
