-- ===== src/Http/Redact/Bodies/Clean.antt =====
-- That what addon/petkit_local/http/redact/__init__.py hands to a device has no shell command in it.
use petkit_local.Prelude.{
  and-left, and-right, not-false, ℕ, zero, suc, [], String, ◌≡◌, refl, Bool, true, false, not, ◌&&◌,
  Option, none, some, ◌⊎◌, inl, inr, Bytes, Text, Bool-cases, if◌then◌else◌, str_eq, codes,
}
use petkit_local.Prelude.Json.{Json, obj, Fields, end, field}
use petkit_local.Http.Redact.{Out, Device, JsonCodec, Policy, nothing_found}
use petkit_local.Http.Redact.Objects.{has_field, put_field}
use petkit_local.Http.Redact.Rules.{has_rce}
use petkit_local.Http.Redact.Ours.{All-put_field}
use petkit_local.Http.Redact.Walker.{Walked, embedded}
use petkit_local.Http.Redact.Walker.Clean.{IsClean, is_clean, all_values, Kept, Good}
use petkit_local.Http.Redact.Walker.Safe.{
  ReadsBack, walk-IsSound, plain-IsClean, rce_test, any_field-AllFields, AllFields-any_field,
}
use petkit_local.Http.Redact.Bodies.{
  decode, close_frame, redact_mqtt, redact_body, empty_result, is_ota_endpoint,
  is_log_upload_endpoint, is_serverinfo_endpoint, ota_answer, log_answer, log_upload_done,
  log_upload_answer, token_or_empty, serverinfo_answer, redact_decoded, answer, close_body,
  restore_result, local_answer, last_segment,
}

all_values-put_field :
    (test : Json → Bool) (k : String) (v : Json) (fs : Fields)
    → test v ≡ true
    → all_values test fs ≡ true
    → all_values test (put_field k v fs) ≡ true
unfolding all_values put_field
all_values-put_field test k v end p h = rw p refl
all_values-put_field test k v (field j w fs) p h = elim (Bool-cases (str_eq j k)) [
  | inl e ↦ rw e (rw p (and-right (test w) _ h))
  | inr e ↦
      rw e
        (rw (and-left (test w) _ h) (all_values-put_field test k v fs p (and-right (test w) _ h)))
]

if-holds {ℓ κ} :
    {A : Type ℓ} (P : A → Type κ) (b : Bool) (x y : A) → P x → P y → P (if b then x else y)
if-holds P true x y p q = p
if-holds P false x y p q = q

-- An answer of the device's own.
pub IsOwn : Policy → Json → Type 0
IsOwn policy v =
    (d : Device) × (policy.device ≡ some d × ((v ≡ d.serverinfo) ⊎ (v ≡ obj d.log_upload_token)))

module _ (codec : JsonCodec) (reads : ReadsBack codec) where
  end-IsClean : IsClean codec (obj end)
  unfolding is_clean has_rce all_values
  end-IsClean zero = refl
  end-IsClean (suc n) = refl

  obj-IsClean :
      (fs : Fields)
      → has_rce fs ≡ false
      → ((n : ℕ) → all_values (is_clean codec n) fs ≡ true)
      → IsClean codec (obj fs)
  unfolding is_clean
  obj-IsClean fs r all zero = refl
  obj-IsClean fs r all (suc n) = rw r (all n)

  IsClean-has_rce : (fs : Fields) → IsClean codec (obj fs) → has_rce fs ≡ false
  unfolding is_clean
  IsClean-has_rce fs h = not-false (has_rce fs) (and-left _ _ (h 1))

  IsClean-all_values :
      (fs : Fields) → IsClean codec (obj fs) → (n : ℕ) → all_values (is_clean codec n) fs ≡ true
  unfolding is_clean
  IsClean-all_values fs h n = and-right (not (has_rce fs)) _ (h (suc n))

  put_result-IsClean :
      (fs : Fields) → IsClean codec (obj fs) → IsClean codec (obj (put_field "result" (obj end) fs))
  unfolding has_rce
  put_result-IsClean fs h =
      obj-IsClean _
        (AllFields-any_field rce_test _ (
          All-put_field (λ k v. rce_test k v ≡ false) "result" (obj end) fs refl
            (any_field-AllFields rce_test fs (IsClean-has_rce fs h))))
        (λ n.
          all_values-put_field (is_clean codec n) "result" (obj end) fs (end-IsClean n)
            (IsClean-all_values fs h n))

  empty_result-IsClean : IsClean codec empty_result
  unfolding put_field
  empty_result-IsClean = put_result-IsClean end end-IsClean

  log_upload_done-IsClean : IsClean codec log_upload_done
  unfolding has_rce all_values embedded
  log_upload_done-IsClean =
      obj-IsClean _ refl (λ n. rw (plain-IsClean codec reads (codes "success") refl n) refl)

  restore_result-IsClean :
      (upstream cleaned : Json)
      → IsClean codec cleaned
      → IsClean codec (restore_result upstream cleaned)
  unfolding restore_result
  restore_result-IsClean (obj fs) (obj gs) h =
      elim (Bool-cases (has_field "result" fs && not (has_field "result" gs))) [
        | inl e ↦ rw e (put_result-IsClean gs h)
        | inr e ↦ rw e h
      ]
  restore_result-IsClean upstream cleaned h = h

  close_body-IsClean :
      (node : Json) (got : Walked)
      → Kept (Good codec node) got
      → IsClean codec (close_body node got)
  unfolding close_body
  close_body-IsClean node Walked.drop k = empty_result-IsClean
  close_body-IsClean node (Walked.keep cleaned) k = restore_result-IsClean node cleaned k.0

  close_frame-IsClean :
      (node : Json) (got : Walked) → Kept (Good codec node) got → IsClean codec (close_frame got)
  unfolding close_frame
  close_frame-IsClean node Walked.drop k = end-IsClean
  close_frame-IsClean node (Walked.keep cleaned) k = k.0

  -- An answer in place of the upstream's is clean, or the device's own.
  IsFine : Policy → Option (Json × Out) → Type 0
  IsFine policy none = Unit
  IsFine policy (some (v, out)) = IsClean codec v ⊎ IsOwn policy v

  token_or_empty-IsFine :
      (policy : Policy) (device : Option Device)
      → policy.device ≡ device
      → IsClean codec (token_or_empty device) ⊎ IsOwn policy (token_or_empty device)
  unfolding token_or_empty IsOwn
  token_or_empty-IsFine policy none e = inl empty_result-IsClean
  token_or_empty-IsFine policy (some d) e =
      if-holds (λ v. IsClean codec v ⊎ IsOwn policy v) _ (obj d.log_upload_token) empty_result
        (inr (d, (e, inr refl))) (inl empty_result-IsClean)

  log_upload_answer-IsFine :
      (policy : Policy) (name : Text)
      → IsClean codec (log_upload_answer name policy) ⊎ IsOwn policy (log_upload_answer name policy)
  unfolding log_upload_answer
  log_upload_answer-IsFine policy name =
      if-holds (λ v. IsClean codec v ⊎ IsOwn policy v) _ log_upload_done
        (token_or_empty policy.device) (inl log_upload_done-IsClean)
        (token_or_empty-IsFine policy policy.device refl)

  serverinfo_answer-IsFine :
      (policy : Policy) (forced : Bool) (device : Option Device) (upstream : Json)
      → policy.device ≡ device
      → IsFine policy (serverinfo_answer forced device upstream)
  unfolding serverinfo_answer IsFine IsOwn
  serverinfo_answer-IsFine policy false device upstream e = tt
  serverinfo_answer-IsFine policy true none upstream e = tt
  serverinfo_answer-IsFine policy true (some d) upstream e = inr (d, (e, inl refl))

  local_answer-IsFine :
      (policy : Policy) (name : Text) (upstream : Json)
      → IsFine policy (local_answer policy name upstream)
  unfolding local_answer IsFine ota_answer log_answer
  local_answer-IsFine policy name upstream =
      if-holds (IsFine policy) (policy.block_ota && is_ota_endpoint name)
        (some (ota_answer upstream)) _ (inl empty_result-IsClean)
        (if-holds (IsFine policy) (policy.block_log_upload && is_log_upload_endpoint name)
          (some (log_answer name policy upstream))
          (serverinfo_answer (is_serverinfo_endpoint name) policy.device upstream)
          (log_upload_answer-IsFine policy name)
          (serverinfo_answer-IsFine policy _ policy.device upstream refl))

  module _ (policy : Policy) (on : policy.block_rce ≡ true) where
    -- A frame that can be decoded is sent on as the compact text of a value that is clean at every depth, if
    -- shell commands are blocked and json.loads reads back what json.dumps writes.
    pub redact_mqtt-IsClean :
        (fuel : ℕ) (payload : Bytes) (frame : Json)
        → decode codec payload ≡ some frame
        → (sent : Json) × ((redact_mqtt codec fuel policy payload).body
              ≡ codec.dumps_compact_bytes sent
            × IsClean codec sent)
    unfolding redact_mqtt
    redact_mqtt-IsClean fuel payload frame e = rw e (
      _,
      (
        refl,
        close_frame-IsClean frame _
            (walk-IsSound codec reads policy on fuel [] false frame nothing_found),
      ),
    )

    answer-IsClean :
        (fuel : ℕ) (upstream : Json) (ours : Option (Json × Out))
        → IsFine policy ours
        → (sent : Json) × (((answer codec fuel policy upstream ours).body ≡ codec.dumps_bytes sent)
            × (IsClean codec sent ⊎ IsOwn policy sent))
    unfolding answer IsFine
    answer-IsClean fuel upstream none fine = (
      _,
      (
        refl,
        inl (
            close_body-IsClean upstream _
              (walk-IsSound codec reads policy on fuel [] false upstream nothing_found)),
      ),
    )
    answer-IsClean fuel upstream (some (v, out)) fine = (v, (refl, fine))

    -- A body that can be decoded goes to the device as the text of a value that is clean at every depth, or
    -- that is the device's own server list or log-upload token, if shell commands are blocked and
    -- json.loads reads back what json.dumps writes.
    pub redact_body-IsClean :
        (fuel : ℕ) (endpoint : Text) (body : Bytes) (upstream : Json)
        → decode codec body ≡ some upstream
        → (sent : Json) × (((redact_body codec fuel policy endpoint body).body
              ≡ codec.dumps_bytes sent)
            × (IsClean codec sent ⊎ IsOwn policy sent))
    unfolding redact_body redact_decoded
    redact_body-IsClean fuel endpoint body upstream e = rw e (
        answer-IsClean fuel upstream _
          (local_answer-IsFine policy (last_segment endpoint) upstream))
