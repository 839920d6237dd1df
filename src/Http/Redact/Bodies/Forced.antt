-- ===== src/Http/Redact/Bodies/Forced.antt =====
-- The endpoints that addon/petkit_local/http/redact/__init__.py answers itself.
use petkit_local.Prelude.{
  ℕ, zero, suc, ◌≡◌, refl, Bool, true, false, ◌++◌, List, [], ◌∷◌, ◌==◌, any, if◌then◌else◌, Text,
  arith, Bool-cases, inl, inr, subst, sym, All, codes, Bytes, some, length,
}
use petkit_local.Prelude.Json.{Json}
use petkit_local.Http.Redact.{
  Rule, Device, JsonCodec, Policy, nothing_found, add_record, is_blocking,
}
use petkit_local.Http.Redact.Objects.{text_eq}
use petkit_local.Mqtt.Topics.Segments.{text_eq→eq}
use petkit_local.Http.Redact.Bodies.{
  decode, redact_body, redact_decoded, local_answer, answer, blocked, empty_result,
  offers_an_update, is_ota_endpoint, is_log_upload_endpoint, is_serverinfo_endpoint, ota_answer,
  log_answer, serverinfo_answer, strip_slashes, after_slash, last_segment, keep_slash,
}

abbrev pub slashes : ℕ → Text
slashes zero = []
slashes (suc n) = b'/' ∷ slashes n

abbrev has_slash : Text → Bool
has_slash t = any (λ c. c == b'/') t

after_slash-plain : (name : Text) → has_slash name ≡ false → after_slash name ≡ name
unfolding after_slash
after_slash-plain [] h = refl
after_slash-plain (c ∷ name) h = ground (arith, after_slash-plain name)

has_slash-append : (p name : Text) → has_slash (p ++ b'/' ∷ name) ≡ true
has_slash-append [] name = refl
has_slash-append (c ∷ p) name = ground (arith, has_slash-append p name)

after_slash-append :
    (p name : Text) → has_slash name ≡ false → after_slash (p ++ b'/' ∷ name) ≡ name
unfolding after_slash
after_slash-append [] name h = rw h refl
after_slash-append (c ∷ p) name h = rw (has_slash-append p name, after_slash-append p name h) refl

strip_slashes-slashes : (n : ℕ) → strip_slashes (slashes n) ≡ []
unfolding strip_slashes
strip_slashes-slashes zero = refl
strip_slashes-slashes (suc n) = rw (strip_slashes-slashes n) refl

strip_slashes-plain :
    (name : Text) (n : ℕ) → has_slash name ≡ false → strip_slashes (name ++ slashes n) ≡ name
unfolding strip_slashes keep_slash
strip_slashes-plain [] n h = strip_slashes-slashes n
strip_slashes-plain (c ∷ name) n h =
    rw (strip_slashes-plain name n (ground arith)) (keep_plain c name (ground arith))
  where
    keep_plain : (c : ℕ) (t : Text) → (c == b'/') ≡ false → keep_slash c t ≡ c ∷ t
    keep_plain c [] h = rw h refl
    keep_plain c (d ∷ t) h = refl

strip_slashes-append :
    (p : Text) (c : ℕ) (name : Text) (n : ℕ)
    → has_slash (c ∷ name) ≡ false
    → strip_slashes (p ++ b'/' ∷ (c ∷ name) ++ slashes n) ≡ p ++ b'/' ∷ c ∷ name
unfolding strip_slashes keep_slash
strip_slashes-append [] c name n h = rw (strip_slashes-plain (c ∷ name) n h) refl
strip_slashes-append (d ∷ []) c name n h = rw (strip_slashes-append [] c name n h) refl
strip_slashes-append (d ∷ e ∷ p) c name n h = rw (strip_slashes-append (e ∷ p) c name n h) refl

-- The path prefix/name, with any number of slashes after it.
abbrev pub path_of : Text → Text → ℕ → Text
path_of prefix name n = prefix ++ b'/' ∷ name ++ slashes n

pub last_segment_lem :
    (prefix : Text) (c : ℕ) (name : Text) (n : ℕ)
    → has_slash (c ∷ name) ≡ false
    → last_segment (path_of prefix (c ∷ name) n) ≡ c ∷ name
unfolding last_segment
last_segment_lem prefix c name n h =
    rw (strip_slashes-append prefix c name n h) (after_slash-append prefix (c ∷ name) h)

any-member :
    (P : Text → Type 0) (name : Text) (names : List Text)
    → All P names
    → any (text_eq name) names ≡ true
    → P name
any-member P name [] all h = absurd (cc)
any-member P name (t ∷ names) (p, all) h = elim (Bool-cases (text_eq name t)) [
  | inl e ↦ subst P (sym (text_eq→eq name t e)) p
  | inr e ↦ any-member P name names all (ground arith)
]

-- The endpoints that are answered here.
abbrev pub own_endpoints : List Text
own_endpoints =
    codes "dev_ota_check"
    ∷ codes "dev_ota_heartbeat"
    ∷ codes "dev_upload_log_token"
    ∷ codes "dev_upload_log"
    ∷ codes "dev_serverinfo"
    ∷ []

own_endpoint-last_segment :
    (prefix name : Text) (n : ℕ)
    → any (text_eq name) own_endpoints ≡ true
    → last_segment (path_of prefix name n) ≡ name
own_endpoint-last_segment prefix name n h =
    any-member (λ t. last_segment (path_of prefix t n) ≡ t) name own_endpoints
      (
        last_segment_lem prefix _ _ n refl,
        (
          last_segment_lem prefix _ _ n refl,
          (
            last_segment_lem prefix _ _ n refl,
            (last_segment_lem prefix _ _ n refl, (last_segment_lem prefix _ _ n refl, tt)),
          ),
        ),
      )
      h

ota_is_own : (name : Text) → is_ota_endpoint name ≡ true → any (text_eq name) own_endpoints ≡ true
unfolding is_ota_endpoint
ota_is_own name h = ground arith

last_is_serverinfo :
    (name : Text)
    → any (text_eq name) own_endpoints ≡ true
    → is_ota_endpoint name ≡ false
    → is_log_upload_endpoint name ≡ false
    → is_serverinfo_endpoint name ≡ true
unfolding is_ota_endpoint is_log_upload_endpoint is_serverinfo_endpoint
last_is_serverinfo name h a b = ground arith

module _ (codec : JsonCodec) (fuel : ℕ) (policy : Policy) where
  -- With OTA blocked, whatever the upstream said in an answer that can be decoded, the OTA endpoints give
  -- an empty result in its place, under every prefix and with any number of slashes at the end, and one
  -- attempt is recorded exactly if the upstream offered something.
  pub redact_body-ota :
      policy.block_ota ≡ true
      → (prefix name : Text) (n : ℕ) → is_ota_endpoint name ≡ true
      → (body : Bytes) (upstream : Json) → decode codec body ≡ some upstream
      → ((redact_body codec fuel policy (path_of prefix name n) body).body
          ≡ codec.dumps_bytes empty_result)
        × (length (blocked (redact_body codec fuel policy (path_of prefix name n) body).out)
            ≡ (if offers_an_update upstream then 1 else 0))
  unfolding redact_body redact_decoded local_answer answer ota_answer blocked is_blocking add_record
  redact_body-ota on prefix name n h body upstream e =
      rw (e, own_endpoint-last_segment prefix name n (ota_is_own name h), on, h)
        (refl, choose (offers_an_update upstream))
    where
      choose :
          (b : Bool)
          → length (
              blocked (
                if b
                then add_record Rule.ota [] upstream (some empty_result) nothing_found
                else nothing_found))
            ≡ (if b then 1 else 0)
      choose true = refl
      choose false = refl

  local_answer-own :
      (d : Device)
      → policy.block_ota ≡ true
      → policy.block_log_upload ≡ true
      → policy.device ≡ some d
      → (name : Text) → any (text_eq name) own_endpoints ≡ true
      → (first second : Json)
      → (answer codec fuel policy first (local_answer policy name first)).body
        ≡ (answer codec fuel policy second (local_answer policy name second)).body
  unfolding local_answer answer ota_answer log_answer serverinfo_answer
  local_answer-own d no_ota no_log known name h first second =
      elim (Bool-cases (is_ota_endpoint name)) [
        | inl e ↦ rw (no_ota, e) refl
        | inr e ↦ elim (Bool-cases (is_log_upload_endpoint name)) [
          | inl k ↦ rw (no_ota, no_log, e, k) refl
          | inr k ↦ rw (no_ota, no_log, e, k, last_is_serverinfo name h e k, known) refl
        ]
      ]

  -- With OTA and log uploads blocked and a known device, what a device gets from the OTA, the log-upload
  -- and the server list endpoints is the same for any two answers of the upstream that can be decoded,
  -- under every prefix and with any number of slashes at the end.
  pub redact_body-own :
      (d : Device)
      → policy.block_ota ≡ true
      → policy.block_log_upload ≡ true
      → policy.device ≡ some d
      → (prefix name : Text) (n : ℕ) → any (text_eq name) own_endpoints ≡ true
      → (body other : Bytes) (first second : Json) → decode codec body ≡ some first
      → decode codec other ≡ some second
      → (redact_body codec fuel policy (path_of prefix name n) body).body
        ≡ (redact_body codec fuel policy (path_of prefix name n) other).body
  unfolding redact_body redact_decoded
  redact_body-own d no_ota no_log known prefix name n h body other first second e k =
      rw (e, k, own_endpoint-last_segment prefix name n h)
        (local_answer-own d no_ota no_log known name h first second)
