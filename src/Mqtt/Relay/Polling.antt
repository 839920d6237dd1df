-- ===== src/Mqtt/Relay/Polling.antt =====
-- What a poll of a parent's accessories sends, and which throttles it arms.
use petkit_local.Prelude.{
  ℕ, zero, suc, ◌+◌, ◌≡◌, Bool, false, not, Option, none, some, List, [], ◌∷◌, ◌++◌, ltb, ◌==◌,
  if◌then◌else◌, All, any, filter,
}
use petkit_local.Prelude.Int.{ℤ, pos, negsuc}
use petkit_local.Mqtt.Relay.{Accessory, Relay, Published, Table, get_or_0, non_k3_for_parent}
use petkit_local.Mqtt.Relay.Writing.{opening}

-- Whether an accessory that was last asked at a time is left alone now: for its interval, for 240
-- seconds when it has none, and with a negative one only if it was asked so far in the future.
abbrev pub held : ℕ → ℤ → ℕ → Bool
held now (pos zero) last = ltb now (last + 240)
held now (pos (suc n)) last = ltb now (last + suc n)
held now (negsuc n) last = ltb (now + suc n) last

-- The accessories that are not left alone.
abbrev pub due : ℕ → Table → List Accessory → List Accessory
due now asked accessories =
    filter (λ a. not (held now a.interval (get_or_0 asked a.petkit_id))) accessories

-- The openings that are sent at the turns of the accessories, those without a connection left out.
abbrev pub opening_at : Option ℕ → ℕ → Accessory → List Published
opening_at none parent a = []
opening_at (some now) parent a = opening now parent a ∷ []

abbrev pub openings : (ℕ → Option ℕ) → ℕ → List Accessory → List Published
openings turn parent [] = []
openings turn parent (a ∷ rest) =
    opening_at (turn a.petkit_id) parent a ++ openings turn parent rest

-- No id occurs twice.
abbrev pub AreDistinct : List Accessory → Type 0
AreDistinct [] = Unit
AreDistinct (a ∷ rest) = All (λ b. (b.petkit_id == a.petkit_id) ≡ false) rest × AreDistinct rest

-- What was sent and the times of the polls after a turn.
record Polled (turn : ℕ → Option ℕ) (now parent : ℕ) (st : Relay) (chosen : List Accessory)
    (after : Relay) : Type 0 where
  sent_to : after.sent ≡ st.sent ++ openings turn parent chosen
  armed :
      (id : ℕ)
      → after.poll_ts id ≡ (if any (λ a. a.petkit_id == id) chosen then some now else st.poll_ts id)

-- The accessories that a poll asks: none without a connection.
abbrev pub polled : Bool → ℕ → ℕ → List Accessory → Relay → List Accessory
polled connected now parent accessories st =
    if connected then due now st.poll_ts (non_k3_for_parent parent accessories) else []
