-- ===== src/Events/Rows.antt =====
-- The stored rows that the Timeline reads, and the values it reads out of their payloads:
-- addon/petkit_local/events/sessions.py. A row's content is its payload as decoded; times and
-- numbers are integers that count units, `unit` of them to a second or a gram, and a unit is as fine
-- as the numbers that the database holds around the present time.
use petkit_local.Prelude.{
  ℕ, ◌+◌, String, Bool, true, false, ◌&&◌, Option, none, some, List, [], ◌∷◌, str_eq, ltb, leb,
  ◌==◌, not, if◌then◌else◌,
}
use petkit_local.Prelude.Dict.{Dict, lookup}
use petkit_local.Prelude.Int.{ℤ, pos, monus, positive, pos_part, neg_part}
use petkit_local.Prelude.Json.{Json}

abbrev pub unit : ℕ
unit = 4194304

-- What stands under a key of a content, as `to_float` sees it.
pub data Reading : Type 0 where
  number : ℤ → Reading
  unreadable : Reading

abbrev pub Content : Type 0
Content = Dict Reading

pub record Event : Type 0 where
  pub id : ℕ
  pub related_event : Option String
  pub parent_event : Option String
  pub device_id : Option ℕ
  pub device_type : Option String
  pub ts : Option ℕ
  pub pet_id : Option ℕ
  pub event_type : String
  pub event_kind : Option String
  pub content : Content
  pub state : Json
  pub media : List ℕ

-- The tables of addon/petkit_local/events/codes.py that the grouping consults.
pub record CodeTables : Type 0 where
  pub is_anchor : String → Bool
  pub is_primary_done : String → Bool
  pub is_detail : String → Option String → Bool

abbrev pub kind_toilet : String
kind_toilet = "toilet_visit"

abbrev pub kind_cleaning : String
kind_cleaning = "cleaning"

abbrev pub kind_pet : String
kind_pet = "pet"

abbrev pub kind_motion : String
kind_motion = "motion"

abbrev pub kind_error : String
kind_error = "error"

abbrev pub kind_feeding : String
kind_feeding = "feeding"

abbrev pub kind_drinking : String
kind_drinking = "drinking"

-- o == s, for a text that may be missing
abbrev pub is_text : Option String → String → Bool
is_text none s = false
is_text (some r) s = str_eq r s

-- a == b, for texts that may be missing
abbrev pub same_text : Option String → Option String → Bool
same_text none none = true
same_text none (some s) = false
same_text (some r) none = false
same_text (some r) (some s) = str_eq r s

-- a == b, for ids that may be missing
abbrev pub same_id : Option ℕ → Option ℕ → Bool
same_id none none = true
same_id none (some m) = false
same_id (some n) none = false
same_id (some n) (some m) = n == m

-- The text, if it is truthy: neither missing nor empty.
abbrev pub truthy : Option String → Option String
truthy none = none
truthy (some s) = if str_eq s "" then none else some s

-- ts or 0
abbrev pub ts_or_0 : Option ℕ → ℕ
ts_or_0 none = 0
ts_or_0 (some t) = t

-- to_float(value, None), of what `.get` found
to_float : Option Reading → Option ℤ
to_float (some (number z)) = some z
to_float other = none

-- _weight_of: content.get("pet_weight", content.get("petWeight"))
unfoldable pub weight_of : Content → Option ℤ
unfolding to_float
weight_of c = elim (lookup "pet_weight" c) [
  | some r ↦ to_float (some r)
  | none ↦ to_float (lookup "petWeight" c)
]

-- _recalc_weight_of
unfoldable pub recalc_weight_of : Content → Option ℤ
unfolding to_float
recalc_weight_of c = to_float (lookup "recalc_pet_weight_g" c)

-- The time of the row that a visit is paired with, if that is another row and both have a time.
paired_start : Event → Option Event → Option ℕ
paired_start anchor none = none
paired_start anchor (some pet_in) =
    if not (pet_in.id == anchor.id) && ltb 0 (ts_or_0 pet_in.ts) then pet_in.ts else none

paired_duration : Option ℕ → ℕ → Option ℕ
paired_duration none end_ts = none
paired_duration (some start_ts) end_ts =
    if ltb 0 end_ts then some (monus (pos end_ts) (pos start_ts)) else none

span : Option ℤ → Option ℤ → Option ℕ → Option ℕ
span (some time_in) (some time_out) otherwise = some (monus time_out time_in)
span time_in time_out otherwise = otherwise

-- _duration_of
unfoldable pub duration_of : Event → Option Event → Option ℕ
unfolding to_float span paired_duration paired_start
duration_of anchor pet_in =
    span (to_float (lookup "time_in" anchor.content)) (to_float (lookup "time_out" anchor.content))
      (paired_duration (paired_start anchor pet_in) (ts_or_0 anchor.ts))

-- The first key that names a positive time.
first_positive : List String → Content → Option ℤ
unfolding to_float
first_positive [] c = none
first_positive (k ∷ ks) c =
    let rest = first_positive ks c in
    elim (to_float (lookup k c)) [ some z ↦ if positive z then some z else rest | none ↦ rest ]

pub as_time : Option ℕ → Option ℤ
as_time none = none
as_time (some t) = some (pos t)

or_time : Option ℤ → Option ℤ → Option ℤ
or_time none other = other
or_time (some t) other = some t

-- _started_at
unfoldable pub started_at : Event → Option Event → Option ℤ
unfolding first_positive as_time or_time paired_start
started_at anchor pet_in =
    or_time (first_positive ("time_in" ∷ "start_time" ∷ "mark" ∷ []) anchor.content)
      (as_time (paired_start anchor pet_in))

-- _started_at(anchor, pet_in) or anchor.get("ts")
unfoldable pub display_ts_of : Event → Option Event → Option ℤ
unfolding started_at
display_ts_of anchor pet_in = or_time (started_at anchor pet_in) (as_time anchor.ts)

-- to_int(content.get("petVoice"), 0), as a truth value
unfoldable pub has_pet_voice : Content → Bool
unfolding to_float
has_pet_voice c = elim (to_float (lookup "petVoice" c)) [
  | some z ↦ leb unit (pos_part z + neg_part z)
  | none ↦ false
]
