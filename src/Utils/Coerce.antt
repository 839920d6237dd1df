-- ===== src/Utils/Coerce.antt =====
-- `to_int` and `to_bool` of addon/petkit_local/utils/coerce.py, on JSON without fractions. The default
-- of the caller is `none` here. `str.strip`, `str.lower` and the whole part of a finite float text are
-- Python's: the record `Texts`.
pub mod Numbers
use petkit_local.Prelude.{
  ℕ, zero, suc, ◌-◌, Bool, true, false, not, ◌&&◌, ◌||◌, Option, none, some, List, [], ◌∷◌, Text,
  codes, length, leb, ◌==◌, any, if◌then◌else◌,
}
use petkit_local.Prelude.Int.{ℤ, pos, negsuc}
use petkit_local.Prelude.Digits.{is_digit, all_digits, digits_value}
use petkit_local.Prelude.Json.{Json, null, flag, num, str, raw, arr, obj}
use petkit_local.Mqtt.Topics.Segments.{text_eq, is_nonempty}
use petkit_local.Http.Redact.Objects.{int_eq}

pub record Texts : Type 0 where
  pub strip : Text → Text
  pub lower : Text → Text
  -- int(float(t)), where float(t) is finite
  pub whole_part : Text → Option ℤ

-- A text without the sign that it may have.
unfoldable pub drop_sign : Text → Text
drop_sign [] = []
drop_sign (c ∷ t) = if c == b'+' || c == b'-' then t else c ∷ t

unfoldable pub some_digits : Text → Bool
some_digits t = is_nonempty t && all_digits t

-- _INT_TEXT.match(t)
unfoldable pub is_int_text : Text → Bool
unfolding drop_sign some_digits
is_int_text t = some_digits (drop_sign t)

unfoldable pub after_digits : Text → Text
after_digits [] = []
after_digits (c ∷ t) = let rest = after_digits t in if is_digit c then rest else c ∷ t

unfoldable pub starts_digit : Text → Bool
starts_digit [] = false
starts_digit (c ∷ t) = is_digit c

-- (?:[eE][+-]?[0-9]+)?\Z
unfoldable pub is_exponent : Text → Bool
unfolding some_digits drop_sign
is_exponent [] = true
is_exponent (c ∷ t) = (c == b'e' || c == b'E') && some_digits (drop_sign t)

-- What follows the digits in front: (?:\.[0-9]*)? and the exponent.
unfoldable pub is_fraction : Text → Bool
unfolding is_exponent after_digits
is_fraction [] = true
is_fraction (c ∷ t) = if c == b'.' then is_exponent (after_digits t) else is_exponent (c ∷ t)

unfoldable pub is_dotted : Text → Bool
unfolding starts_digit is_exponent after_digits
is_dotted [] = false
is_dotted (c ∷ t) = c == b'.' && (starts_digit t && is_exponent (after_digits t))

-- _FLOAT_TEXT.match(t)
unfoldable pub is_float_text : Text → Bool
unfolding drop_sign starts_digit is_fraction after_digits is_dotted
is_float_text t =
    let u = drop_sign t in if starts_digit u then is_fraction (after_digits u) else is_dotted u

unfoldable pub signed : Bool → ℕ → ℤ
signed true zero = pos 0
signed true (suc n) = negsuc n
signed false n = pos n

unfoldable pub is_negative : Text → Bool
is_negative [] = false
is_negative (c ∷ t) = c == b'-'

-- sys.int_max_str_digits
abbrev pub max_str_digits : ℕ
max_str_digits = 4300

-- int(t) of a text that _INT_TEXT matches; more digits than the cap raise.
unfoldable pub parse_int : Text → Option ℤ
unfolding signed is_negative drop_sign
parse_int t =
    if leb (length (drop_sign t)) max_str_digits
    then some (signed (is_negative t) (digits_value 0 (drop_sign t)))
    else none

unfoldable pub int_of_bool : Bool → ℤ
int_of_bool true = pos 1
int_of_bool false = pos 0

unfoldable pub int_of_text : Texts → Text → Option ℤ
unfolding is_int_text parse_int is_float_text
int_of_text x t =
    if is_int_text t then parse_int t else (if is_float_text t then x.whole_part t else none)

-- to_int
unfoldable pub to_int : Texts → Json → Option ℤ
unfolding int_of_bool int_of_text
to_int x null = none
to_int x (flag b) = some (int_of_bool b)
to_int x (num n) = some n
to_int x (str t) = int_of_text x (x.strip t)
to_int x (raw bytes) = none
to_int x (arr items) = none
to_int x (obj fields) = none

unfoldable pub is_one_of : List Text → Text → Bool
is_one_of words t = any (text_eq t) words

-- _TRUE_TEXT and _FALSE_TEXT
abbrev pub true_text : List Text
true_text = codes "1" ∷ codes "true" ∷ codes "on" ∷ codes "yes" ∷ []

abbrev pub false_text : List Text
false_text = codes "0" ∷ codes "false" ∷ codes "off" ∷ codes "no" ∷ []

unfoldable pub bool_of_text : Text → Option Bool
unfolding is_one_of
bool_of_text t =
    if is_one_of true_text t
    then some true
    else (if is_one_of false_text t then some false else none)

unfoldable pub bool_of_int : ℤ → Option Bool
bool_of_int n =
    if int_eq n (pos 0) then some false else (if int_eq n (pos 1) then some true else none)

-- to_bool
unfoldable pub to_bool : Texts → Json → Option Bool
unfolding bool_of_int bool_of_text
to_bool x null = none
to_bool x (flag b) = some b
to_bool x (num n) = bool_of_int n
to_bool x (str t) = bool_of_text (x.lower (x.strip t))
to_bool x (raw bytes) = none
to_bool x (arr items) = none
to_bool x (obj fields) = none
