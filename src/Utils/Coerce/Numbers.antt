-- ===== src/Utils/Coerce/Numbers.antt =====
-- The numbers that addon/petkit_local/utils/coerce.py reads from texts.
use petkit_local.Prelude.{
  ◌≡◌, refl, ap, ◌∙◌, inl, inr, ℕ, suc, ◌≤◌, Bool, true, false, ◌&&◌, ◌||◌, none, some, [], ◌∷◌,
  ◌++◌, Text, length, ◌==◌, arith, Bool-cases, ◌/◌, ◌%◌, ◌+◌, and-left, and-right,
}
use petkit_local.Prelude.Int.{ℤ, pos, negsuc}
use petkit_local.Prelude.Digits.{
  decimal, str_int, is_digit, all_digits, digits_value, decimal-all_digits, digits_value-decimal,
}
use petkit_local.Prelude.Json.{str}
use petkit_local.Mqtt.Topics.Segments.{is_nonempty}
use petkit_local.Utils.Coerce.{
  Texts, after_digits, is_exponent, is_fraction, is_dotted, is_float_text, drop_sign, some_digits,
  is_int_text, signed, is_negative, max_str_digits, parse_int, int_of_text, to_int,
}

digit_unsigned : (c : ℕ) → is_digit c ≡ true → ((c == b'+') || (c == b'-')) ≡ false
unfolding is_digit
digit_unsigned c h = ground arith

-- A text of digits has no sign.
drop_sign-digits : (t : Text) → all_digits t ≡ true → drop_sign t ≡ t
unfolding drop_sign all_digits
drop_sign-digits [] h = refl
drop_sign-digits (c ∷ t) h = rw (digit_unsigned c (and-left (is_digit c) _ h)) refl

positive-digits : (t : Text) → all_digits t ≡ true → is_negative t ≡ false
unfolding is_negative all_digits is_digit
positive-digits [] h = refl
positive-digits (c ∷ t) h = ground arith

append_one-nonempty : (s : Text) (c : ℕ) → is_nonempty (s ++ c ∷ []) ≡ true
unfolding is_nonempty
append_one-nonempty [] c = refl
append_one-nonempty (d ∷ s) c = refl

decimal-nonempty : (fuel n : ℕ) → is_nonempty (decimal (suc fuel) n) ≡ true
unfolding decimal
decimal-nonempty fuel n = ground (
  arith,
  append_one-nonempty (decimal fuel (n / 10)) (b'0' + n % 10),
  append_one-nonempty [] (b'0' + n),
)

-- A sign that is written before digits, and the digits.
int_of_digits :
    (x : Texts) (t : Text)
    → is_nonempty t ≡ true
    → all_digits t ≡ true
    → length t ≤ max_str_digits
    → int_of_text x t ≡ some (pos (digits_value 0 t))
unfolding int_of_text is_int_text some_digits parse_int signed
int_of_digits x t n d h = rw (drop_sign-digits t d, n, d, positive-digits t d) (ground arith)

int_of_negative :
    (x : Texts) (t : Text)
    → is_nonempty t ≡ true
    → all_digits t ≡ true
    → length t ≤ max_str_digits
    → int_of_text x (b'-' ∷ t) ≡ some (signed true (digits_value 0 t))
unfolding int_of_text is_int_text some_digits parse_int drop_sign is_negative
int_of_negative x t n d h = rw (n, d) (ground arith)

str_int-read :
    (x : Texts) (n : ℤ) → length (str_int n) ≤ max_str_digits → int_of_text x (str_int n) ≡ some n
unfolding str_int
str_int-read x (pos n) h =
    int_of_digits x (decimal (suc n) n) (decimal-nonempty n n) (decimal-all_digits (suc n) n) h
    ∙ ap (λ v. some (pos v)) (digits_value-decimal (suc n) n (omega arith))
str_int-read x (negsuc n) h =
    int_of_negative x (decimal (suc (suc n)) (suc n)) (decimal-nonempty (suc n) (suc n))
      (decimal-all_digits (suc (suc n)) (suc n)) (omega arith)
    ∙ rw (digits_value-decimal (suc (suc n)) (suc n) (omega arith)) (unfold signed in refl)

-- A character that a number may be written with.
unfoldable pub is_number_char : ℕ → Bool
is_number_char c =
    is_digit c || (c == b'+' || (c == b'-' || (c == b'.' || (c == b'e' || c == b'E'))))

unfoldable pub is_number_like : Text → Bool
unfolding is_number_char
is_number_like [] = true
is_number_like (c ∷ t) = is_number_char c && is_number_like t

like-digits : (t : Text) → all_digits t ≡ true → is_number_like t ≡ true
unfolding is_number_like is_number_char all_digits
like-digits [] h = refl
like-digits (c ∷ t) h = ground (arith, like-digits t)

like-some_digits : (t : Text) → some_digits t ≡ true → is_number_like t ≡ true
unfolding some_digits
like-some_digits t h = like-digits t (and-right (is_nonempty t) _ h)

like-drop_sign : (t : Text) → is_number_like (drop_sign t) ≡ true → is_number_like t ≡ true
unfolding is_number_like is_number_char drop_sign
like-drop_sign [] h = refl
like-drop_sign (c ∷ t) h = ground arith

like-after_digits : (t : Text) → is_number_like (after_digits t) ≡ true → is_number_like t ≡ true
unfolding is_number_like is_number_char after_digits
like-after_digits [] h = refl
like-after_digits (c ∷ t) h = ground (arith, like-after_digits t)

like-is_exponent : (t : Text) → is_exponent t ≡ true → is_number_like t ≡ true
unfolding is_number_like is_number_char is_exponent
like-is_exponent [] h = refl
like-is_exponent (c ∷ t) h = ground (arith, like-drop_sign t, like-some_digits (drop_sign t))

like-is_fraction : (t : Text) → is_fraction t ≡ true → is_number_like t ≡ true
unfolding is_fraction
like-is_fraction [] h = unfold is_number_like in refl
like-is_fraction (c ∷ t) h = elim (Bool-cases (c == b'.')) [
  | inl e ↦
      unfold is_number_like is_number_char in
      ground (arith, like-after_digits t, like-is_exponent (after_digits t))
  | inr e ↦ like-is_exponent (c ∷ t) (ground arith)
]

like-is_dotted : (t : Text) → is_dotted t ≡ true → is_number_like t ≡ true
unfolding is_number_like is_number_char is_dotted
like-is_dotted [] h = refl
like-is_dotted (c ∷ t) h = ground (arith, like-after_digits t, like-is_exponent (after_digits t))

like-is_float_text : (t : Text) → is_float_text t ≡ true → is_number_like t ≡ true
unfolding is_float_text
like-is_float_text t h = ground (
  arith,
  like-drop_sign t,
  like-after_digits (drop_sign t),
  like-is_fraction (after_digits (drop_sign t)),
  like-is_dotted (drop_sign t),
)

like-is_int_text : (t : Text) → is_int_text t ≡ true → is_number_like t ≡ true
unfolding is_int_text
like-is_int_text t h = like-drop_sign t (like-some_digits (drop_sign t) h)

-- to_int reads an integer back from its decimal text, if that has at most 4300 characters and strip
-- leaves it alone; and it gives the default for every text that has, once stripped, a character that is
-- no digit, sign, point or exponent mark, as an underscore is.
pub to_int-str_int :
    (x : Texts) (n : ℤ)
    → length (str_int n) ≤ max_str_digits
    → x.strip (str_int n) ≡ str_int n
    → (t : Text) → is_number_like (x.strip t) ≡ false
    → (to_int x (str (str_int n)) ≡ some n) × (to_int x (str t) ≡ none)
unfolding to_int
to_int-str_int x n h e t bad = (
  rw e (str_int-read x n h),
  unfold int_of_text in
      ground (arith, like-is_int_text (x.strip t), like-is_float_text (x.strip t)),
)
