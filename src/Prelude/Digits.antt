-- ===== src/Prelude/Digits.antt =====
-- Python's str and int on integers: decimal digits with a sign.
use Prim.Native.Nat.{ℕ, zero, suc, ◌+◌, ◌-◌, ◌*◌, ◌/◌, ◌%◌, ◌<◌}
use mathlib.Core.Path.{◌≡◌, refl}
use mathlib.Core.Bool.{Bool, true, ◌&&◌}
use mathlib.Core.List.{[], ◌∷◌, ◌++◌}
use native.Mathlib.Omega.{arith}
use petkit_local.Prelude.Tests.{ltb, leb, if◌then◌else◌, Bool-cases}
use petkit_local.Prelude.Lists.{Text}
use petkit_local.Prelude.Int.{ℤ, pos, negsuc}
use mathlib.Core.Logic.{inl, inr}

-- The digits of a number, on fuel.
unfoldable pub decimal : ℕ → ℕ → Text
decimal zero n = []
decimal (suc fuel) n =
    let front = decimal fuel (n / 10) in
    if ltb n 10 then (b'0' + n) ∷ [] else front ++ (b'0' + n % 10) ∷ []

-- str(n); a number has fewer digits than one more than itself.
unfoldable pub str_int : ℤ → Text
unfolding decimal
str_int (pos n) = decimal (suc n) n
str_int (negsuc n) = b'-' ∷ decimal (suc (suc n)) (suc n)

unfoldable pub is_digit : ℕ → Bool
is_digit c = leb b'0' c && leb c b'9'

unfoldable pub all_digits : Text → Bool
unfolding is_digit
all_digits [] = true
all_digits (c ∷ t) = is_digit c && all_digits t

-- The number that digits write, after a number.
unfoldable pub digits_value : ℕ → Text → ℕ
digits_value n [] = n
digits_value n (c ∷ t) = digits_value (10 * n + (c - b'0')) t

pub all_digits-append :
    (s t : Text) → all_digits s ≡ true → all_digits t ≡ true → all_digits (s ++ t) ≡ true
unfolding all_digits
all_digits-append [] t h k = k
all_digits-append (c ∷ s) t h k = ground (arith, all_digits-append s t)

pub digits_value-append :
    (n : ℕ) (s t : Text) → digits_value n (s ++ t) ≡ digits_value (digits_value n s) t
unfolding digits_value
digits_value-append n [] t = refl
digits_value-append n (c ∷ s) t = digits_value-append (10 * n + (c - b'0')) s t

digit-is_digit : (n : ℕ) → n < 10 → is_digit (b'0' + n) ≡ true
unfolding is_digit
digit-is_digit n h = ground arith

pub decimal-all_digits : (fuel n : ℕ) → all_digits (decimal fuel n) ≡ true
unfolding decimal
decimal-all_digits zero n = unfold all_digits in refl
decimal-all_digits (suc fuel) n = elim (Bool-cases (ltb n 10)) [
  | inl h ↦ rw h (unfold all_digits in ground (arith, digit-is_digit n))
  | inr h ↦ rw h (
      all_digits-append (decimal fuel (n / 10)) _ (decimal-all_digits fuel (n / 10))
        (unfold all_digits in ground (arith, digit-is_digit (n % 10))))
]

-- With more fuel than the number the digits write it.
pub digits_value-decimal : (fuel n : ℕ) → n < fuel → digits_value 0 (decimal fuel n) ≡ n
unfolding decimal
digits_value-decimal zero n h = omega arith
digits_value-decimal (suc fuel) n h = elim (Bool-cases (ltb n 10)) [
  | inl small ↦ rw small (unfold digits_value in omega arith)
  | inr big ↦
      rw
        (
          big,
          digits_value-append 0 (decimal fuel (n / 10)) ((b'0' + n % 10) ∷ []),
          digits_value-decimal fuel (n / 10) (ground arith),
        )
        (unfold digits_value in omega arith)
]
