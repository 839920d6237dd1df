-- ===== src/Prelude/Int.antt =====
-- Signed integers over the native numbers, under the library's names.
use petkit_local.Prelude.{ℕ, suc, ◌+◌, ◌-◌, Bool, ltb}

-- `negsuc n` is -(n + 1).
pub data ℤ : Type 0 where
  pos : ℕ → ℤ
  negsuc : ℕ → ℤ

abbrev pub pos_part : ℤ → ℕ
pos_part (pos n) = n
pos_part (negsuc n) = 0

abbrev pub neg_part : ℤ → ℕ
neg_part (pos n) = 0
neg_part (negsuc n) = suc n

-- max(0, a - b)
abbrev pub monus : ℤ → ℤ → ℕ
monus a b = pos_part a + neg_part b - (pos_part b + neg_part a)

-- a > 0
abbrev pub positive : ℤ → Bool
positive a = ltb 0 (pos_part a)
