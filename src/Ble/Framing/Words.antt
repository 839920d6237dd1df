-- ===== src/Ble/Framing/Words.antt =====
-- Bytes and integers as the builders and decoders of w5.py and ctw3.py use them: `v & 0xFF`,
-- `int.from_bytes(…, "big")`, `v.to_bytes(2, "big")` and slices.
use petkit_local.Prelude.{
  ℕ, ◌+◌, ◌-◌, ◌*◌, ◌/◌, ◌%◌, Bytes, [], ◌∷◌, ltb, take, drop, if◌then◌else◌, Result, ok, err,
  overflow_error, ◌≡◌, arith, length,
}
use petkit_local.Prelude.Int.{ℤ, pos, negsuc}

-- v & 0xFF, of any integer.
unfoldable pub low_byte : ℤ → ℕ
low_byte (pos n) = n % 256
low_byte (negsuc n) = 255 - n % 256

-- int.from_bytes(bs, "big"), with what is read so far
unfoldable pub from_bytes : ℕ → Bytes → ℕ
from_bytes n [] = n
from_bytes n (b ∷ bs) = from_bytes (n * 256 + b) bs

-- v.to_bytes(2, "big"), which raises outside of 0 … 65535
unfoldable pub to_bytes_2 : ℤ → Result Bytes
to_bytes_2 (pos n) = if ltb n 65536 then ok (n / 256 ∷ n % 256 ∷ []) else err overflow_error
to_bytes_2 (negsuc n) = err overflow_error

-- bs[off:off + width]
abbrev pub slice : ℕ → ℕ → Bytes → Bytes
slice off width bs = take width (drop off bs)

pub length-to_bytes_2 : (v : ℤ) (bs : Bytes) → to_bytes_2 v ≡ ok bs → length bs ≡ 2
unfolding to_bytes_2
length-to_bytes_2 (pos n) bs h = ground arith
length-to_bytes_2 (negsuc n) bs h = absurd (cc)
