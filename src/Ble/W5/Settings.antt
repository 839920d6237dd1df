-- ===== src/Ble/W5/Settings.antt =====
-- The settings block of w5.py, written and read, and the mode that a power write names.
use petkit_local.Prelude.{
  ℕ, ◌≤◌, ◌<◌, ◌≡◌, some, [], ◌∷◌, ◌++◌, arith, Bytes, length, take, All, ok,
}
use petkit_local.Ble.W5.{decode_w5_config, w5_config_payload}

-- Writing back a reported settings block with nothing changed sends its fourteen bytes as they
-- were; a block of thirteen bytes, from a firmware with no child lock, is sent with the lock off.
w5_config_payload-locked :
    (a b c d e f g h i j k l m n : ℕ) (rest : Bytes)
    → All (λ x. x < 256) (a ∷ b ∷ c ∷ d ∷ e ∷ f ∷ g ∷ h ∷ i ∷ j ∷ k ∷ l ∷ m ∷ n ∷ [])
    → w5_config_payload
        (decode_w5_config (a ∷ b ∷ c ∷ d ∷ e ∷ f ∷ g ∷ h ∷ i ∷ j ∷ k ∷ l ∷ m ∷ n ∷ rest))
      ≡ ok (some (a ∷ b ∷ c ∷ d ∷ e ∷ f ∷ g ∷ h ∷ i ∷ j ∷ k ∷ l ∷ m ∷ n ∷ []))
unfolding w5_config_payload decode_w5_config
w5_config_payload-locked a b c d e f g h i j k l m n rest small = ground arith

w5_config_payload-bare :
    (a b c d e f g h i j k l m : ℕ)
    → All (λ x. x < 256) (a ∷ b ∷ c ∷ d ∷ e ∷ f ∷ g ∷ h ∷ i ∷ j ∷ k ∷ l ∷ m ∷ [])
    → w5_config_payload (decode_w5_config (a ∷ b ∷ c ∷ d ∷ e ∷ f ∷ g ∷ h ∷ i ∷ j ∷ k ∷ l ∷ m ∷ []))
      ≡ ok (some (a ∷ b ∷ c ∷ d ∷ e ∷ f ∷ g ∷ h ∷ i ∷ j ∷ k ∷ l ∷ m ∷ 0 ∷ []))
unfolding w5_config_payload decode_w5_config
w5_config_payload-bare a b c d e f g h i j k l m small = ground arith

-- Writing back a reported settings block with nothing changed sends the first fourteen bytes of the
-- block as they were, and a thirteen-byte block, which has no child lock, followed by a zero.
pub w5_config_payload-decode_w5_config :
    (bs : Bytes)
    → 13 ≤ length bs
    → All (λ x. x < 256) bs
    → w5_config_payload (decode_w5_config bs) ≡ ok (some (take 14 (bs ++ 0 ∷ [])))
w5_config_payload-decode_w5_config (a ∷ b ∷ c ∷ d ∷ e ∷ f ∷ g ∷ h ∷ i ∷ j ∷ k ∷ l ∷ m ∷ n ∷ rest)
      long small =
    w5_config_payload-locked a b c d e f g h i j k l m n rest (omega arith)
w5_config_payload-decode_w5_config (a ∷ b ∷ c ∷ d ∷ e ∷ f ∷ g ∷ h ∷ i ∷ j ∷ k ∷ l ∷ m ∷ []) long
      small =
    w5_config_payload-bare a b c d e f g h i j k l m (omega arith)
w5_config_payload-decode_w5_config bs long small = absurd (omega arith)
