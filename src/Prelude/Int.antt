-- ===== src/Prelude/Int.antt =====
-- Go's `int` where it can be negative, over the native numbers (the library's ℤ stands on the
-- unary ℕ). A sum that can leave the 64 bits is `add64`.
use maestro_cms.Prelude.{ℕ, ◌+◌, ◌%◌, ◌<◌, ◌≡◌, Bool, true, false, ◌&&◌, ltb, arith}

-- `negsuc n` is -(n + 1).
pub data ℤ : Type 0 where
  pos : ℕ → ℤ
  negsuc : ℕ → ℤ

abbrev pub pos_part : ℤ → ℕ
pos_part (pos n) = n
pos_part (negsuc n) = 0

abbrev pub is_negative : ℤ → Bool
is_negative (pos n) = false
is_negative (negsuc n) = true

-- `math.MaxInt64`
abbrev pub max_int64 : ℕ
max_int64 = 9223372036854775807

-- The 64 bits of a sum of two `int`.
unfoldable pub add64 : ℕ → ℕ → ℕ
add64 a b = (a + b) % 18446744073709551616

-- `v > limit` for the `int` of the bits `v` and a limit that is not negative: with its top bit set, `v`
-- is negative.
unfoldable pub above64 : ℕ → ℕ → Bool
above64 v limit = ltb v 9223372036854775808 && ltb limit v

pub add64_exact : (a b : ℕ) → a + b < 9223372036854775808 → add64 a b ≡ a + b
unfolding add64
add64_exact a b h = omega arith

pub pos-pos_part : (z : ℤ) → is_negative z ≡ false → pos (pos_part z) ≡ z
pos-pos_part z h = ground arith
