-- ===== src/Text/Utf8.antt =====
-- `unicode/utf8`: rune boundaries, the size of the rune that is decoded, and the rune count.
pub mod Runes
pub mod Valid
use maestro_cms.Prelude.{
  ℕ, zero, suc, ◌+◌, ◌≤◌, ◌<◌, ◌≡◌, Bool, true, false, not, ◌&&◌, ◌||◌, List, [], ◌∷◌, arith, leb,
  ltb, ◌==◌, if◌then◌else◌, Bool-cases, inl, inr, drop, length,
}

abbrev pub within : ℕ → ℕ → ℕ → Bool
within lo hi b = leb lo b && leb b hi

-- `utf8.RuneStart`: the byte is no continuation byte, `b & 0xC0 != 0x80`.
abbrev pub rune_start : ℕ → Bool
rune_start b = not (within 0x80 0xBF b)

-- The bytes that may follow the first byte of a rune (the accept ranges of `utf8`).
second_ok : ℕ → ℕ → Bool
second_ok b0 b1 =
    if b0 == 0xE0
    then within 0xA0 0xBF b1
    else if b0 == 0xED
    then within 0x80 0x9F b1
    else if b0 == 0xF0
    then within 0x90 0xBF b1
    else if b0 == 0xF4
    then within 0x80 0x8F b1
    else within 0x80 0xBF b1

two_ok : ℕ → List ℕ → Bool
two_ok b0 [] = false
two_ok b0 (b1 ∷ _) = second_ok b0 b1

three_ok : ℕ → List ℕ → Bool
unfolding second_ok
three_ok b0 (b1 ∷ b2 ∷ _) = second_ok b0 b1 && within 0x80 0xBF b2
three_ok b0 _ = false

four_ok : ℕ → List ℕ → Bool
unfolding second_ok
four_ok b0 (b1 ∷ b2 ∷ b3 ∷ _) = second_ok b0 b1 && (within 0x80 0xBF b2 && within 0x80 0xBF b3)
four_ok b0 _ = false

-- The size that `utf8.DecodeRuneInString` returns: 0 for no byte, and 1 for an invalid encoding.
unfoldable pub rune_size : List ℕ → ℕ
unfolding second_ok two_ok three_ok four_ok
rune_size [] = 0
rune_size (b0 ∷ rest) =
    if ltb b0 0x80
    then 1
    else if within 0xC2 0xDF b0 && two_ok b0 rest
    then 2
    else if within 0xE0 0xEF b0 && three_ok b0 rest
    then 3
    else if within 0xF0 0xF4 b0 && four_ok b0 rest
    then 4
    else 1

-- `utf8.RuneCountInString`, on fuel: each rune takes a byte at least.
unfoldable pub count_runes : ℕ → List ℕ → ℕ
unfolding rune_size
count_runes zero s = 0
count_runes (suc f) [] = 0
count_runes (suc f) (b ∷ s) = suc (count_runes f (drop (rune_size (b ∷ s)) (b ∷ s)))

abbrev pub rune_count : List ℕ → ℕ
rune_count s = count_runes (length s) s

-- A rune takes a byte at least, and no more bytes than there are.
pub rune_size_bounds :
    (b : ℕ) (s : List ℕ) → (0 < rune_size (b ∷ s)) × (rune_size (b ∷ s) ≤ length (b ∷ s))
unfolding rune_size
rune_size_bounds b [] = ground arith
rune_size_bounds b (b1 ∷ []) = ground arith
rune_size_bounds b (b1 ∷ b2 ∷ []) = ground arith
rune_size_bounds b (b1 ∷ b2 ∷ b3 ∷ s) = ground arith
