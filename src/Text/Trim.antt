-- ===== src/Text/Trim.antt =====
-- `unicode.IsSpace` on encoded runes, and `strings.TrimSpace`.
pub mod Bounds
pub mod Clean
use maestro_cms.Prelude.{
  ℕ, zero, suc, ◌+◌, ◌-◌, ◌≤◌, ◌≡◌, Bool, true, false, ◌&&◌, ◌||◌, List, [], ◌∷◌, arith, leb, ◌==◌,
  if◌then◌else◌, drop, length, reverse,
}
use maestro_cms.Text.Utf8.{within}

-- '\t' '\n' '\v' '\f' '\r' ' '
abbrev pub ascii_space : ℕ → Bool
ascii_space b = within 9 13 b || b == 0x20

-- U+0085 and U+00A0
abbrev space2 : ℕ → ℕ → Bool
space2 b0 b1 = b0 == 0xC2 && (b1 == 0x85 || b1 == 0xA0)

-- U+1680, U+2000 to U+200A, U+2028, U+2029, U+202F, U+205F, U+3000
abbrev space3 : ℕ → ℕ → ℕ → Bool
space3 b0 b1 b2 =
    (b0 == 0xE1 && (b1 == 0x9A && b2 == 0x80))
    || ((b0 == 0xE2
          && ((b1 == 0x80 && (within 0x80 0x8A b2 || (b2 == 0xA8 || (b2 == 0xA9 || b2 == 0xAF))))
              || (b1 == 0x81 && b2 == 0x9F)))
        || (b0 == 0xE3 && (b1 == 0x80 && b2 == 0x80)))

-- The size of the white space rune that the text begins with, or 0.
unfoldable pub space_len : List ℕ → ℕ
space_len [] = 0
space_len (b0 ∷ []) = if ascii_space b0 then 1 else 0
space_len (b0 ∷ b1 ∷ []) = if ascii_space b0 then 1 else if space2 b0 b1 then 2 else 0
space_len (b0 ∷ b1 ∷ b2 ∷ _) =
    if ascii_space b0 then 1 else if space2 b0 b1 then 2 else if space3 b0 b1 b2 then 3 else 0

-- The same for the end of a text that is given in reverse.
unfoldable pub last_space_len : List ℕ → ℕ
last_space_len [] = 0
last_space_len (b0 ∷ []) = if ascii_space b0 then 1 else 0
last_space_len (b0 ∷ b1 ∷ []) = if ascii_space b0 then 1 else if space2 b1 b0 then 2 else 0
last_space_len (b0 ∷ b1 ∷ b2 ∷ _) =
    if ascii_space b0 then 1 else if space2 b1 b0 then 2 else if space3 b2 b1 b0 then 3 else 0

-- The text behind its leading white space, on fuel: each step drops a byte at least.
pub drop_spaces : (List ℕ → ℕ) → ℕ → List ℕ → List ℕ
drop_spaces size zero s = s
drop_spaces size (suc f) s = elim (size s) [
  | zero ↦ s
  | suc n ↦ drop_spaces size f (drop (suc n) s)
]

-- `strings.TrimLeftFunc(s, unicode.IsSpace)`
unfoldable pub trim_left : List ℕ → List ℕ
unfolding drop_spaces space_len
trim_left s = drop_spaces space_len (length s) s

unfoldable pub trim_right : List ℕ → List ℕ
unfolding drop_spaces last_space_len
trim_right s = reverse (drop_spaces last_space_len (length s) (reverse s))

-- `strings.TrimSpace`
unfoldable pub trim_space : List ℕ → List ℕ
unfolding trim_left trim_right
trim_space s = trim_right (trim_left s)
