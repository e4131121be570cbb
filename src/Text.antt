-- ===== src/Text.antt =====
-- Go strings as lists of bytes, with what the program uses of `strings`, `unicode` and
-- `unicode/utf8`.
pub mod Utf8
pub mod Trim
pub mod Search
pub mod Equal
pub mod Path
use Prim.Native.Char.{code}
use Prim.Native.String.{String}
use mathlib.Core.Option
use maestro_cms.Prelude.{
  ℕ, zero, suc, ◌+◌, Bool, true, false, ◌&&◌, ◌||◌, Option, none, some, List, [], ◌∷◌, ◌==◌,
  if◌then◌else◌, get_or,
}

abbrev pub Bytes : Type 0
Bytes = List ℕ

-- The bytes of an ASCII text.
abbrev pub codes : String → Bytes
codes String.[] = []
codes (String.◌∷◌ c s) = code c ∷ codes s

-- `text[i]`
abbrev pub byte_at : Bytes → ℕ → ℕ
byte_at text i = get_or text i 0

-- `a == b` on strings
unfoldable pub bytes_eq : Bytes → Bytes → Bool
bytes_eq [] [] = true
bytes_eq (x ∷ xs) (y ∷ ys) = x == y && bytes_eq xs ys
bytes_eq _ _ = false

-- `strings.IndexByte`; `none` is -1.
unfoldable pub index_byte : ℕ → Bytes → Option ℕ
index_byte b [] = none
index_byte b (c ∷ s) =
    let later = Option.map suc (index_byte b s) in if c == b then some 0 else later

-- The number of leading bytes that are `b`.
unfoldable pub count_leading : ℕ → Bytes → ℕ
count_leading b [] = 0
count_leading b (c ∷ s) = let more = suc (count_leading b s) in if c == b then more else 0

-- `strings.ContainsRune`, for an ASCII rune.
unfoldable pub contains_byte : ℕ → Bytes → Bool
contains_byte b [] = false
contains_byte b (c ∷ s) = c == b || contains_byte b s
