-- ===== src/Extract/Normalize.antt =====
-- extract/extract.go: `NormalizeWhitespace`.
pub mod Lines
pub mod Shape
pub mod Tidy
pub mod Normal
use maestro_cms.Prelude.{ℕ, ◌+◌, Bool, true, false, List, [], ◌∷◌, ◌++◌, leb, ◌==◌, if◌then◌else◌}
use maestro_cms.Text.{Bytes, bytes_eq}
use maestro_cms.Text.Trim.{trim_space}

abbrev pub with_first : ℕ → List Bytes → List Bytes
with_first c [] = (c ∷ []) ∷ []
with_first c (l ∷ ls) = (c ∷ l) ∷ ls

-- `strings.Split(s, sep)`, for a separator of one byte.
unfoldable pub split_on : ℕ → Bytes → List Bytes
split_on b [] = [] ∷ []
split_on b (c ∷ s) = let rest = split_on b s in if c == b then [] ∷ rest else with_first c rest

-- `strings.Join(lines, sep)`, for a separator of one byte.
unfoldable pub join_with : ℕ → List Bytes → Bytes
join_with b [] = []
join_with b (l ∷ []) = l
join_with b (l ∷ m ∷ ls) = l ++ b ∷ join_with b (m ∷ ls)

-- The loop, with `blanks`: what it appends to `out`.
unfoldable pub kept_lines : ℕ → List Bytes → List Bytes
kept_lines blanks [] = []
kept_lines blanks (line ∷ lines) =
    let trimmed = trim_space line in
    let dropped = kept_lines (blanks + 1) lines in
    let fresh = kept_lines 0 lines in
    if bytes_eq trimmed []
    then (if leb (blanks + 1) 1 then [] ∷ dropped else dropped)
    else trimmed ∷ fresh

unfoldable pub normalize_whitespace : Bytes → Bytes
unfolding kept_lines join_with split_on
normalize_whitespace s = trim_space (join_with b'\n' (kept_lines 0 (split_on b'\n' s)))
