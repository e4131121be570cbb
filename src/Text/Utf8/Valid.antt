-- ===== src/Text/Utf8/Valid.antt =====
-- `utf8.ValidString` and `strings.ToValidUTF8`.
use maestro_cms.Prelude.{
  ℕ, zero, suc, Bool, true, false, ◌&&◌, not, List, [], ◌∷◌, ◌++◌, ltb, ◌==◌, if◌then◌else◌, take,
  drop, length,
}
use maestro_cms.Text.Utf8.{rune_size}

-- The decoder returns the replacement rune and size 1.
abbrev pub invalid_here : List ℕ → Bool
invalid_here [] = false
invalid_here (b ∷ s) = not (ltb b 0x80) && rune_size (b ∷ s) == 1

-- On fuel: each rune takes a byte at least.
unfoldable pub valid_from : ℕ → List ℕ → Bool
valid_from zero s = true
valid_from (suc f) [] = true
valid_from (suc f) (b ∷ s) =
    not (invalid_here (b ∷ s)) && valid_from f (drop (rune_size (b ∷ s)) (b ∷ s))

abbrev pub valid_string : List ℕ → Bool
valid_string s = valid_from (length s) s

-- The loop, with its variable `invalid`.
unfoldable pub to_valid_from : ℕ → List ℕ → Bool → List ℕ → List ℕ
to_valid_from zero replacement invalid s = []
to_valid_from (suc f) replacement invalid [] = []
to_valid_from (suc f) replacement invalid (b ∷ s) =
    let bad = invalid_here (b ∷ s) in
    let n = rune_size (b ∷ s) in
    (if bad then (if invalid then [] else replacement) else take n (b ∷ s))
    ++ to_valid_from f replacement bad (drop n (b ∷ s))

abbrev pub to_valid_utf8 : List ℕ → List ℕ → List ℕ
to_valid_utf8 s replacement = to_valid_from (length s) replacement false s
