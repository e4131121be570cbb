-- ===== src/Extract/Normalize/Tidy.antt =====
-- The lines that the loop of `NormalizeWhitespace` keeps.
use maestro_cms.Prelude.{
  ℕ, zero, suc, ◌+◌, ◌≡◌, refl, ap, subst, false, List, [], ◌∷◌, ◌++◌, arith, leb, if◌then◌else◌,
}
use maestro_cms.Text.{Bytes, bytes_eq}
use maestro_cms.Text.Trim.{trim_left, trim_right, trim_space}
use maestro_cms.Text.Trim.Clean.{
  IsClean, trim_space-IsClean, trim_space_clean, trim_left-suffix, trim_right-prefix,
  trim_space-nil,
}
use maestro_cms.Extract.Normalize.{kept_lines}
use maestro_cms.Extract.Normalize.Shape.{HasNoNewline, AllPlain}

-- Trimmed lines of which no two blank ones follow each other; behind `blanks` blank lines.
abbrev pub Tidy : ℕ → List Bytes → Type 0
Tidy blanks [] = Unit
Tidy blanks ([] ∷ ls) = (blanks ≡ 0) × Tidy 1 ls
Tidy blanks ((c ∷ l) ∷ ls) = IsClean (c ∷ l) × HasNoNewline (c ∷ l) × Tidy 0 ls

Tidy-suc : (n : ℕ) (ls : List Bytes) → Tidy (n + 1) ls → Tidy n ls
Tidy-suc n [] h = tt
Tidy-suc n ([] ∷ ls) (e, h) = absurd (omega arith)
Tidy-suc n ((c ∷ l) ∷ ls) h = h

HasNoNewline-left : (a b : Bytes) → HasNoNewline (a ++ b) → HasNoNewline a
HasNoNewline-left [] b h = tt
HasNoNewline-left (c ∷ a) b (ne, h) = (ne, HasNoNewline-left a b h)

HasNoNewline-right : (a b : Bytes) → HasNoNewline (a ++ b) → HasNoNewline b
HasNoNewline-right [] b h = h
HasNoNewline-right (c ∷ a) b (ne, h) = HasNoNewline-right a b h

HasNoNewline-trim_space : (l : Bytes) → HasNoNewline l → HasNoNewline (trim_space l)
unfolding trim_space
HasNoNewline-trim_space l h =
    let (pre, e) = trim_left-suffix l in
    let (post, e') = trim_right-prefix (trim_left l) in
    HasNoNewline-left (trim_right (trim_left l)) post
      (subst HasNoNewline e' (HasNoNewline-right pre (trim_left l) (subst HasNoNewline e h)))

-- The loop keeps such lines, whatever the lines are.
pub kept_lines-Tidy : (n : ℕ) (ls : List Bytes) → AllPlain ls → Tidy n (kept_lines n ls)
unfolding kept_lines bytes_eq
kept_lines-Tidy n [] h = tt
kept_lines-Tidy n (l ∷ ls) (plain, h) =
    go n (trim_space l) (trim_space-IsClean l) (HasNoNewline-trim_space l plain)
      (kept_lines-Tidy (n + 1) ls h) (kept_lines-Tidy 0 ls h)
  where
    go :
        (n : ℕ) (t : Bytes)
        → IsClean t
        → HasNoNewline t
        → Tidy (n + 1) (kept_lines (n + 1) ls)
        → Tidy 0 (kept_lines 0 ls)
        → Tidy n (
            if bytes_eq t []
            then (if leb (n + 1) 1 then [] ∷ kept_lines (n + 1) ls else kept_lines (n + 1) ls)
            else t ∷ kept_lines 0 ls)
    go n (a ∷ t) c p dropped fresh = (c, p, fresh)
    go zero [] c p dropped fresh = (refl, dropped)
    go (suc n) [] c p dropped fresh =
        let late : leb (suc n + 1) 1 ≡ false = ground arith in
        rw late (Tidy-suc (suc n) (kept_lines (suc n + 1) ls) dropped)

-- It leaves them as they are.
pub kept_lines_same : (n : ℕ) (ls : List Bytes) → Tidy n ls → kept_lines n ls ≡ ls
unfolding kept_lines bytes_eq
kept_lines_same n [] h = refl
kept_lines_same n ([] ∷ ls) (e, h) =
    let ih = kept_lines_same 1 ls h in rw (trim_space-nil, e) (ap (λ t. [] ∷ t) ih)
kept_lines_same n ((c ∷ l) ∷ ls) (clean, plain, h) =
    rw (trim_space_clean (c ∷ l) clean, kept_lines_same 0 ls h)
