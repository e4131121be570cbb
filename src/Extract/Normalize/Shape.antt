-- ===== src/Extract/Normalize/Shape.antt =====
-- Lines without newlines, and the texts that join them.

use maestro_cms.Prelude.{ℕ, ◌≡◌, ◌≢◌, refl, inl, inr, List, [], ◌∷◌, arith, ◌==◌, Bool-cases}
use maestro_cms.Text.{Bytes}
use maestro_cms.Extract.Normalize.{with_first, split_on, join_with}

-- A line without a newline.
abbrev pub HasNoNewline : Bytes → Type 0
HasNoNewline [] = Unit
HasNoNewline (c ∷ l) = (c ≢ b'\n') × HasNoNewline l

-- Lines without a newline.
abbrev pub AllPlain : List Bytes → Type 0
AllPlain [] = Unit
AllPlain (l ∷ ls) = HasNoNewline l × AllPlain ls

pub split_on-AllPlain : (s : Bytes) → AllPlain (split_on b'\n' s)
unfolding split_on
split_on-AllPlain [] = (tt, tt)
split_on-AllPlain (c ∷ s) = elim (Bool-cases (c == b'\n')) [
  | inl newline ↦ rw newline (tt, split_on-AllPlain s)
  | inr plain ↦ rw plain (
      with_first-AllPlain c (split_on b'\n' s) (λ e. ground (arith, plain, e))
        (split_on-AllPlain s))
]
  where
    with_first-AllPlain :
        (c : ℕ) (ls : List Bytes) → c ≢ b'\n' → AllPlain ls → AllPlain (with_first c ls)
    with_first-AllPlain c [] ne h = ((ne, tt), tt)
    with_first-AllPlain c (l ∷ ls) ne h = ((ne, h.0), h.1)

-- A list of lines that is not empty is what its text is split into.
pub split_on-join_with :
    (l : Bytes) (ls : List Bytes)
    → AllPlain (l ∷ ls)
    → split_on b'\n' (join_with b'\n' (l ∷ ls)) ≡ l ∷ ls
unfolding split_on join_with
split_on-join_with [] [] h = refl
split_on-join_with (c ∷ l) [] h =
    let ih = split_on-join_with l [] (h.0.1, tt) in ground (arith, ih, h.0.0)
split_on-join_with [] (m ∷ ls) h = let ih = split_on-join_with m ls h.1 in ground (arith, ih)
split_on-join_with (c ∷ l) (m ∷ ls) h =
    let ih = split_on-join_with l (m ∷ ls) (h.0.1, h.1) in ground (arith, ih, h.0.0)
