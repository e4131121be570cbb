-- ===== src/Extract/Normalize/Lines.antt =====
-- `strings.Split` and `strings.Join`: the lines of a text, joined, are the text.
use maestro_cms.Prelude.{
  ◌≡◌, refl, sym, ap, ◌∙◌, inl, inr, List, [], ◌∷◌, ℕ, arith, ◌==◌, ==_iff, Bool-cases,
}
use maestro_cms.Text.{Bytes}
use maestro_cms.Extract.Normalize.{split_on, join_with}

pub join_with-with_first :
    (c : ℕ) (l : Bytes) (ls : List Bytes)
    → join_with b'\n' ((c ∷ l) ∷ ls) ≡ c ∷ join_with b'\n' (l ∷ ls)
unfolding join_with
join_with-with_first c l [] = refl
join_with-with_first c l (m ∷ ls) = refl

pub join_with-blank :
    (l : Bytes) (ls : List Bytes) → join_with b'\n' ([] ∷ l ∷ ls) ≡ b'\n' ∷ join_with b'\n' (l ∷ ls)
unfolding join_with
join_with-blank l ls = refl

-- A text has a first line.
pub split_on-cons : (s : Bytes) → (l : Bytes) × (ls : List Bytes) × (split_on b'\n' s ≡ l ∷ ls)
unfolding split_on
split_on-cons [] = ([], [], refl)
split_on-cons (c ∷ s) =
    let (l, ls, e) = split_on-cons s in
    elim (Bool-cases (c == b'\n')) [
      | inl newline ↦ ([], split_on b'\n' s, ground (arith, newline))
      | inr plain ↦ (c ∷ l, ls, ground (arith, plain, e))
    ]

pub join_with-split_on : (s : Bytes) → join_with b'\n' (split_on b'\n' s) ≡ s
unfolding split_on
join_with-split_on [] = unfold join_with in refl
join_with-split_on (c ∷ s) =
    let (l, ls, e) = split_on-cons s in
    let whole : join_with b'\n' (l ∷ ls) ≡ s =
      ap (join_with b'\n') (sym e) ∙ join_with-split_on s in
    elim (Bool-cases (c == b'\n')) [
      | inl newline ↦
          let at : c ≡ b'\n' = (==_iff c b'\n').0 newline in
          rw (newline, e)
            (join_with-blank l ls ∙ ap (λ t. b'\n' ∷ t) whole ∙ ap (λ b. b ∷ s) (sym at))
      | inr plain ↦ rw (plain, e) (join_with-with_first c l ls ∙ ap (λ t. c ∷ t) whole)
    ]
