-- ===== src/Text/Trim/Bounds.antt =====
-- Trimming does not lengthen a text.
use mathlib.Core.List.{reverse-append}
use maestro_cms.Prelude.{
  ℕ, zero, suc, ◌≤◌, ◌≡◌, refl, ap, ◌∙◌, List, [], ◌∷◌, arith, length, drop, length-drop,
  length-append, reverse,
}
use maestro_cms.Text.Trim.{
  drop_spaces, trim_left, trim_right, trim_space, last_space_len, space_len,
}

pub length-reverse : (s : List ℕ) → length (reverse s) ≡ length s
length-reverse [] = refl
length-reverse (b ∷ s) =
    ap length (reverse-append (b ∷ []) s)
    ∙ omega (arith, length-append (reverse s) (reverse (b ∷ [])), length-reverse s)

length-drop_spaces :
    (size : List ℕ → ℕ) (f : ℕ) (s : List ℕ) → length (drop_spaces size f s) ≤ length s
unfolding drop_spaces
length-drop_spaces size zero s = omega arith
length-drop_spaces size (suc f) s = go (size s) (λ n. length-drop_spaces size f (drop (suc n) s))
  where
    go :
        (k : ℕ)
        → ((n : ℕ) → length (drop_spaces size f (drop (suc n) s)) ≤ length (drop (suc n) s))
        → length (elim k [ zero ↦ s | suc n ↦ drop_spaces size f (drop (suc n) s) ]) ≤ length s
    go zero ih = omega arith
    go (suc n) ih = omega (arith, ih n, length-drop (suc n) s)

pub length-trim_left : (s : List ℕ) → length (trim_left s) ≤ length s
unfolding trim_left
length-trim_left s = length-drop_spaces space_len (length s) s

pub length-trim_right : (s : List ℕ) → length (trim_right s) ≤ length s
unfolding trim_right
length-trim_right s =
    let kept = drop_spaces last_space_len (length s) (reverse s) in
    omega (
      arith,
      length-reverse kept,
      length-drop_spaces last_space_len (length s) (reverse s),
      length-reverse s,
    )

pub length-trim_space : (s : List ℕ) → length (trim_space s) ≤ length (trim_left s)
unfolding trim_space
length-trim_space s = length-trim_right (trim_left s)
