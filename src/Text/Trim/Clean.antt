-- ===== src/Text/Trim/Clean.antt =====
-- Texts without white space at their ends: trimming yields them, and leaves them alone.
use mathlib.Core.List.{append_assoc, reverse-append, reverse-reverse}
use maestro_cms.Prelude.{
  ℕ, zero, suc, ◌≤◌, ◌≡◌, ◌≢◌, refl, sym, ap, ◌∙◌, [], ◌∷◌, ◌++◌, arith, length, drop, take,
  take-drop, length-drop, length-append, reverse,
}
use maestro_cms.Text.{Bytes}
use maestro_cms.Text.Trim.Bounds.{length-reverse}
use maestro_cms.Text.Trim.{
  space_len, last_space_len, drop_spaces, trim_left, trim_right, trim_space,
}

pub record IsClean (l : Bytes) : Type 0 where
  pub start : space_len l ≡ 0
  pub end : last_space_len (reverse l) ≡ 0

-- What is left of `s`, with what was dropped.
drop_spaces-split :
    (size : Bytes → ℕ) (f : ℕ) (s : Bytes) → (pre : Bytes) × (s ≡ pre ++ drop_spaces size f s)
unfolding drop_spaces
drop_spaces-split size zero s = ([], refl)
drop_spaces-split size (suc f) s = go (size s) (λ n. drop_spaces-split size f (drop (suc n) s))
  where
    go :
        (k : ℕ)
        → ((n : ℕ) → (pre : Bytes) × (drop (suc n) s ≡ pre ++ drop_spaces size f (drop (suc n) s)))
        → (pre : Bytes) × (s
            ≡ pre ++ elim k [ zero ↦ s | suc n ↦ drop_spaces size f (drop (suc n) s) ])
    go zero ih = ([], refl)
    go (suc n) ih =
        let (pre, e) = ih n in
        (
          take (suc n) s ++ pre,
          sym (take-drop (suc n) s)
              ∙ ap (λ l. take (suc n) s ++ l) e
              ∙ sym (append_assoc (take (suc n) s) pre (drop_spaces size f (drop (suc n) s))),
        )

drop_spaces-end :
    (size : Bytes → ℕ) (f : ℕ) (s : Bytes)
    → size [] ≡ 0
    → length s ≤ f
    → size (drop_spaces size f s) ≡ 0
unfolding drop_spaces
drop_spaces-end size zero [] e h = e
drop_spaces-end size zero (b ∷ s) e h = absurd (omega arith)
drop_spaces-end size (suc f) s e h =
    go (size s) refl (λ n h'. drop_spaces-end size f (drop (suc n) s) e h')
  where
    go :
        (k : ℕ)
        → size s ≡ k
        → ((n : ℕ) → length (drop (suc n) s) ≤ f → size (drop_spaces size f (drop (suc n) s)) ≡ 0)
        → size (elim k [ zero ↦ s | suc n ↦ drop_spaces size f (drop (suc n) s) ]) ≡ 0
    go zero q ih = q
    go (suc n) q ih = ih n (omega (arith, length-drop (suc n) s))

drop_spaces-none : (size : Bytes → ℕ) (f : ℕ) (s : Bytes) → size s ≡ 0 → drop_spaces size f s ≡ s
unfolding drop_spaces
drop_spaces-none size zero s h = refl
drop_spaces-none size (suc f) s h = rw (h, drop_spaces) refl

space_len-prefix : (p q : Bytes) → space_len (p ++ q) ≡ 0 → space_len p ≡ 0
unfolding space_len
space_len-prefix [] q h = refl
space_len-prefix (a ∷ []) [] h = h
space_len-prefix (a ∷ []) (x ∷ []) h = ground arith
space_len-prefix (a ∷ []) (x ∷ y ∷ q) h = ground arith
space_len-prefix (a ∷ b ∷ []) [] h = h
space_len-prefix (a ∷ b ∷ []) (x ∷ q) h = ground arith
space_len-prefix (a ∷ b ∷ c ∷ p) q h = h

-- White space does not reach over a newline.
pub space_len-line : (l r : Bytes) → l ≢ [] → space_len l ≡ 0 → space_len (l ++ b'\n' ∷ r) ≡ 0
unfolding space_len
space_len-line [] r ne h = absurd (ne refl)
space_len-line (a ∷ []) [] ne h = ground arith
space_len-line (a ∷ []) (x ∷ r) ne h = ground arith
space_len-line (a ∷ b ∷ []) r ne h = ground arith
space_len-line (a ∷ b ∷ c ∷ l) r ne h = h

pub last_space_len-line :
    (l r : Bytes) → l ≢ [] → last_space_len l ≡ 0 → last_space_len (l ++ b'\n' ∷ r) ≡ 0
unfolding last_space_len
last_space_len-line [] r ne h = absurd (ne refl)
last_space_len-line (a ∷ []) [] ne h = ground arith
last_space_len-line (a ∷ []) (x ∷ r) ne h = ground arith
last_space_len-line (a ∷ b ∷ []) r ne h = ground arith
last_space_len-line (a ∷ b ∷ c ∷ l) r ne h = h

trim_left-start : (s : Bytes) → space_len (trim_left s) ≡ 0
unfolding trim_left
trim_left-start s = drop_spaces-end space_len (length s) s (unfold space_len in refl) (omega arith)

trim_right-end : (s : Bytes) → last_space_len (reverse (trim_right s)) ≡ 0
unfolding trim_right
trim_right-end s =
    ap last_space_len (reverse-reverse (drop_spaces last_space_len (length s) (reverse s)))
    ∙ drop_spaces-end last_space_len (length s) (reverse s) (unfold last_space_len in refl)
        (omega (arith, length-reverse s))

pub trim_left-suffix : (s : Bytes) → (pre : Bytes) × (s ≡ pre ++ trim_left s)
unfolding trim_left
trim_left-suffix s = drop_spaces-split space_len (length s) s

pub trim_right-prefix : (s : Bytes) → (post : Bytes) × (s ≡ trim_right s ++ post)
unfolding trim_right
trim_right-prefix s =
    let (pre, e) = drop_spaces-split last_space_len (length s) (reverse s) in
    (
      reverse pre,
      sym (reverse-reverse s)
          ∙ ap reverse e
          ∙ reverse-append pre (drop_spaces last_space_len (length s) (reverse s)),
    )

pub trim_space-IsClean : (s : Bytes) → IsClean (trim_space s)
unfolding trim_space
trim_space-IsClean s =
    let (post, e) = trim_right-prefix (trim_left s) in
    record {
      start =
          space_len-prefix (trim_right (trim_left s)) post
            (ap space_len (sym e) ∙ trim_left-start s);
      end = trim_right-end (trim_left s);
    }

pub trim_left_none : (s : Bytes) → space_len s ≡ 0 → trim_left s ≡ s
unfolding trim_left
trim_left_none s h = drop_spaces-none space_len (length s) s h

pub trim_right_none : (s : Bytes) → last_space_len (reverse s) ≡ 0 → trim_right s ≡ s
unfolding trim_right
trim_right_none s h =
    ap reverse (drop_spaces-none last_space_len (length s) (reverse s) h) ∙ reverse-reverse s

pub trim_space_clean : (s : Bytes) → IsClean s → trim_space s ≡ s
unfolding trim_space
trim_space_clean s c = ap trim_right (trim_left_none s c.start) ∙ trim_right_none s c.end

-- A newline at either end goes.
pub trim_left-newline : (s : Bytes) → space_len s ≡ 0 → trim_left (b'\n' ∷ s) ≡ s
unfolding trim_left drop_spaces
trim_left-newline [] h = refl
trim_left-newline (b ∷ []) h = drop_spaces-none space_len (suc zero) (b ∷ []) h
trim_left-newline (b ∷ c ∷ s) h = drop_spaces-none space_len (suc (suc (length s))) (b ∷ c ∷ s) h

drop_newline :
    (f : ℕ) (r : Bytes) → last_space_len r ≡ 0 → drop_spaces last_space_len (suc f) (b'\n' ∷ r) ≡ r
unfolding drop_spaces last_space_len
drop_newline f [] h = drop_spaces-none last_space_len f [] h
drop_newline f (b ∷ []) h = drop_spaces-none last_space_len f (b ∷ []) h
drop_newline f (b ∷ c ∷ r) h = drop_spaces-none last_space_len f (b ∷ c ∷ r) h

pub trim_right-newline :
    (s : Bytes) → last_space_len (reverse s) ≡ 0 → trim_right (s ++ b'\n' ∷ []) ≡ s
unfolding trim_right
trim_right-newline s h =
    let longer : length (s ++ b'\n' ∷ []) ≡ suc (length s) =
      omega (arith, length-append s (b'\n' ∷ [])) in
    ap (λ r. reverse (drop_spaces last_space_len (length (s ++ b'\n' ∷ [])) r))
      (reverse-append s (b'\n' ∷ []))
    ∙ ap (λ n. reverse (drop_spaces last_space_len n (b'\n' ∷ reverse s))) longer
    ∙ ap reverse (drop_newline (length s) (reverse s) h)
    ∙ reverse-reverse s

pub trim_space-nil : trim_space [] ≡ []
unfolding space_len last_space_len
trim_space-nil = trim_space_clean [] (record { start = refl; end = refl })
