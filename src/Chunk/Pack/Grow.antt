-- ===== src/Chunk/Pack/Grow.antt =====
-- What `growChunk` returns: the longest run of units from `i` that fits the budget, with its sum.
use maestro_cms.Prelude.{
  ℕ, zero, suc, ◌+◌, ◌-◌, ◌≤◌, ◌<◌, ◌≡◌, refl, ap, ◌∙◌, ◌⊎◌, inl, inr, List, [], ◌∷◌, arith, leb,
  Bool-cases, leb→le, leb→lt, length, drop, length-drop,
}
use maestro_cms.Chunk.Pack.{tok_at, grow_from, grow_chunk}

-- The sum of `n` token counts from index `i`.
abbrev pub sum_tok : List ℕ → ℕ → ℕ → ℕ
sum_tok tok i zero = 0
sum_tok tok i (suc n) = sum_tok tok i n + tok_at tok (i + n)

-- `j` and `sum` are what the greedy loop stops at.
pub record IsGrown (tok : List ℕ) (i max_tok j sum : ℕ) : Type 0 where
  pub start-le : i ≤ j
  pub in_range : j < length tok
  pub sum_is : sum ≡ sum_tok tok i (j - i + 1)
  pub fits : sum ≤ max_tok
  pub maximal : (j + 1 ≡ length tok) ⊎ (max_tok < sum + tok_at tok (j + 1))

get_or-drop :
    (k : ℕ) (tok : List ℕ) {t : ℕ} {rest : List ℕ}
    → drop k tok ≡ t ∷ rest
    → (tok_at tok k ≡ t) × (drop (k + 1) tok ≡ rest) × (k < length tok)
get_or-drop zero [] e = cc
get_or-drop zero (x ∷ tok) e = ground arith
get_or-drop (suc k) [] e = cc
get_or-drop (suc k) (x ∷ tok) e =
    let (here, later, lt) = get_or-drop k tok e in
    let add : suc (k + 1) ≡ suc k + 1 = omega arith in (here, rw (← add) later, omega arith)

drop-eq-nil : (k : ℕ) (tok : List ℕ) → drop k tok ≡ [] → length tok ≤ k
drop-eq-nil k tok e = omega (arith, length-drop k tok, ap length e)

sum_tok-next :
    (tok : List ℕ) (i j : ℕ)
    → i ≤ j
    → sum_tok tok i (j + 1 - i + 1) ≡ sum_tok tok i (j - i + 1) + tok_at tok (j + 1)
sum_tok-next tok i j h =
    let e : j + 1 - i + 1 ≡ suc (j - i + 1) = omega arith in
    let k : i + (j - i + 1) ≡ j + 1 = omega arith in
    ap (sum_tok tok i) e ∙ ap (λ m. sum_tok tok i (j - i + 1) + tok_at tok m) k

grow_from-IsGrown :
    (tok : List ℕ) (i max_tok : ℕ) (rest : List ℕ) (j sum : ℕ)
    → drop (j + 1) tok ≡ rest
    → i ≤ j
    → j < length tok
    → sum ≡ sum_tok tok i (j - i + 1)
    → sum ≤ max_tok
    → IsGrown tok i max_tok (grow_from rest j sum max_tok).0 (grow_from rest j sum max_tok).1
unfolding grow_from
grow_from-IsGrown tok i max_tok [] j sum e h lt s f = record {
  start-le = h;
  in_range = lt;
  sum_is = s;
  fits = f;
  maximal = inl (omega (arith, drop-eq-nil (j + 1) tok e));
}
grow_from-IsGrown tok i max_tok (t ∷ rest) j sum e h lt s f =
    let (here, later, lt') = get_or-drop (j + 1) tok e in
    elim (Bool-cases (leb (sum + t) max_tok)) [
      | inl more ↦ rw more (
          grow_from-IsGrown tok i max_tok rest (j + 1) (sum + t) later (omega arith) lt'
            (omega (arith, sum_tok-next tok i j h)) (leb→le _ _ more))
      | inr stop ↦ rw stop (record {
        start-le = h;
        in_range = lt;
        sum_is = s;
        fits = f;
        maximal = inr (omega (arith, leb→lt _ _ stop));
      })
    ]

-- For a unit `i` that fits the budget, `growChunk` returns the last unit `j` of the longest run
-- from `i` whose token counts sum to at most the budget, with that sum.
pub grow_chunk-IsGrown :
    (tok : List ℕ) (i max_tok : ℕ)
    → i < length tok
    → tok_at tok i ≤ max_tok
    → IsGrown tok i max_tok (grow_chunk tok i max_tok).0 (grow_chunk tok i max_tok).1
unfolding grow_chunk
grow_chunk-IsGrown tok i max_tok lt f =
    let one : i - i + 1 ≡ 1 = omega arith in
    let here : i + 0 ≡ i = omega arith in
    grow_from-IsGrown tok i max_tok (drop (i + 1) tok) i (tok_at tok i) refl (omega arith) lt
      (rw one (rw here (omega arith))) f
