-- ===== src/Chunk/Pack/Overlap.antt =====
-- What `overlapStart` returns: forward progress, and the longest overlap that fits its budget.
use maestro_cms.Prelude.{
  ℕ, zero, suc, ◌+◌, ◌-◌, ◌≤◌, ◌<◌, ◌≡◌, refl, ap, ◌⊎◌, inl, inr, List, arith, leb, Bool-cases,
  leb→le, leb→lt,
}
use maestro_cms.Chunk.Pack.{tok_at, walk_back, overlap_start}
use maestro_cms.Chunk.Pack.Grow.{sum_tok}

-- The sum of the token counts of the units from `ov` to `j`, both included.
abbrev pub overlap_sum : List ℕ → ℕ → ℕ → ℕ
overlap_sum tok ov j = sum_tok tok ov (j + 1 - ov)

-- The next chunk after `[i, j]` starts at `ov`.
pub record IsOverlap (tok : List ℕ) (i j overlap_tok ov : ℕ) : Type 0 where
  pub progress : i < ov
  pub no_gap : ov ≤ j + 1
  pub fits : overlap_sum tok ov j ≤ overlap_tok
  pub maximal : (ov ≡ i + 1) ⊎ (overlap_tok < overlap_sum tok (ov - 1) j)

sum_tok-cons :
    (tok : List ℕ) (i n : ℕ) → sum_tok tok i (suc n) ≡ tok_at tok i + sum_tok tok (i + 1) n
sum_tok-cons tok i zero = let e : i + 0 ≡ i = omega arith in omega (arith, ap (tok_at tok) e)
sum_tok-cons tok i (suc n) =
    let e : i + suc n ≡ i + 1 + n = omega arith in
    omega (arith, sum_tok-cons tok i n, ap (tok_at tok) e)

overlap_sum-cons :
    (tok : List ℕ) (ov j : ℕ)
    → ov ≤ j
    → overlap_sum tok ov j ≡ tok_at tok ov + overlap_sum tok (ov + 1) j
overlap_sum-cons tok ov j h =
    let e : j + 1 - ov ≡ suc (j - ov) = omega arith in
    let f : j + 1 - (ov + 1) ≡ j - ov = omega arith in rw (e, f) (sum_tok-cons tok ov (j - ov))

walk_back-IsOverlap :
    (tok : List ℕ) (i j overlap_tok n ov_sum : ℕ)
    → i + n ≤ j
    → ov_sum ≡ overlap_sum tok (i + 1 + n) j
    → ov_sum ≤ overlap_tok
    → IsOverlap tok i j overlap_tok (walk_back tok i overlap_tok n ov_sum)
unfolding walk_back
walk_back-IsOverlap tok i j overlap_tok zero ov_sum h s f =
    let e : i + 1 + 0 ≡ i + 1 = omega arith in
    record {
      progress = omega arith;
      no_gap = omega arith;
      fits = omega (arith, s, ap (λ k. overlap_sum tok k j) e);
      maximal = inl refl;
    }
walk_back-IsOverlap tok i j overlap_tok (suc n) ov_sum h s f =
    let e : i + 1 + suc n ≡ i + 1 + n + 1 = omega arith in
    let here = overlap_sum-cons tok (i + 1 + n) j (omega arith) in
    let there = ap (λ k. overlap_sum tok k j) e in
    elim (Bool-cases (leb (ov_sum + tok_at tok (i + 1 + n)) overlap_tok)) [
      | inl more ↦ rw more (
          walk_back-IsOverlap tok i j overlap_tok n (ov_sum + tok_at tok (i + 1 + n)) (omega arith)
            (omega (arith, here, there, s)) (leb→le _ _ more))
      | inr stop ↦
          let k : i + 1 + (n + 1) ≡ i + 1 + suc n = omega arith in
          let m : i + 1 + suc n - 1 ≡ i + 1 + n = omega arith in
          rw (stop, k)
            (record {
              progress = omega arith;
              no_gap = omega arith;
              fits = omega (arith, s);
              maximal = inr (rw m (omega (arith, here, there, s, leb→lt _ _ stop)));
            })
    ]

-- With an overlap budget, and a chunk of the units `i` to `j`, the next chunk starts after `i` and
-- at `j + 1` at the latest; the units that it repeats fit the overlap budget, and one more would not
-- or would be unit `i`.
pub overlap_start-IsOverlap :
    (tok : List ℕ) (i j overlap_tok : ℕ)
    → i ≤ j
    → 0 < overlap_tok
    → IsOverlap tok i j overlap_tok (overlap_start tok i j overlap_tok)
unfolding overlap_start
overlap_start-IsOverlap tok i j overlap_tok h p =
    let k : i + 1 + (j - i) ≡ j + 1 = omega arith in
    let z : j + 1 - (j + 1) ≡ 0 = omega arith in
    elim (Bool-cases (leb overlap_tok 0)) [
      | inl none_wanted ↦ absurd (omega (arith, leb→le _ _ none_wanted))
      | inr wanted ↦ rw wanted (
          walk_back-IsOverlap tok i j overlap_tok (j - i) 0 (omega arith) (rw (k, z)) (omega arith))
    ]

-- With or without an overlap budget the next chunk starts after `i` and leaves no unit out.
pub overlap_start_bounds :
    (tok : List ℕ) (i j overlap_tok : ℕ)
    → i ≤ j
    → (i < overlap_start tok i j overlap_tok) × (overlap_start tok i j overlap_tok ≤ j + 1)
overlap_start_bounds tok i j overlap_tok h = elim (Bool-cases (leb overlap_tok 0)) [
  | inl off ↦ unfold overlap_start in rw off (omega arith, omega arith)
  | inr on ↦
      let is = overlap_start-IsOverlap tok i j overlap_tok h (leb→lt _ _ on) in
      (is.progress, is.no_gap)
]
