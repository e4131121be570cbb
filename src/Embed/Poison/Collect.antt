-- ===== src/Embed/Poison/Collect.antt =====
-- The records loop of `assemble` on a log of records that were entered in the order of their positions.
use mathlib.Core.List.{reverse-cons, append_assoc, append-nil}
use maestro_cms.Prelude.{
  ℕ, zero, suc, ◌+◌, ◌≤◌, ◌<◌, ◌≡◌, refl, sym, ap, ◌∙◌, subst, Option, none, some, List, [], ◌∷◌,
  ◌++◌, map, reverse, arith, inl, inr, ◌==◌, Bool-cases, Option-cases,
}
use maestro_cms.Embed.Batch.{lookup_pos}
use maestro_cms.Embed.Run.{collect}

module _ {ℓ} {V : Type ℓ} where
  -- The positions increase from `lo` on and stay below `hi`.
  abbrev pub IsLog : ℕ → ℕ → List (ℕ × V) → Type 0
  IsLog lo hi [] = Unit
  IsLog lo hi ((k, v) ∷ m) = (lo ≤ k) × (k < hi) × IsLog (suc k) hi m

  abbrev found : Option V → List V
  found none = []
  found (some v) = v ∷ []

  -- The positions from `lo` on, the first of them first.
  abbrev walk : List (ℕ × V) → ℕ → ℕ → List V
  walk m lo zero = []
  walk m lo (suc k) = found (lookup_pos lo m) ++ walk m (suc lo) k

  walk-snoc :
      (m : List (ℕ × V)) (lo k : ℕ)
      → walk m lo (suc k) ≡ walk m lo k ++ found (lookup_pos (k + lo) m)
  walk-snoc m lo zero =
      let here : lo ≡ 0 + lo = omega arith in
      append-nil (found (lookup_pos lo m)) ∙ ap (λ p. found (lookup_pos p m)) here
  walk-snoc m lo (suc k) =
      let next : k + suc lo ≡ suc k + lo = omega arith in
      ap (λ l. found (lookup_pos lo m) ++ l) (walk-snoc m (suc lo) k)
      ∙ sym (append_assoc (found (lookup_pos lo m)) (walk m (suc lo) k) _)
      ∙ ap (λ p. walk m lo (suc k) ++ found (lookup_pos p m)) next

  collect-walk : (m : List (ℕ × V)) (n : ℕ) → collect m n ≡ walk m 0 n
  unfolding collect
  collect-walk m zero = refl
  collect-walk m (suc n) =
      let last : n ≡ n + 0 = omega arith in
      ap (λ l. l ++ found (lookup_pos n m)) (collect-walk m n)
      ∙ ap (λ p. walk m 0 n ++ found (lookup_pos p m)) last
      ∙ sym (walk-snoc m 0 n)

  lookup-before :
      (at lo hi : ℕ) (m : List (ℕ × V)) → at < lo → IsLog lo hi m → lookup_pos at m ≡ none
  unfolding lookup_pos
  lookup-before at lo hi [] h log = refl
  lookup-before at lo hi ((k, v) ∷ m) h (le, lt, log) =
      ground (arith, lookup-before at (suc k) hi m (omega arith) log)

  lookup-append :
      (at : ℕ) (a b : List (ℕ × V))
      → lookup_pos at (a ++ b) ≡ elim (lookup_pos at a) [ none ↦ lookup_pos at b | some v ↦ some v ]
  unfolding lookup_pos
  lookup-append at [] b = refl
  lookup-append at ((k, v) ∷ a) b = elim (Bool-cases (k == at)) [
    | inl e ↦ rw e
    | inr e ↦ rw e (lookup-append at a b)
  ]

  lookup-reverse :
      (at lo hi : ℕ) (m : List (ℕ × V))
      → IsLog lo hi m
      → lookup_pos at (reverse m) ≡ lookup_pos at m
  unfolding lookup_pos
  lookup-reverse at lo hi [] log = refl
  lookup-reverse at lo hi ((k, v) ∷ m) (le, lt, log) =
      let turned : lookup_pos at (reverse ((k, v) ∷ m))
          ≡ elim (lookup_pos at m) [ none ↦ lookup_pos at ((k, v) ∷ []) | some x ↦ some x ] =
        rw (reverse-cons, lookup-append at (reverse m), lookup-reverse at (suc k) hi m log) in
      elim (Bool-cases (k == at)) [
        | inl here ↦
            let before = lookup-before at (suc k) hi m (ground arith) log in
            turned ∙ rw (before, here, lookup_pos)
        | inr there ↦ elim (Option-cases (lookup_pos at m)) [
          | inl nothing ↦ turned ∙ rw (nothing, there, lookup_pos)
          | inr (x, something) ↦ turned ∙ rw (something, there, lookup_pos)
        ]
      ]

  walk-log :
      (m es : List (ℕ × V)) (lo k : ℕ)
      → IsLog lo (k + lo) es
      → ((at : ℕ) → lo ≤ at → lookup_pos at m ≡ lookup_pos at es)
      → walk m lo k ≡ map (λ e. e.1) es
  unfolding lookup_pos
  walk-log m [] lo zero log same = refl
  walk-log m ((p, v) ∷ es) lo zero (le, lt, log) same = absurd (omega arith)
  walk-log m [] lo (suc k) log same =
      rw (same lo (omega arith)) (walk-log m [] (suc lo) k tt (λ at le. same at (omega arith)))
  walk-log m ((p, v) ∷ es) lo (suc k) (le, lt, log) same =
      let rest : k + suc lo ≡ suc k + lo = omega arith in
      elim (Bool-cases (p == lo)) [
        | inl here ↦
            let equal : p ≡ lo = ground arith in
            let log' : IsLog (suc lo) (k + suc lo) es =
              subst (λ q. IsLog (suc q) (k + suc lo) es) equal
                (subst (λ hi. IsLog (suc p) hi es) (sym rest) log) in
            let first : lookup_pos lo m ≡ some v = same lo (omega arith) ∙ rw here in
            rw first (
              ap (λ l. v ∷ l)
                (walk-log m es (suc lo) k log' (λ at after. same at (omega arith) ∙ ground arith)))
        | inr there ↦
            let log' : IsLog (suc lo) (k + suc lo) ((p, v) ∷ es) =
              rw rest (ground arith, lt, log) in
            let nothing : lookup_pos lo m ≡ none =
              same lo (omega arith)
              ∙ lookup-before lo (suc lo) (k + suc lo) ((p, v) ∷ es) (omega arith) log' in
            rw nothing
              (walk-log m ((p, v) ∷ es) (suc lo) k log' (λ at after. same at (omega arith)))
      ]

  -- A map with the entries of such a log, in whatever order, gives the log's records in its order.
  pub collect-log :
      (m es : List (ℕ × V)) (n : ℕ)
      → IsLog 0 n es
      → ((at : ℕ) → lookup_pos at m ≡ lookup_pos at es)
      → collect m n ≡ map (λ e. e.1) es
  collect-log m es n log same =
      let all : n ≡ n + 0 = omega arith in
      collect-walk m n ∙ walk-log m es 0 n (subst (λ h. IsLog 0 h es) all log) (λ at le. same at)

  -- The records of such a log come out in the order in which they were entered.
  pub collect-reverse :
      (es : List (ℕ × V)) (n : ℕ) → IsLog 0 n es → collect (reverse es) n ≡ map (λ e. e.1) es
  collect-reverse es n log = collect-log (reverse es) es n log (λ at. lookup-reverse at 0 n es log)
