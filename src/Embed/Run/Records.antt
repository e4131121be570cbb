-- ===== src/Embed/Run/Records.antt =====
-- The records loop of `assemble` on a log without repetition, entered in any order.
use mathlib.Core.List.{Perm, foldr}
use native.Mathlib.Nat.{ℕ_set}
use mathlib.Core.List.Perm
use maestro_cms.Prelude.{
  ℕ, suc, ◌+◌, ◌≤◌, ◌<◌, ◌≡◌, refl, sym, ap, ◌∙◌, List, [], ◌∷◌, ◌++◌, map, arith, inl, inr, ltb,
  lt-or-le, ◌==◌, if◌then◌else◌, Bool-cases,
}
use maestro_cms.Embed.Batch.{lookup_pos}
use maestro_cms.Embed.Batch.Accounts.{AllOf}
use maestro_cms.Embed.Run.{collect}
use maestro_cms.Embed.Poison.Collect.{IsLog, collect-log}

-- How often a position stands in a list.
abbrev pub times : ℕ → List ℕ → ℕ
times at [] = 0
times at (k ∷ ks) = if k == at then times at ks + 1 else times at ks

times-append : (at : ℕ) (ks ls : List ℕ) → times at (ks ++ ls) ≡ times at ks + times at ls
times-append at [] ls = omega arith
times-append at (k ∷ ks) ls = ground (arith, times-append at ks ls)

abbrev count_one : ℕ → ℕ → ℕ → ℕ
count_one at k n = if k == at then n + 1 else n

times-foldr : (at : ℕ) (ks : List ℕ) → times at ks ≡ foldr (count_one at) 0 ks
times-foldr at [] = refl
times-foldr at (k ∷ ks) = ap (count_one at k) (times-foldr at ks)

times-Perm : (at : ℕ) (ks ls : List ℕ) → Perm ks ls → times at ks ≡ times at ls
times-Perm at ks ls p =
    times-foldr at ks
    ∙ Perm.foldr-eq ℕ_set (count_one at) (λ a b x. ground arith) p 0
    ∙ sym (times-foldr at ls)

-- No position stands twice, and all are below `n`.
abbrev pub Distinct : ℕ → List ℕ → Type 0
Distinct n ks = (at : ℕ) → (times at ks ≤ 1) × (n ≤ at → times at ks ≡ 0)

-- A part of a list without repetition.
pub Distinct-part :
    (n : ℕ) (ks ls all : List ℕ) → Perm (ks ++ ls) all → Distinct n all → Distinct n ks
Distinct-part n ks ls all p d at =
    let (once, below) = d at in
    let same = times-Perm at (ks ++ ls) all p in
    let split = times-append at ks ls in
    (omega (arith, once, same, split), λ le. omega (arith, below le, same, split))

module _ {A V : Type 0} (key : A → ℕ) (value : A → V) where
  abbrev logged : A → ℕ × V
  logged x = (key x, value x)

  -- The list in the order of its keys.
  abbrev insert_at : A → List A → List A
  insert_at x [] = x ∷ []
  insert_at x (y ∷ ys) =
      let on = y ∷ insert_at x ys in if ltb (key x) (key y) then x ∷ y ∷ ys else on

  abbrev pub by_position : List A → List A
  by_position [] = []
  by_position (x ∷ xs) = insert_at x (by_position xs)

  insert_at-Perm : (x : A) (ys : List A) → Perm (insert_at x ys) (x ∷ ys)
  insert_at-Perm x [] = Perm.refl (x ∷ [])
  insert_at-Perm x (y ∷ ys) = elim (Bool-cases (ltb (key x) (key y))) [
    | inl first ↦ rw first (Perm.refl (x ∷ y ∷ ys))
    | inr later ↦ rw later (Perm.trans (Perm.cons y (insert_at-Perm x ys)) (Perm.swap x y ys))
  ]

  pub by_position-Perm : (xs : List A) → Perm (by_position xs) xs
  by_position-Perm [] = Perm.refl []
  by_position-Perm (x ∷ xs) =
      Perm.trans (insert_at-Perm x (by_position xs)) (Perm.cons x (by_position-Perm xs))

  insert_at-IsLog :
      (lo n : ℕ) (x : A) (ys : List A)
      → lo ≤ key x
      → key x < n
      → times (key x) (map key ys) ≡ 0
      → IsLog lo n (map logged ys)
      → IsLog lo n (map logged (insert_at x ys))
  insert_at-IsLog lo n x [] le lt new log = (le, lt, tt)
  insert_at-IsLog lo n x (y ∷ ys) le lt new (le', lt', log) =
      elim (Bool-cases (ltb (key x) (key y))) [
        | inl first ↦ rw first (le, lt, (ground arith, lt', log))
        | inr later ↦
            let new' : times (key x) (map key ys) ≡ 0 = ground arith in
            let above : suc (key y) ≤ key x = ground arith in
            rw later (le', lt', insert_at-IsLog (suc (key y)) n x ys above lt new' log)
      ]

  -- The number of a position in the sorted list, and its value.
  times-insert_at :
      (at : ℕ) (x : A) (ys : List A)
      → times at (map key (insert_at x ys)) ≡ times at (map key (x ∷ ys))
  times-insert_at at x [] = refl
  times-insert_at at x (y ∷ ys) = elim (Bool-cases (ltb (key x) (key y))) [
    | inl first ↦ rw first refl
    | inr later ↦ rw later (ground (arith, times-insert_at at x ys))
  ]

  times-by_position :
      (at : ℕ) (xs : List A) → times at (map key (by_position xs)) ≡ times at (map key xs)
  times-by_position at [] = refl
  times-by_position at (x ∷ xs) =
      times-insert_at at x (by_position xs) ∙ ground (arith, times-by_position at xs)

  lookup-insert_at :
      (at : ℕ) (x : A) (ys : List A)
      → times (key x) (map key ys) ≡ 0
      → lookup_pos at (map logged (insert_at x ys)) ≡ lookup_pos at (map logged (x ∷ ys))
  unfolding lookup_pos
  lookup-insert_at at x [] new = refl
  lookup-insert_at at x (y ∷ ys) new = elim (Bool-cases (ltb (key x) (key y))) [
    | inl first ↦ rw first refl
    | inr later ↦
        let new' : times (key x) (map key ys) ≡ 0 = ground arith in
        rw later (ground (arith, lookup-insert_at at x ys new'))
  ]

  Distinct-tail :
      (n : ℕ) (x : A) (xs : List A) → Distinct n (map key (x ∷ xs)) → Distinct n (map key xs)
  Distinct-tail n x xs d at =
      let (once, below) = d at in (ground arith, λ le. ground (arith, below le))

  Distinct-head :
      (n : ℕ) (x : A) (xs : List A)
      → Distinct n (map key (x ∷ xs))
      → (times (key x) (map key xs) ≡ 0) × (key x < n)
  Distinct-head n x xs d =
      let (once, below) = d (key x) in
      (
        ground arith,
        elim (lt-or-le (key x) n) [ inl lt ↦ lt | inr le ↦ absurd (ground (arith, below le)) ],
      )

  by_position_lem :
      (n : ℕ) (xs : List A)
      → Distinct n (map key xs)
      → IsLog 0 n (map logged (by_position xs))
        × ((at : ℕ) → lookup_pos at (map logged xs) ≡ lookup_pos at (map logged (by_position xs)))
  unfolding lookup_pos
  by_position_lem n [] d = (tt, λ at. refl)
  by_position_lem n (x ∷ xs) d =
      let (log, same) = by_position_lem n xs (Distinct-tail n x xs d) in
      let (new, lt) = Distinct-head n x xs d in
      let new' : times (key x) (map key (by_position xs)) ≡ 0 =
        times-by_position (key x) xs ∙ new in
      (
        insert_at-IsLog 0 n x (by_position xs) (omega arith) lt new' log,
        λ at. ground (arith, same at, lookup-insert_at at x (by_position xs) new'),
      )

  insert_at-AllOf :
      (P : A → Type 0) (x : A) (ys : List A) → P x → AllOf P ys → AllOf P (insert_at x ys)
  insert_at-AllOf P x [] h k = (h, tt)
  insert_at-AllOf P x (y ∷ ys) h (first, k) = elim (Bool-cases (ltb (key x) (key y))) [
    | inl before ↦ rw before (h, (first, k))
    | inr behind ↦ rw behind (first, insert_at-AllOf P x ys h k)
  ]

  pub by_position-AllOf : (P : A → Type 0) (xs : List A) → AllOf P xs → AllOf P (by_position xs)
  by_position-AllOf P [] h = tt
  by_position-AllOf P (x ∷ xs) (first, h) =
      insert_at-AllOf P x (by_position xs) first (by_position-AllOf P xs h)

  -- The records of a log without repetition are its values in the order of their positions.
  pub collect-by_position :
      (n : ℕ) (xs : List A)
      → Distinct n (map key xs)
      → (collect (map logged xs) n ≡ map value (by_position xs))
        × IsLog 0 n (map logged (by_position xs))
  collect-by_position n xs d =
      let (log, same) = by_position_lem n xs d in
      (
        collect-log (map logged xs) (map logged (by_position xs)) n log same
            ∙ values (by_position xs),
        log,
      )
    where
      values : (ys : List A) → map (λ e. e.1) (map logged ys) ≡ map value ys
      values [] = refl
      values (y ∷ ys) = ap (λ l. value y ∷ l) (values ys)
