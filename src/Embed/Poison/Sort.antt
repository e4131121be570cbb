-- ===== src/Embed/Poison/Sort.antt =====
-- The sort of `assemble`: entries of one increasing list, given as two parts of it, come out as that
-- list without the rest.

use maestro_cms.Prelude.{
  ℕ, suc, ◌≡◌, refl, ap, ◌∙◌, Bool, true, false, ◌||◌, List, [], ◌∷◌, ◌++◌, map, arith, inl, inr,
  ltb, if◌then◌else◌, Bool-cases,
}
use maestro_cms.Embed.Defs.{Llms, IndexedInput, PosFailure, Input}
use maestro_cms.Embed.Run.{insert_failure, sort_from, sort_failures}
use maestro_cms.Embed.Poison.{Ascending, Ascending-keep, Ascending-weaken, keep}
use maestro_cms.Embed.Poison.Bisect.{alone, blamed}

-- A stable insertion sort of pairs by their first component.
module _ {ℓ} {A : Type ℓ} where
  abbrev pub insert_pair : ℕ × A → List (ℕ × A) → List (ℕ × A)
  insert_pair x [] = x ∷ []
  insert_pair x (y ∷ ys) = let on = y ∷ insert_pair x ys in if ltb x.0 y.0 then x ∷ y ∷ ys else on

  abbrev pub sort_pairs : List (ℕ × A) → List (ℕ × A) → List (ℕ × A)
  sort_pairs sorted [] = sorted
  sort_pairs sorted (x ∷ xs) = sort_pairs (insert_pair x sorted) xs

  pub sort_pairs-append :
      (sorted xs ys : List (ℕ × A))
      → sort_pairs sorted (xs ++ ys) ≡ sort_pairs (sort_pairs sorted xs) ys
  sort_pairs-append sorted [] ys = refl
  sort_pairs-append sorted (x ∷ xs) ys = sort_pairs-append (insert_pair x sorted) xs ys

-- What sort_failures does with the positions and the inputs of the failures.
module _ (llms : Llms) where
  blamed-insert_failure :
      (x : PosFailure llms) (ys : List (PosFailure llms))
      → blamed llms (insert_failure llms x ys)
        ≡ insert_pair (x.at, x.failure.inputs) (blamed llms ys)
  unfolding insert_failure
  blamed-insert_failure x [] = refl
  blamed-insert_failure x (y ∷ ys) = elim (Bool-cases (ltb x.at y.at)) [
    | inl e ↦ rw e
    | inr e ↦ rw e (ap (λ l. (y.at, y.failure.inputs) ∷ l) (blamed-insert_failure x ys))
  ]

  blamed-sort_from :
      (sorted xs : List (PosFailure llms))
      → blamed llms (sort_from llms sorted xs) ≡ sort_pairs (blamed llms sorted) (blamed llms xs)
  unfolding sort_from
  blamed-sort_from sorted [] = refl
  blamed-sort_from sorted (x ∷ xs) =
      blamed-sort_from (insert_failure llms x sorted) xs
      ∙ ap (λ l. sort_pairs l (blamed llms xs)) (blamed-insert_failure x sorted)

  pub blamed-sort_failures :
      (xs : List (PosFailure llms))
      → blamed llms (sort_failures llms xs) ≡ sort_pairs [] (blamed llms xs)
  unfolding sort_failures
  blamed-sort_failures xs = blamed-sort_from [] xs

insert-first :
    (it : IndexedInput) (items : List IndexedInput)
    → Ascending (suc it.at) items
    → insert_pair (alone it) (map alone items) ≡ alone it ∷ map alone items
insert-first it [] h = refl
insert-first it (x ∷ items) (first, rest) = ground arith

-- The sort does not move an entry that all the later ones belong behind.
sort-first :
    (y : ℕ × List Input) (ys : List (ℕ × List Input)) (xs : List IndexedInput)
    → Ascending (suc y.0) xs
    → sort_pairs (y ∷ ys) (map alone xs) ≡ y ∷ sort_pairs ys (map alone xs)
sort-first y ys [] h = refl
sort-first y ys (x ∷ xs) (first, rest) =
    let placed : insert_pair (alone x) (y ∷ ys) ≡ y ∷ insert_pair (alone x) ys = ground arith in
    ap (λ l. sort_pairs l (map alone xs)) placed
    ∙ sort-first y (insert_pair (alone x) ys) xs
        (Ascending-weaken (suc y.0) (suc x.at) xs (omega arith) rest)

-- The sort leaves an increasing list as it is.
pub sort_sorted :
    (lo : ℕ) (items : List IndexedInput)
    → Ascending lo items
    → sort_pairs [] (map alone items) ≡ map alone items
sort_sorted lo [] h = refl
sort_sorted lo (it ∷ items) (first, rest) =
    sort-first (alone it) [] items rest
    ∙ ap (λ l. alone it ∷ l) (sort_sorted (suc it.at) items rest)

-- Two parts that no item is in both of.
module _ (p q : IndexedInput → Bool)
    (apart : (it : IndexedInput) → p it ≡ true → q it ≡ false) where
  abbrev pub either : IndexedInput → Bool
  either it = p it || q it

  pub sort-keep :
      (lo : ℕ) (items : List IndexedInput)
      → Ascending lo items
      → sort_pairs (map alone (keep p items)) (map alone (keep q items))
        ≡ map alone (keep either items)
  unfolding keep
  sort-keep lo [] h = refl
  sort-keep lo (it ∷ items) (first, rest) =
      let on = sort-keep (suc it.at) items rest in
      let ps = map alone (keep p items) in
      let head : sort_pairs (alone it ∷ ps) (map alone (keep q items))
          ≡ alone it ∷ map alone (keep either items) =
        sort-first (alone it) ps (keep q items) (Ascending-keep q (suc it.at) items rest)
        ∙ ap (λ l. alone it ∷ l) on in
      elim (Bool-cases (p it)) [
        | inl here ↦ rw (here, apart it here) head
        | inr e ↦ elim (Bool-cases (q it)) [
          | inl here ↦
              let placed =
                insert-first it (keep p items) (Ascending-keep p (suc it.at) items rest) in
              rw (e, here) (ap (λ l. sort_pairs l (map alone (keep q items))) placed ∙ head)
          | inr neither ↦ rw (e, neither) on
        ]
      ]
