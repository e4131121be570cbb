-- ===== src/Embed/Poison.antt =====
-- embed/embed.go: a client that refuses every request with a poison input, the case that the
-- bisection of `embedBatch` is for. What `Run` makes of its inputs with such a client.
pub mod Response
pub mod Bisect
pub mod Collect
pub mod Sort
pub mod Inputs
pub mod Run
pub mod Fake
use maestro_cms.Prelude.{
  ℕ, suc, ◌+◌, ◌≤◌, ◌<◌, ◌≡◌, refl, ap, Bool, true, false, not, ◌||◌, none, List, [], ◌∷◌, ◌++◌,
  map, arith, if◌then◌else◌, Bool-cases, inl, inr, zero, take, drop,
}
use maestro_cms.Text.{Bytes}
use maestro_cms.Embed.Defs.{Llms, IndexedInput, EmbeddingInput, EmbeddingRequest, vectors, failed}
use maestro_cms.Embed.RequestId.{request_id}

-- What the request holds for an item.
abbrev pub requested : IndexedInput → EmbeddingInput
requested it = record { id = request_id it.at; text = it.input.chunk.text; title = it.input.title }

abbrev pub requests : List IndexedInput → List EmbeddingInput
requests items = map requested items

-- What a test holds of, in order.
module _ {ℓ} {A : Type ℓ} where
  unfoldable pub keep : (A → Bool) → List A → List A
  keep test [] = []
  keep test (x ∷ xs) = let rest = keep test xs in if test x then x ∷ rest else rest

  pub keep-true :
      (test : A → Bool) (x : A) (xs : List A)
      → test x ≡ true
      → keep test (x ∷ xs) ≡ x ∷ keep test xs
  unfolding keep
  keep-true test x xs e = rw e

  pub keep-false :
      (test : A → Bool) (x : A) (xs : List A) → test x ≡ false → keep test (x ∷ xs) ≡ keep test xs
  unfolding keep
  keep-false test x xs e = rw e

  pub keep-append :
      (test : A → Bool) (xs ys : List A) → keep test (xs ++ ys) ≡ keep test xs ++ keep test ys
  unfolding keep
  keep-append test [] ys = refl
  keep-append test (x ∷ xs) ys = elim (Bool-cases (test x)) [
    | inl e ↦ rw e (ap (λ l. x ∷ l) (keep-append test xs ys))
    | inr e ↦ rw e (keep-append test xs ys)
  ]

-- The positions increase, and none is below the bound.
abbrev pub Ascending : ℕ → List IndexedInput → Type 0
Ascending lo [] = Unit
Ascending lo (it ∷ items) = (lo ≤ it.at) × Ascending (suc it.at) items

pub Ascending-weaken :
    (lo hi : ℕ) (items : List IndexedInput) → lo ≤ hi → Ascending hi items → Ascending lo items
Ascending-weaken lo hi [] le h = tt
Ascending-weaken lo hi (it ∷ items) le (first, rest) = (omega arith, rest)

pub Ascending-left : (lo : ℕ) (b c : List IndexedInput) → Ascending lo (b ++ c) → Ascending lo b
Ascending-left lo [] c h = tt
Ascending-left lo (it ∷ b) c (first, rest) = (first, Ascending-left (suc it.at) b c rest)

pub Ascending-right : (lo : ℕ) (b c : List IndexedInput) → Ascending lo (b ++ c) → Ascending lo c
Ascending-right lo [] c h = h
Ascending-right lo (it ∷ b) c (first, rest) =
    Ascending-weaken lo (suc it.at) c (omega arith) (Ascending-right (suc it.at) b c rest)

pub Ascending-keep :
    (test : IndexedInput → Bool) (lo : ℕ) (items : List IndexedInput)
    → Ascending lo items
    → Ascending lo (keep test items)
unfolding keep
Ascending-keep test lo [] h = tt
Ascending-keep test lo (it ∷ items) (first, rest) =
    let on = Ascending-keep test (suc it.at) items rest in
    elim (Bool-cases (test it)) [
      | inl e ↦ rw e (first, on)
      | inr e ↦ rw e (Ascending-weaken lo (suc it.at) (keep test items) (omega arith) on)
    ]

module _ (poison : EmbeddingInput → Bool) where
  abbrev pub has_poison : List EmbeddingInput → Bool
  has_poison [] = false
  has_poison (i ∷ inputs) = poison i || has_poison inputs

  abbrev pub is_poison : IndexedInput → Bool
  is_poison it = poison (requested it)

  abbrev pub is_clean : IndexedInput → Bool
  is_clean it = not (is_poison it)

  pub keep-clean :
      (items : List IndexedInput)
      → has_poison (requests items) ≡ false
      → (keep is_clean items ≡ items) × (keep is_poison items ≡ [])
  unfolding keep
  keep-clean [] h = (refl, refl)
  keep-clean (it ∷ items) h =
      let first : is_poison it ≡ false = ground arith in
      let rest = keep-clean items (ground arith) in rw first (ap (λ l. it ∷ l) rest.0, rest.1)

-- The client serves each request without a poison input, one vector for each id and in order, and
-- refuses each other request with an error that is no cancellation. The context is never done.
pub record IsPoisoned (llms : Llms) (poison : EmbeddingInput → Bool) : Type 0 where
  pub serves :
      (req : EmbeddingRequest) (w : llms.World)
      → has_poison poison req.inputs ≡ false
      → (vs : List (Bytes × llms.Vector)) × ((llms.embed req w).0 ≡ vectors vs)
        × (map (λ v. v.0) vs ≡ map (λ i. i.id) req.inputs)
  pub refuses :
      (req : EmbeddingRequest) (w : llms.World)
      → has_poison poison req.inputs ≡ true
      → (e : llms.ClientError) × ((llms.embed req w).0 ≡ failed e) × (llms.is_canceled e ≡ false)
  pub alive : (w : llms.World) → (llms.ctx_err w).0 ≡ none
