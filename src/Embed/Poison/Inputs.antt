-- ===== src/Embed/Poison/Inputs.antt =====
-- The first loop of `Run`, against the list of the inputs with their positions.
use mathlib.Core.List.{append_assoc, append-nil, map-append}
use maestro_cms.Prelude.{
  ℕ, suc, ◌+◌, ◌≤◌, ◌<◌, ◌≡◌, refl, sym, ap, ◌∙◌, subst, Bool, true, false, not, ◌&&◌, none, some,
  List, [], ◌∷◌, ◌++◌, map, arith, inl, inr, Bool-cases, Option-cases, length,
}
use maestro_cms.Embed.Defs.{Llms, validate, Input, IndexedInput, PosFailure, BatchFailure}
use maestro_cms.Embed.Run.{validate_all}
use maestro_cms.Embed.Poison.{Ascending, keep, keep-true, keep-false}
use maestro_cms.Embed.Poison.Bisect.{alone, blamed}

-- The inputs with their positions, from `i` on.
abbrev pub indexed : (Input → ℕ) → ℕ → List Input → List IndexedInput
indexed tokens i [] = []
indexed tokens i (input ∷ inputs) =
    (record { at = i; input = input; tokens = tokens input }) ∷ indexed tokens (i + 1) inputs

pub indexed-Ascending :
    (tokens : Input → ℕ) (i : ℕ) (inputs : List Input) → Ascending i (indexed tokens i inputs)
indexed-Ascending tokens i [] = tt
indexed-Ascending tokens i (input ∷ inputs) =
    let next : i + 1 ≡ suc i = omega arith in
    (
      omega arith,
      subst (λ lo. Ascending lo (indexed tokens (i + 1) inputs)) next
          (indexed-Ascending tokens (i + 1) inputs),
    )

-- No position reaches the bound.
abbrev pub IsBounded : ℕ → List IndexedInput → Type 0
IsBounded hi [] = Unit
IsBounded hi (it ∷ items) = (it.at < hi) × IsBounded hi items

pub indexed-IsBounded :
    (tokens : Input → ℕ) (i hi : ℕ) (inputs : List Input)
    → i + length inputs ≤ hi
    → IsBounded hi (indexed tokens i inputs)
indexed-IsBounded tokens i hi [] h = tt
indexed-IsBounded tokens i hi (input ∷ inputs) h =
    (omega arith, indexed-IsBounded tokens (i + 1) hi inputs (omega arith))

pub keep-IsBounded :
    (test : IndexedInput → Bool) (hi : ℕ) (items : List IndexedInput)
    → IsBounded hi items
    → IsBounded hi (keep test items)
unfolding keep
keep-IsBounded test hi [] h = tt
keep-IsBounded test hi (it ∷ items) (first, rest) = elim (Bool-cases (test it)) [
  | inl e ↦ rw e (first, keep-IsBounded test hi items rest)
  | inr e ↦ rw e (keep-IsBounded test hi items rest)
]

-- A test after another one, in either order of the words.
pub keep-keep :
    (p q : IndexedInput → Bool) (items : List IndexedInput)
    → keep p (keep q items) ≡ keep (λ it. q it && p it) items
unfolding keep
keep-keep p q [] = refl
keep-keep p q (it ∷ items) = elim (Bool-cases (q it)) [
  | inr e ↦ rw e (keep-keep p q items)
  | inl e ↦ elim (Bool-cases (p it)) [
    | inl e' ↦ rw (e, e', keep) (ap (λ l. it ∷ l) (keep-keep p q items))
    | inr e' ↦ rw (e, e', keep) (keep-keep p q items)
  ]
]

pub keep-ext :
    (p q : IndexedInput → Bool) (items : List IndexedInput)
    → ((it : IndexedInput) → p it ≡ q it)
    → keep p items ≡ keep q items
unfolding keep
keep-ext p q [] same = refl
keep-ext p q (it ∷ items) same = rw (same it, keep-ext p q items same)

module _ (llms : Llms) where
  abbrev pub is_valid : IndexedInput → Bool
  is_valid it = elim (validate llms it.input) [ none ↦ true | some e ↦ false ]

  abbrev pub is_invalid : IndexedInput → Bool
  is_invalid it = not (is_valid it)

  -- The valid inputs go on, and each invalid one is a failure of its own.
  pub validate_all-indexed :
      (tokens : Input → ℕ) (i : ℕ) (inputs : List Input) (failures : List (PosFailure llms))
      (valid : List IndexedInput)
      → (let r = validate_all llms tokens i inputs failures valid in
          (r.1 ≡ valid ++ keep is_valid (indexed tokens i inputs))
          × (blamed llms r.0
              ≡ blamed llms failures ++ map alone (keep is_invalid (indexed tokens i inputs))))
  unfolding validate_all keep
  validate_all-indexed tokens i [] failures valid =
      (sym (append-nil valid), sym (append-nil (blamed llms failures)))
  validate_all-indexed tokens i (input ∷ inputs) failures valid =
      let it : IndexedInput = record { at = i; input = input; tokens = tokens input } in
      let rest = indexed tokens (i + 1) inputs in
      elim (Option-cases (validate llms input)) [
        | inl ok ↦
            let on = validate_all-indexed tokens (i + 1) inputs failures (valid ++ it ∷ []) in
            let kept = keep-true is_valid it rest (rw (ok, is_valid)) in
            let left = keep-false is_invalid it rest (rw (ok, is_valid)) in
            rw (ok, validate_all)
              (
                on.0 ∙ append_assoc valid (it ∷ []) _ ∙ ap (λ l. valid ++ l) (sym kept),
                on.1 ∙ ap (λ l. blamed llms failures ++ map alone l) (sym left),
              )
        | inr (err, bad) ↦
            let bf : BatchFailure llms = record {
              inputs = input ∷ [];
              err = err;
              retryable = false;
            } in
            let failures' : List (PosFailure llms) =
              failures ++ (record { at = i; failure = bf }) ∷ [] in
            let on = validate_all-indexed tokens (i + 1) inputs failures' valid in
            let left = keep-false is_valid it rest (rw (bad, is_valid)) in
            let kept = keep-true is_invalid it rest (rw (bad, is_valid)) in
            rw (bad, validate_all)
              (
                on.0 ∙ ap (λ l. valid ++ l) (sym left),
                on.1
                    ∙ ap (λ l. l ++ map alone (keep is_invalid (indexed tokens (i + 1) inputs)))
                        (map-append (λ (p : PosFailure llms). (p.at, p.failure.inputs)) failures _)
                    ∙ append_assoc (blamed llms failures) (alone it ∷ []) _
                    ∙ ap (λ l. blamed llms failures ++ map alone l) (sym kept),
              )
      ]
