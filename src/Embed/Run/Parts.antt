-- ===== src/Embed/Run/Parts.antt =====
-- What the account of `Run` is put together from: the valid inputs and the others, the positions of the
-- records, and the inputs of the failures.
use mathlib.Core.List.{Perm, perm_append_comm, append-nil, append_assoc, map-append}
use mathlib.Core.List.Perm
use maestro_cms.Prelude.{
  ℕ, suc, ◌≤◌, ◌<◌, ◌≡◌, refl, sym, ap, ◌∙◌, subst, List, [], ◌∷◌, ◌++◌, map, arith, inl, inr,
  Bool-cases, ◌==◌,
}
use maestro_cms.Embed.Defs.{Llms, Input, IndexedInput, PosFailure, State, Embedded}
use maestro_cms.Embed.Batch.{record_of}
use maestro_cms.Embed.Batch.Accounts.{
  Embedding, entry, failed_inputs, inputs_of, items_of, perm_regroup,
}
use maestro_cms.Embed.Run.{sort_from, sort_failures, assemble}
use maestro_cms.Embed.Run.Loops.{reported, reported-map, sort_from-Perm}
use maestro_cms.Embed.Run.Records.{times, Distinct, Distinct-part}
use maestro_cms.Embed.Poison.{Ascending, keep}
use maestro_cms.Embed.Poison.Bisect.{alone, blamed}
use maestro_cms.Embed.Poison.Collect.{IsLog}
use maestro_cms.Embed.Poison.Inputs.{IsBounded, is_valid, is_invalid}

pub perm_account {ℓ} :
    {A : Type ℓ} (e f r a b x i : List A)
    → Perm (e ++ r) (b ++ x)
    → Perm (f ++ (b ++ a)) i
    → Perm ((e ++ (f ++ r)) ++ a) (i ++ x)
perm_account e f r a b x i p q =
    let front : Perm (e ++ (f ++ r)) (f ++ (e ++ r)) =
      rw (sym (append_assoc e f r), sym (append_assoc f e r))
        (Perm.append_right r (perm_append_comm e f)) in
    let moved : Perm (((f ++ b) ++ x) ++ (a ++ [])) (((f ++ b) ++ a) ++ (x ++ [])) =
      perm_regroup (f ++ b) x a [] in
    let exchanged : Perm ((f ++ (b ++ x)) ++ a) ((f ++ (b ++ a)) ++ x) =
      rw (append-nil a, append-nil x, append_assoc f b x, append_assoc f b a) at moved in
    Perm.trans (Perm.append_right a (Perm.trans front (Perm.append_left f p)))
      (Perm.trans exchanged (Perm.append_right x q))

abbrev pub position : IndexedInput → ℕ
position it = it.at

-- Increasing positions below a bound are distinct.
Ascending-times :
    (lo n at : ℕ) (items : List IndexedInput)
    → Ascending lo items
    → IsBounded n items
    → (times at (map position items) ≤ 1)
      × ((at < lo → times at (map position items) ≡ 0)
          × (n ≤ at → times at (map position items) ≡ 0))
Ascending-times lo n at [] asc bound = (omega arith, ((λ lt. refl), λ le. refl))
Ascending-times lo n at (it ∷ items) (first, asc) (below, bound) =
    let (once, (before, behind)) = Ascending-times (suc it.at) n at items asc bound in
    elim (Bool-cases (it.at == at)) [
      | inl here ↦
          let none_more = before (ground arith) in
          rw here
            (omega (arith, none_more), ((λ lt. absurd (ground arith)), λ le. absurd (ground arith)))
      | inr other ↦ rw other (once, ((λ lt. before (omega arith)), behind))
    ]

pub Ascending-Distinct :
    (n : ℕ) (items : List IndexedInput)
    → Ascending 0 items
    → IsBounded n items
    → Distinct n (map position items)
Ascending-Distinct n items asc bound at =
    let (once, (before, behind)) = Ascending-times 0 n at items asc bound in (once, behind)

module _ (llms : Llms) where
  pub reported-assemble :
      (n : ℕ) (st : State llms) (l : List Input)
      → failed_inputs llms st.failures ≡ l
      → Perm (reported llms (assemble llms n st.records st.failures).failures) l
  unfolding assemble sort_failures
  reported-assemble n st l e =
      rw (reported-map llms (sort_from llms [] st.failures), sym e)
        (sort_from-Perm llms [] st.failures)

  -- The inputs of the failures, from what the failures blame.
  abbrev pub blamed_inputs : List (ℕ × List Input) → List Input
  blamed_inputs [] = []
  blamed_inputs (b ∷ bs) = b.1 ++ blamed_inputs bs

  pub failed_inputs-blamed :
      (fs : List (PosFailure llms)) → failed_inputs llms fs ≡ blamed_inputs (blamed llms fs)
  failed_inputs-blamed [] = refl
  failed_inputs-blamed (p ∷ ps) = ap (λ l. p.failure.inputs ++ l) (failed_inputs-blamed ps)

  pub blamed_inputs-alone :
      (items : List IndexedInput) → blamed_inputs (map alone items) ≡ inputs_of llms items
  blamed_inputs-alone [] = refl
  blamed_inputs-alone (it ∷ items) = ap (λ l. it.input ∷ l) (blamed_inputs-alone items)

  -- The valid items and the others.
  pub keep-Perm :
      (items : List IndexedInput)
      → Perm (keep (is_invalid llms) items ++ keep (is_valid llms) items) items
  unfolding keep
  keep-Perm [] = Perm.refl []
  keep-Perm (it ∷ items) =
      let bad = keep (is_invalid llms) items in
      let good = keep (is_valid llms) items in
      elim (Bool-cases (is_valid llms it)) [
        | inl valid ↦
            let moved : Perm (bad ++ (it ∷ good)) (it ∷ (bad ++ good)) =
              Perm.trans (perm_append_comm bad (it ∷ good))
                (Perm.cons it (perm_append_comm good bad)) in
            rw (valid, keep) (Perm.trans moved (Perm.cons it (keep-Perm items)))
        | inr invalid ↦ rw (invalid, keep) (Perm.cons it (keep-Perm items))
      ]

  abbrev pub position_of : Embedding llms → ℕ
  position_of e = e.0.at

  abbrev pub recorded_as : Embedding llms → Embedded llms
  recorded_as e = record_of llms e.0 e.1

  pub IsLog-Ascending :
      (lo n : ℕ) (es : List (Embedding llms))
      → IsLog lo n (map (entry llms) es)
      → Ascending lo (items_of llms es)
  IsLog-Ascending lo n [] log = tt
  IsLog-Ascending lo n (e ∷ es) (le, lt, log) = (le, IsLog-Ascending (suc e.0.at) n es log)

  positions_of : (es : List (Embedding llms)) → map position (items_of llms es) ≡ map position_of es
  positions_of [] = refl
  positions_of (e ∷ es) = ap (λ l. e.0.at ∷ l) (positions_of es)

  -- Items that are a part of distinct ones have distinct positions.
  pub inside-Distinct :
      (n : ℕ) (es : List (Embedding llms)) (left before after all : List IndexedInput)
      → Perm (items_of llms es ++ left) before
      → all ≡ before ++ after
      → Distinct n (map position all)
      → Distinct n (map position_of es)
  inside-Distinct n es left before after all p split d =
      let whole : Perm (items_of llms es ++ (left ++ after)) all =
        rw (split, sym (append_assoc (items_of llms es) left after)) (Perm.append_right after p) in
      let positions : Perm (map position_of es ++ map position (left ++ after)) (map position all) =
        subst (λ l. Perm l (map position all))
          (map-append position (items_of llms es) (left ++ after)
            ∙ ap (λ l. l ++ map position (left ++ after)) (positions_of es))
          (Perm.map position whole) in
      Distinct-part n (map position_of es) (map position (left ++ after)) (map position all)
        positions d
