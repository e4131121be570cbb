-- ===== src/Embed/Run.antt =====
-- embed/embed.go: `Run` and `assemble`.
pub mod Loops
pub mod Records
pub mod Parts
pub mod Accounts
use maestro_cms.Prelude.{
  ℕ, zero, suc, ◌+◌, Option, none, some, List, [], ◌∷◌, ◌++◌, map, false, ltb, if◌then◌else◌,
  length,
}
use maestro_cms.Embed.Defs.{
  Llms, Config, Settings, with_defaults, validate, tokens_for, Input, IndexedInput, RunError,
  context_done, Embedded, BatchFailure, PosFailure, State, Outcome, done, aborted, RunResult,
}
use maestro_cms.Embed.Batches.{pack_batches}
use maestro_cms.Embed.Batch.{lookup_pos, embed_batch}

module _ {ℓ} {V : Type ℓ} where
  -- The loop of `assemble` over the positions below `n`.
  unfoldable pub collect : List (ℕ × V) → ℕ → List V
  collect m zero = []
  collect m (suc n) = collect m n ++ elim (lookup_pos n m) [ none ↦ [] | some v ↦ v ∷ [] ]

module _ (llms : Llms) where
  open llms use {World, ClientError, ContextError, ctx_err}

  -- `sort.SliceStable` by position: an insertion behind the entries that are not later.
  unfoldable pub insert_failure : PosFailure llms → List (PosFailure llms) → List (PosFailure llms)
  insert_failure x [] = x ∷ []
  insert_failure x (y ∷ ys) =
      let on = y ∷ insert_failure x ys in if ltb x.at y.at then x ∷ y ∷ ys else on

  unfoldable pub sort_from :
      List (PosFailure llms) → List (PosFailure llms) → List (PosFailure llms)
  sort_from sorted [] = sorted
  sort_from sorted (x ∷ xs) = sort_from (insert_failure x sorted) xs

  unfoldable pub sort_failures : List (PosFailure llms) → List (PosFailure llms)
  unfolding sort_from insert_failure
  sort_failures xs = sort_from [] xs

  unfoldable pub assemble : ℕ → List (ℕ × Embedded llms) → List (PosFailure llms) → RunResult llms
  assemble n records failures = record {
    records = collect records n;
    failures = map (λ p. p.failure) (sort_failures failures);
  }

  -- The first loop of `Run`: the failures of the invalid inputs, and the valid inputs.
  unfoldable pub validate_all :
      (Input → ℕ)
      → ℕ
      → List Input
      → List (PosFailure llms)
      → List IndexedInput
      → List (PosFailure llms) × List IndexedInput
  validate_all tokens i [] failures valid = (failures, valid)
  validate_all tokens i (input ∷ inputs) failures valid =
      let ok =
        validate_all tokens (i + 1) inputs failures
          (valid ++ (record { at = i; input = input; tokens = tokens input }) ∷ []) in
      elim (validate llms input) [
        | none ↦ ok
        | some err ↦
            let bf : BatchFailure llms = record {
              inputs = input ∷ [];
              err = err;
              retryable = false;
            } in
            validate_all tokens (i + 1) inputs (failures ++ (record { at = i; failure = bf }) ∷ [])
              valid
      ]

  -- The second loop of `Run`.
  unfoldable pub embed_all :
      Settings → List (List IndexedInput) → State llms → Option (Outcome llms)
  embed_all cfg [] st = some (done st)
  embed_all cfg (batch ∷ batches) st =
      let (cancel, w) = ctx_err st.world in
      let checked = record st { world = w } in
      let step = embed_batch llms cfg (length batch + 1) batch checked in
      elim cancel [
        | some e ↦ some (aborted (context_done e) checked)
        | none ↦ elim step [
          | none ↦ none
          | some (aborted e st') ↦ some (aborted e st')
          | some (done st') ↦ embed_all cfg batches st'
        ]
      ]

  unfoldable pub finish :
      ℕ → Outcome llms → RunResult llms × Option (RunError ClientError ContextError)
  finish n (done st) = (assemble n st.records st.failures, none)
  finish n (aborted e st) = (assemble n st.records st.failures, some e)

  -- `none` would stand for a bisection that does not end.
  unfoldable pub run :
      List Input
      → Config
      → World
      → Option (RunResult llms × Option (RunError ClientError ContextError))
  run inputs config w =
      let cfg = with_defaults llms config in
      let (failures, valid) = validate_all (tokens_for cfg.estimate) 0 inputs [] [] in
      let batches = pack_batches valid cfg.max_inputs cfg.max_tokens in
      elim (embed_all cfg batches (record { records = []; failures = failures; world = w })) [
        | none ↦ none
        | some outcome ↦ some (finish (length inputs) outcome)
      ]
