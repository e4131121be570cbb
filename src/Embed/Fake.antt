-- ===== src/Embed/Fake.antt =====
-- testcms/embedder.go: `FakeEmbedder`, and that it is a client that answers. The context is a parameter,
-- and so are the estimate of tokens, the default model, and the float of a number of thousandths.
use Prim.Native.Nat.{◌^◌, bit_xor}
use maestro_cms.Prelude.{
  ℕ, zero, suc, ◌+◌, ◌*◌, ◌%◌, ◌≡◌, inl, inr, Bool, Option, none, some, List, [], ◌∷◌, ◌++◌, arith,
  Bool-cases, Option-cases,
}
use maestro_cms.Prelude.Int.{ℤ, pos, negsuc}
use maestro_cms.Text.{Bytes, bytes_eq}
use maestro_cms.Text.Equal.{bytes_eq_refl}
use maestro_cms.Embed.Defs.{
  with_defaults, tokens_for, EmbeddingInput, EmbeddingRequest, Reply, vectors, failed, Llms, Input,
  Config, RunResult, RunError,
}
use maestro_cms.Embed.Batch.{lookup_id}
use maestro_cms.Embed.Batch.Accounts.{AllFound, Answers}
use maestro_cms.Embed.Run.{run}
use maestro_cms.Embed.Run.Accounts.{IsAccountOf, run-IsAccountOf}
use maestro_cms.Embed.Poison.Inputs.{indexed}
use maestro_cms.Embed.RequestId.{itoa}

-- `fnv.New64a`, with what was written before.
unfoldable pub fnv_write : ℕ → Bytes → ℕ
fnv_write h [] = h
fnv_write h (b ∷ s) = fnv_write (bit_xor h b * 1099511628211 % 2 ^ 64) s

-- The thousandths of a component, above -1.
unfoldable pub component : Bytes → ℕ → ℕ
component text i = fnv_write (fnv_write 14695981039346656037 text) (itoa i) % 2000

-- `dims`
unfoldable pub dims_or : ℕ → ℤ → ℕ
dims_or d (negsuc n) = d
dims_or d (pos zero) = d
dims_or d (pos (suc n)) = suc n

-- `make([]float32, dims)`, filled from position `i` on.
unfoldable pub fake_vector : {F : Type 0} → (ℕ → F) → Bytes → ℕ → ℕ → List F
fake_vector to_float text i zero = []
fake_vector to_float text i (suc n) =
    to_float (component text i) ∷ fake_vector to_float text (i + 1) n

-- `EmbeddingResponse`: its vectors by id, and the tokens of its usage.
pub record Response (F : Type 0) : Type 0 where
  pub by_id : List (Bytes × List F)
  pub tokens : ℕ

-- The fields that a caller sets; `none` is nil, and for `model_ref` the zero value. The hooks may keep
-- a state, which is a part of the world `W`.
pub record FakeEmbedder (W F ModelRef E : Type 0) : Type 0 where
  pub model_ref : Option ModelRef
  pub dims : ℤ
  pub fail_func : Option (EmbeddingRequest → W → Option E × W)
  pub corrupt : Option (Response F → W → Response F × W)

-- `callCount` and `requests`
pub record Calls : Type 0 where
  pub call_count : ℕ
  pub requests : List EmbeddingRequest

-- An error of the context, or of `FailFunc`.
pub data FakeError (ContextError E : Type 0) : Type 0 where
  ctx_failed : ContextError → FakeError ContextError E
  refused : E → FakeError ContextError E

AllFound-cons :
    {V : Type 0} (id : Bytes) (v : V) (vs : List (Bytes × V)) (inputs : List EmbeddingInput)
    → AllFound vs inputs
    → AllFound ((id, v) ∷ vs) inputs
unfolding lookup_id
AllFound-cons id v vs [] h = tt
AllFound-cons id v vs (i ∷ inputs) h = (
  elim (Bool-cases (bytes_eq id i.id)) [
    | inl same ↦ (v, ground (arith, same))
    | inr differ ↦ (h.0.0, ground (arith, differ, h.0.1))
  ],
  AllFound-cons id v vs inputs h.1,
)

module _ {W F ModelRef E ContextError : Type 0} (ctx : W → Option ContextError × W)
    (to_float : ℕ → F) (estimate : Bytes → ℕ) (default_model : ModelRef)
    (f : FakeEmbedder W F ModelRef E) where
  -- The loop over the inputs.
  unfoldable pub response_to : ℕ → List EmbeddingInput → Response F
  response_to dims [] = record { by_id = []; tokens = 0 }
  response_to dims (i ∷ inputs) =
      let rest = response_to dims inputs in
      record {
        by_id = (i.id, fake_vector to_float i.text 0 dims) ∷ rest.by_id;
        tokens = estimate i.text + rest.tokens;
      }

  abbrev pub fail_error : EmbeddingRequest → W → Option E × W
  fail_error req w = elim f.fail_func [ none ↦ (none, w) | some fail ↦ fail req w ]

  abbrev pub corrupted : Response F → W → Response F × W
  corrupted resp w = elim f.corrupt [ none ↦ (resp, w) | some corrupt ↦ corrupt resp w ]

  -- `Embed`; the runner reads the vectors of a response.
  unfoldable pub fake_embed :
      EmbeddingRequest → W × Calls → Reply (List F) (FakeError ContextError E) × (W × Calls)
  fake_embed req (w, calls) =
      let (c, w') = ctx w in
      let calls' : Calls = record {
        call_count = calls.call_count + 1;
        requests = calls.requests ++ req ∷ [];
      } in
      let (fails, w'') = fail_error req w' in
      let dims = dims_or (dims_or 8 f.dims) req.dimensions in
      let (resp, w''') = corrupted (response_to dims req.inputs) w'' in
      elim c [
        | some e ↦ (failed (ctx_failed e), (w', calls))
        | none ↦ elim fails [
          | some e ↦ (failed (refused e), (w'', calls'))
          | none ↦ (vectors resp.by_id, (w''', calls'))
        ]
      ]

  -- `Model`
  unfoldable pub fake_model : ModelRef
  fake_model = elim f.model_ref [ none ↦ default_model | some m ↦ m ]

  abbrev pub ctx_of : W × Calls → Option ContextError × (W × Calls)
  ctx_of (w, calls) = let (c, w') = ctx w in (c, (w', calls))

  -- The fake as the client of the runner, where `errors.Is(err, context.Canceled)` is asked of an error
  -- of the context and of one of `FailFunc`.
  abbrev pub fake_client :
      (FakeError ContextError E → Bool) → (FakeError ContextError E → Bool) → Bytes → Llms
  fake_client is_canceled retryable purpose = record {
    World = W × Calls;
    Vector = List F;
    ModelRef = ModelRef;
    ClientError = FakeError ContextError E;
    ContextError = ContextError;
    ctx_err = ctx_of;
    embed = fake_embed;
    model = fake_model;
    is_canceled = is_canceled;
    retryable = retryable;
    estimate_text_tokens = estimate;
    purpose_embedding = purpose;
  }

  response_to-AllFound :
      (dims : ℕ) (inputs : List EmbeddingInput) → AllFound (response_to dims inputs).by_id inputs
  unfolding response_to lookup_id
  response_to-AllFound dims [] = tt
  response_to-AllFound dims (i ∷ inputs) = (
    (fake_vector to_float i.text 0 dims, ground (arith, bytes_eq_refl i.id)),
    AllFound-cons i.id (fake_vector to_float i.text 0 dims) (response_to dims inputs).by_id inputs
        (response_to-AllFound dims inputs),
  )

  -- A fake that does not corrupt its responses answers every requested id.
  pub fake_client-Answers :
      (is_canceled retryable : FakeError ContextError E → Bool) (purpose : Bytes)
      → f.corrupt ≡ none
      → Answers (fake_client is_canceled retryable purpose)
  unfolding fake_embed
  fake_client-Answers is_canceled retryable purpose honest req (w, calls) vs h =
      let resp = response_to (dims_or (dims_or 8 f.dims) req.dimensions) req.inputs in
      elim (Option-cases (ctx w).0) [
        | inr (e, done) ↦ absurd (ground (arith, h, done))
        | inl going ↦ elim (Option-cases (fail_error req (ctx w).1).0) [
          | inr (e, fails) ↦ absurd (ground (arith, h, going, fails))
          | inl passes ↦
              let same : vs ≡ resp.by_id = ground (arith, h, going, passes, honest) in
              rw same (response_to-AllFound (dims_or (dims_or 8 f.dims) req.dimensions) req.inputs)
        ]
      ]

  -- `Run` with a fake that does not corrupt its responses returns, whatever its other hooks and the
  -- context do, and its result accounts for the inputs with no input in two places: the embedded ones,
  -- whose records in the order of the inputs are the result's, those of the failures and those not
  -- processed are together the inputs, each once.
  pub fake_run :
      (is_canceled retryable : FakeError ContextError E → Bool) (purpose : Bytes)
      (inputs : List Input) (config : Config) (w : W × Calls)
      → f.corrupt ≡ none
      → let llms = fake_client is_canceled retryable purpose in
        (r : RunResult llms × Option (RunError (FakeError ContextError E) ContextError)) × (run llms
            inputs config w
          ≡ some r)
        × (account : IsAccountOf llms
            (indexed (tokens_for (with_defaults llms config).estimate) 0 inputs)
            r)
        × (account.extra ≡ [])
  fake_run is_canceled retryable purpose inputs config w honest =
      let llms = fake_client is_canceled retryable purpose in
      let (r, returns, account) = run-IsAccountOf llms inputs config w in
      (
        r,
        returns,
        account,
        account.extra_none (fake_client-Answers is_canceled retryable purpose honest),
      )
