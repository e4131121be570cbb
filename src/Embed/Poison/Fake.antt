-- ===== src/Embed/Poison/Fake.antt =====
-- testcms/embedder.go: a `FakeEmbedder` whose `FailFunc` refuses requests with a poison input.
use maestro_cms.Prelude.{
  ℕ, ◌≡◌, refl, ap, Bool, false, Option, none, some, List, [], ◌∷◌, map, arith, if◌then◌else◌,
}
use maestro_cms.Text.{Bytes}
use maestro_cms.Embed.Defs.{EmbeddingInput, EmbeddingRequest}
use maestro_cms.Embed.Fake.{
  FakeEmbedder, FakeError, refused, fail_error, response_to, fake_embed, fake_client, dims_or,
}
use maestro_cms.Embed.Poison.{has_poison, IsPoisoned}

module _ {W F ModelRef E ContextError : Type 0} (ctx : W → Option ContextError × W)
    (to_float : ℕ → F) (estimate : Bytes → ℕ) (default_model : ModelRef)
    (f : FakeEmbedder W F ModelRef E) where
  ids-response_to :
      (dims : ℕ) (inputs : List EmbeddingInput)
      → map (λ v. v.0) (response_to ctx to_float estimate default_model f dims inputs).by_id
        ≡ map (λ i. i.id) inputs
  unfolding response_to
  ids-response_to dims [] = refl
  ids-response_to dims (i ∷ inputs) = ap (λ l. i.id ∷ l) (ids-response_to dims inputs)

  -- Such a fake, in a context that is never done, is a client that refuses poison.
  pub fake_client-IsPoisoned :
      (poison : EmbeddingInput → Bool) (e : E)
      (is_canceled retryable : FakeError ContextError E → Bool) (purpose : Bytes)
      → f.corrupt ≡ none
      → ((req : EmbeddingRequest) (w : W)
          → (fail_error ctx to_float estimate default_model f req w).0
            ≡ (if has_poison poison req.inputs then some e else none))
      → ((w : W) → (ctx w).0 ≡ none)
      → is_canceled (refused e) ≡ false
      → IsPoisoned
          (fake_client ctx to_float estimate default_model f is_canceled retryable purpose)
          poison
  unfolding fake_embed
  fake_client-IsPoisoned poison e is_canceled retryable purpose honest fails alive called = record {
    serves = λ req (w, calls) clean.
        let dims = dims_or (dims_or 8 f.dims) req.dimensions in
        let passes : (fail_error ctx to_float estimate default_model f req (ctx w).1).0 ≡ none =
          rw clean at (fails req (ctx w).1) in
        let resp = response_to ctx to_float estimate default_model f dims req.inputs in
        (resp.by_id, ground (arith, alive w, passes, honest), ids-response_to dims req.inputs);
    refuses = λ req (w, calls) poisoned.
        let stops : (fail_error ctx to_float estimate default_model f req (ctx w).1).0 ≡ some e =
          rw poisoned at (fails req (ctx w).1) in
        (refused e, ground (arith, alive w, stops), called);
    alive = λ (w, calls). alive w;
  }
