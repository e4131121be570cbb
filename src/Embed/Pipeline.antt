-- ===== src/Embed/Pipeline.antt =====
-- chunk.Split and then embed.Run: the chunks of a text as the inputs of a run.
use mathlib.Core.List.{map-map}
use maestro_cms.Prelude.{
  ℕ, ◌+◌, ◌≡◌, ◌≢◌, refl, sym, ap, ◌∙◌, inl, inr, Bool, false, not, ◌&&◌, none, some, List, [], ◌∷◌,
  map, arith, Bool-cases, length,
}
use maestro_cms.Prelude.Int.{ℤ, pos}
use maestro_cms.Text.{Bytes, bytes_eq}
use maestro_cms.Text.Equal.{bytes_eq_ne}
use maestro_cms.Text.Trim.{trim_space}
use maestro_cms.Chunk.Defs as ChunkDefs
use maestro_cms.Chunk.Defs.{Chunk}
use maestro_cms.Chunk.Hard.{Float64}
use maestro_cms.Chunk.Run.{IsRun}
use maestro_cms.Chunk.Split.{split, leading}
use maestro_cms.Chunk.Split.Contract.{split_contract}
use maestro_cms.Embed.Defs.{
  Llms, Config, with_defaults, tokens_for, validate, Metadata, Input, IndexedInput, Embedded,
  EmbeddingInput, RunResult,
}
use maestro_cms.Embed.Batch.{record_of}
use maestro_cms.Embed.Batch.Accounts.{Embedding}
use maestro_cms.Embed.Run.{run}
use maestro_cms.Embed.Poison.{IsPoisoned, keep}
use maestro_cms.Embed.Poison.Inputs.{indexed}
use maestro_cms.Embed.Poison.Run.{is_good, is_bad, run_isolates}

-- What an application adds to the chunks of one artifact.
pub record Origin : Type 0 where
  pub source_id : Bytes
  pub artifact_id : Bytes
  pub title : Bytes
  pub metadata : Metadata

abbrev pub input_of : Origin → Chunk → Input
input_of o c = record {
  source_id = o.source_id;
  artifact_id = o.artifact_id;
  chunk = c;
  title = o.title;
  metadata = o.metadata;
}

-- Each chunk has an index that is not negative.
abbrev AllIndexed : List Chunk → Type 0
AllIndexed [] = Unit
AllIndexed (c ∷ cs) = ((k : ℕ) × (c.index ≡ pos k)) × AllIndexed cs

IsRun-AllIndexed :
    (text : Bytes) (lim k lo hi : ℕ) (cs : List Chunk) → IsRun text lim k lo hi cs → AllIndexed cs
IsRun-AllIndexed text lim k lo hi [] h = tt
IsRun-AllIndexed text lim k lo hi (c ∷ cs) (s, index, le, h) =
    ((k, index), IsRun-AllIndexed text lim (k + 1) (c.start_byte + 1) hi cs h)

-- A test of the items for the chunks is a test of the chunks.
keep-indexed :
    {B : Type 0} (o : Origin) (tokens : Input → ℕ) (f : Input → B) (p : IndexedInput → Bool)
    (q : Chunk → Bool) (i : ℕ) (cs : List Chunk)
    → ((c : Chunk) (k at t : ℕ)
        → c.index ≡ pos k
        → p (record { at = at; input = input_of o c; tokens = t }) ≡ q c)
    → AllIndexed cs
    → map (λ it. f it.input) (keep p (indexed tokens i (map (input_of o) cs)))
      ≡ map (λ c. f (input_of o c)) (keep q cs)
unfolding keep
keep-indexed o tokens f p q i [] agree h = refl
keep-indexed o tokens f p q i (c ∷ cs) agree ((k, index), h) =
    let rest = keep-indexed o tokens f p q (i + 1) cs agree h in
    let same = agree c k i (tokens (input_of o c)) index in
    elim (Bool-cases (q c)) [
      | inl e ↦ rw (same, e) (ap (λ l. f (input_of o c) ∷ l) rest)
      | inr e ↦ rw (same, e) rest
    ]

-- A chunk that is not white space only and that the client does not refuse.
abbrev pub embeds : (Bytes → Bool) → Chunk → Bool
embeds refused c = not (bytes_eq (trim_space c.text) []) && not (refused c.text)

abbrev pub left_out : (Bytes → Bool) → Chunk → Bool
left_out refused c = not (embeds refused c)

-- What a record has of its chunk, and the same of a chunk.
abbrev pub recorded : {llms : Llms} → Embedded llms → Bytes × ℤ
recorded e = (e.text, e.chunk_index)

abbrev pub content : Chunk → Bytes × ℤ
content c = (c.text, c.index)

module _ (llms : Llms) (refused : Bytes → Bool)
    (client : IsPoisoned llms (λ i. refused i.text)) where
  open llms use {World}

  is_good-embeds :
      (o : Origin) (c : Chunk) (k at t : ℕ)
      → o.source_id ≢ []
      → o.artifact_id ≢ []
      → c.index ≡ pos k
      → is_good llms (λ i. refused i.text) (record { at = at; input = input_of o c; tokens = t })
        ≡ embeds refused c
  unfolding validate
  is_good-embeds o c k at t has_source has_artifact index =
      let source = bytes_eq_ne o.source_id [] has_source in
      let artifact = bytes_eq_ne o.artifact_id [] has_artifact in
      ground (arith, source, artifact, index)

  -- The chunks of a text become the records, in order, but for those that are white space only and
  -- those that the client refuses, with each of which one failure is made. So much for a client that
  -- refuses exactly the requests with such a text and serves the others, in a context that is never
  -- done, with the bisection and for inputs that name their source and their artifact.
  pub split_run :
      (float : Float64) (split_config : ChunkDefs.Config) (source : Bytes) (o : Origin)
      (config : Config) (w : World)
      → o.source_id ≢ []
      → o.artifact_id ≢ []
      → config.disable_bisect ≡ false
      → (chunks : List Chunk) × (split float split_config source ≡ some chunks)
        × (r : RunResult llms) × (run llms (map (input_of o) chunks) config w ≡ some (r, none))
        × (map recorded r.records ≡ map content (keep (embeds refused) chunks))
        × (map (λ b. b.inputs) r.failures
            ≡ map (λ c. input_of o c ∷ []) (keep (left_out refused) chunks))
  unfolding record_of
  split_run float split_config source o config w has_source has_artifact bisects =
      let (chunks, returns, is) = split_contract float split_config source in
      let poison = λ (i : EmbeddingInput). refused i.text in
      let tokens = tokens_for (with_defaults llms config).estimate in
      let (r, runs, sorted) =
        run_isolates llms poison client (map (input_of o) chunks) config w bisects in
      let named =
        IsRun-AllIndexed source (length source) 0 (leading source) (length source) chunks is in
      let all = indexed tokens 0 (map (input_of o) chunks) in
      let passes = λ (c : Chunk) (k at t : ℕ) (index : c.index ≡ pos k).
        is_good-embeds o c k at t has_source has_artifact index in
      let good =
        keep-indexed o tokens (λ i. content i.chunk) (is_good llms poison) (embeds refused) 0 chunks
          passes named in
      let bad =
        keep-indexed o tokens (λ i. i ∷ []) (is_bad llms poison) (left_out refused) 0 chunks
          (λ c k at t index. ap not (passes c k at t index)) named in
      (
        chunks,
        returns,
        r,
        runs,
        ap (map recorded) sorted.records_are
            ∙ map-map recorded (λ (e : Embedding llms). record_of llms e.0 e.1) sorted.embedded
            ∙ sym (
                map-map (λ (it : IndexedInput). content it.input.chunk)
                  (λ (e : Embedding llms). e.0) sorted.embedded)
            ∙ ap (map (λ (it : IndexedInput). content it.input.chunk)) sorted.items
            ∙ good,
        sorted.failures_are ∙ bad,
      )
