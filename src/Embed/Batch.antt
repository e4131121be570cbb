-- ===== src/Embed/Batch.antt =====
-- embed/embed.go: `embedBatch` with its bisection, and `addBatchFailure`.
pub mod Accounts
pub mod Index
pub mod Response
pub mod Bisect
use maestro_cms.Prelude.{
  ℕ, zero, suc, ◌/◌, Bool, true, false, not, ◌&&◌, Option, none, some, List, [], ◌∷◌, ◌++◌, map,
  ltb, ◌==◌, if◌then◌else◌, length, take, drop,
}
use maestro_cms.Text.{Bytes, bytes_eq}
use maestro_cms.Embed.Defs.{
  Llms, IndexedInput, EmbeddingRequest, Settings, Failure, batch_failed, duplicate_vector,
  count_mismatch, no_vector, context_done, client_canceled, Embedded, BatchFailure, State, Outcome,
  done, aborted, vectors, failed,
}
use maestro_cms.Embed.RequestId.{request_id}

-- The loop of `addBatchFailure` for the smallest position.
unfoldable pub min_pos : ℕ → List IndexedInput → ℕ
min_pos m [] = m
min_pos m (it ∷ batch) = min_pos (if ltb it.at m then it.at else m) batch

abbrev pub first_pos : List IndexedInput → ℕ
first_pos [] = 0
first_pos (it ∷ batch) = it.at

-- A lookup in a Go map that is written as an association list, newest entry first.
module _ {ℓ} {V : Type ℓ} where
  unfoldable pub lookup_id : Bytes → List (Bytes × V) → Option V
  lookup_id id [] = none
  lookup_id id ((k, v) ∷ m) = let later = lookup_id id m in if bytes_eq k id then some v else later

  unfoldable pub lookup_pos : ℕ → List (ℕ × V) → Option V
  lookup_pos at [] = none
  lookup_pos at ((k, v) ∷ m) = let later = lookup_pos at m in if k == at then some v else later

  -- The loop that builds `byID`: the map, or the id that comes twice.
  unfoldable pub index_vectors :
      List (Bytes × V) → List (Bytes × V) → Bytes × List (Bytes × V) × Bool
  index_vectors [] by_id = ([], by_id, true)
  index_vectors ((id, values) ∷ rest) by_id =
      let on = index_vectors rest ((id, values) ∷ by_id) in
      elim (lookup_id id by_id) [ some _ ↦ (id, by_id, false) | none ↦ on ]

module _ (llms : Llms) where
  open llms use {Vector, ClientError, model}

  unfoldable pub add_batch_failure :
      List IndexedInput → Failure ClientError → Bool → State llms → State llms
  unfolding min_pos
  add_batch_failure batch err can_retry st =
      let bf : BatchFailure llms = record {
        inputs = map (λ it. it.input) batch;
        err = err;
        retryable = can_retry;
      } in
      record st {
        failures =
            st.failures ++ (record { at = min_pos (first_pos batch) batch; failure = bf }) ∷ [];
      }

  unfoldable pub record_of : IndexedInput → Vector → Embedded llms
  record_of it values = record {
    source_id = it.input.source_id;
    artifact_id = it.input.artifact_id;
    chunk_index = it.input.chunk.index;
    text = it.input.chunk.text;
    vector = values;
    model = model;
    token_count = it.tokens;
    metadata = it.input.metadata;
  }

  -- The loop that records the batch: the state, and the position that has no vector.
  unfoldable pub record_all :
      List (Bytes × Vector) → List IndexedInput → State llms → State llms × Option ℕ
  unfolding record_of
  record_all by_id [] st = (st, none)
  record_all by_id (it ∷ rest) st = elim (lookup_id (request_id it.at) by_id) [
    | none ↦ (st, some it.at)
    | some values ↦
        record_all by_id rest (record st { records = (it.at, record_of it values) ∷ st.records })
  ]

  -- What follows the loops over the response.
  unfoldable pub accept_vectors :
      List IndexedInput → List (Bytes × Vector) → State llms → State llms
  accept_vectors batch by_id st =
      let (st', missing) = record_all by_id batch st in
      let recorded : State llms = elim missing [
        | none ↦ st'
        | some at ↦ add_batch_failure batch (no_vector at) false st'
      ] in
      if length by_id == length batch
      then recorded
      else add_batch_failure batch (count_mismatch (length by_id) (length batch)) false st

  unfoldable pub handle_response :
      List IndexedInput → List (Bytes × Vector) → State llms → State llms
  handle_response batch vs st =
      let (id, by_id, distinct) = index_vectors vs [] in
      if distinct
      then accept_vectors batch by_id st
      else add_batch_failure batch (duplicate_vector id) false st

  -- `if e := first; e != nil { return e }; return second`
  unfoldable pub and_then :
      Option (Outcome llms) → (State llms → Option (Outcome llms)) → Option (Outcome llms)
  and_then none second = none
  and_then (some (aborted e st)) second = some (aborted e st)
  and_then (some (done st)) second = second st

module _ (llms : Llms) (cfg : Settings) where
  open llms use {ClientError, ctx_err, embed, is_canceled, retryable}

  unfoldable pub request_of : List IndexedInput → EmbeddingRequest
  request_of batch = record {
    inputs =
        map
          (λ it. record {
            id = request_id it.at;
            text = it.input.chunk.text;
            title = it.input.title;
          })
          batch;
    purpose = cfg.purpose;
    dimensions = cfg.dimensions;
    task = cfg.task;
  }

  -- What follows a client error; the last argument is the bisection.
  unfoldable pub handle_error :
      List IndexedInput
      → ClientError
      → State llms
      → (State llms → Option (Outcome llms))
      → Option (Outcome llms)
  handle_error batch err st bisect =
      let (cancel, w) = ctx_err st.world in
      let checked = record st { world = w } in
      let single =
        add_batch_failure llms batch (batch_failed (length batch) err) (retryable err) checked in
      elim cancel [
        | some e ↦ some (aborted (context_done e) checked)
        | none ↦
            if is_canceled err
            then some (aborted (client_canceled err) checked)
            else if not cfg.disable_bisect && ltb 1 (length batch)
            then bisect checked
            else some (done single)
      ]

  -- `embedBatch`, on fuel: each half of a batch is shorter. `none` is no fuel left.
  unfoldable pub embed_batch : ℕ → List IndexedInput → State llms → Option (Outcome llms)
  embed_batch zero batch st = none
  embed_batch (suc f) batch st =
      let (reply, w) = embed (request_of batch) st.world in
      let called = record st { world = w } in
      let mid = length batch / 2 in
      elim reply [
        | vectors vs ↦ some (done (handle_response llms batch vs called))
        | failed err ↦ handle_error batch err called (λ st'.
            and_then llms (embed_batch f (take mid batch) st')
              (λ st''. embed_batch f (drop mid batch) st''))
      ]
