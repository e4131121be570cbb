-- ===== src/Embed/Defs.antt =====
-- embed/embed.go: inputs, records, failures, configuration and validation. What the package takes
-- from maestro-llms and from `context` is the record `Llms`.
use maestro_cms.Prelude.{ℕ, zero, suc, Bool, Option, none, some, List, [], if◌then◌else◌}
use maestro_cms.Prelude.Int.{ℤ, pos, negsuc, is_negative}
use maestro_cms.Text.{Bytes, bytes_eq}
use maestro_cms.Text.Trim.{trim_space}
use maestro_cms.Chunk.Defs.{Chunk, or_default}

abbrev pub default_max_batch_inputs : ℕ
default_max_batch_inputs = 96

abbrev pub default_max_batch_tokens : ℕ
default_max_batch_tokens = 20000

-- `map[string]string`; `none` is the nil map. A value here is never shared, so `maps.Clone` is the
-- identity.
abbrev pub Metadata : Type 0
Metadata = Option (List (Bytes × Bytes))

pub record Input : Type 0 where
  pub source_id : Bytes
  pub artifact_id : Bytes
  pub chunk : Chunk
  pub title : Bytes
  pub metadata : Metadata

pub record EmbeddingInput : Type 0 where
  pub id : Bytes
  pub text : Bytes
  pub title : Bytes

pub record EmbeddingRequest : Type 0 where
  pub inputs : List EmbeddingInput
  pub purpose : Bytes
  pub dimensions : ℤ
  pub task : Bytes

-- What a call of `Embed` comes to: a response's vectors with their ids, or an error.
pub data Reply (Vector ClientError : Type 0) : Type 0 where
  vectors : List (Bytes × Vector) → Reply Vector ClientError
  failed : ClientError → Reply Vector ClientError

-- maestro-llms and the context. `World` is the state of both; a call may change it in any way.
pub record Llms : Type 1 where
  pub World : Type 0
  pub Vector : Type 0
  pub ModelRef : Type 0
  pub ClientError : Type 0
  pub ContextError : Type 0
  -- `ctx.Err()`
  pub ctx_err : World → Option ContextError × World
  -- `client.Embed` and `client.Model`
  pub embed : EmbeddingRequest → World → Reply Vector ClientError × World
  pub model : ModelRef
  -- `errors.Is(err, context.Canceled)` and `llms.Retryable`
  pub is_canceled : ClientError → Bool
  pub retryable : ClientError → Bool
  -- `llms.EstimateTextTokens` and `llms.PurposeEmbedding`
  pub estimate_text_tokens : Bytes → ℕ
  pub purpose_embedding : Bytes

pub record Config : Type 0 where
  pub max_batch_inputs : ℤ
  pub max_batch_tokens : ℤ
  pub estimate : Option (Bytes → ℕ)
  pub task : Bytes
  pub purpose : Bytes
  pub dimensions : ℤ
  pub disable_bisect : Bool

-- The configuration behind `withDefaults`.
pub record Settings : Type 0 where
  pub max_inputs : ℕ
  pub max_tokens : ℕ
  pub estimate : Bytes → ℕ
  pub task : Bytes
  pub purpose : Bytes
  pub dimensions : ℤ
  pub disable_bisect : Bool

-- The errors of a `BatchFailure`: those of validation, the client's, and `ErrResponseMismatch` with
-- its three causes.
pub data Failure (ClientError : Type 0) : Type 0 where
  missing_artifact_id missing_source_id empty_text negative_index : Failure ClientError
  batch_failed : ℕ → ClientError → Failure ClientError
  duplicate_vector : Bytes → Failure ClientError
  count_mismatch : ℕ → ℕ → Failure ClientError
  no_vector : ℕ → Failure ClientError

pub data RunError (ClientError ContextError : Type 0) : Type 0 where
  context_done : ContextError → RunError ClientError ContextError
  client_canceled : ClientError → RunError ClientError ContextError

pub record IndexedInput : Type 0 where
  pub at : ℕ
  pub input : Input
  pub tokens : ℕ

-- `tokensFor`
unfoldable pub tokens_for : (Bytes → ℕ) → Input → ℕ
tokens_for est input = elim input.chunk.token_count [
  | pos n ↦ elim n [ zero ↦ est input.chunk.text | suc k ↦ suc k ]
  | negsuc n ↦ est input.chunk.text
]

module _ (llms : Llms) where
  open llms use {
    World, Vector, ModelRef, ClientError, ContextError, estimate_text_tokens, purpose_embedding,
  }

  unfoldable pub with_defaults : Config → Settings
  with_defaults c = record {
    max_inputs = or_default c.max_batch_inputs default_max_batch_inputs;
    max_tokens = or_default c.max_batch_tokens default_max_batch_tokens;
    estimate = elim c.estimate [ some est ↦ est | none ↦ estimate_text_tokens ];
    task = c.task;
    purpose = (if bytes_eq c.purpose [] then purpose_embedding else c.purpose);
    dimensions = c.dimensions;
    disable_bisect = c.disable_bisect;
  }

  -- `Input.validate`; `none` is nil.
  unfoldable pub validate : Input → Option (Failure ClientError)
  validate input =
      if bytes_eq input.artifact_id []
      then some missing_artifact_id
      else if bytes_eq input.source_id []
      then some missing_source_id
      else if bytes_eq (trim_space input.chunk.text) []
      then some empty_text
      else if is_negative input.chunk.index
      then some negative_index
      else none

  -- `Record`
  pub record Embedded : Type 0 where
    pub source_id : Bytes
    pub artifact_id : Bytes
    pub chunk_index : ℤ
    pub text : Bytes
    pub vector : Vector
    pub model : ModelRef
    pub token_count : ℕ
    pub metadata : Metadata

  pub record BatchFailure : Type 0 where
    pub inputs : List Input
    pub err : Failure ClientError
    pub retryable : Bool

  pub record PosFailure : Type 0 where
    pub at : ℕ
    pub failure : BatchFailure

  -- `recordsByPos` (the newest entry of a position counts), `failures`, and the world.
  pub record State : Type 0 where
    pub records : List (ℕ × Embedded)
    pub failures : List PosFailure
    pub world : World

  -- How a step ends: with no error, or with the error that `Run` returns.
  pub data Outcome : Type 0 where
    done : State → Outcome
    aborted : RunError ClientError ContextError → State → Outcome

  pub record RunResult : Type 0 where
    pub records : List Embedded
    pub failures : List BatchFailure
