-- ===== src/Extract/Defs.antt =====
-- extract/extract.go: the errors, the artifacts that extractors return, and `ReadAll`. An artifact's
-- metadata map and blob stand here by value.
use maestro_cms.Prelude.{ℕ, ◌≡◌, Bool, true, false, Option, none, some, []}
use maestro_cms.Text.{Bytes, codes}
use maestro_cms.Content.Sharing.{StoreHandle, Labels}
use maestro_cms.Extract.Io.{ContextError, IoError, Reader, Context, ctx_read, read_loop}

-- `MediaTypeText`
abbrev pub media_type_text : Bytes
media_type_text = codes "text/plain"

-- `DefaultMaxBytes`
abbrev pub default_max_bytes : ℕ
default_max_bytes = 33554432

-- The causes that a `MalformedSourceError` carries: those of the parsers by a code.
pub data Cause : Type 0 where
  parser_failed : ℕ → Cause
  reading_failed : IoError → Cause
  no_document_part no_slides timed_out parser_panic : Cause
  notes_missing : Bytes → Bytes → Cause
  exited : ℕ → Bytes → Cause

-- The errors of the extractors and of the registry; `context_done` is a bare `ctx.Err()`.
pub data ExtractError : Type 0 where
  no_content missing_parent_id no_engine : ExtractError
  invalid_media_type unsupported_media_type engine_unavailable : Bytes → ExtractError
  malformed_source : Bytes → Cause → ExtractError
  read_aborted context_done : ContextError → ExtractError
  read_failed : IoError → ExtractError
  output_too_large exec_failed : ℕ → ExtractError

pub data Result {ℓ} (A : Type ℓ) : Type ℓ where
  ok : A → Result A
  err : ExtractError → Result A

-- `errors.Is(err, ErrMalformedSource)`
unfoldable pub is_malformed : ExtractError → Bool
is_malformed (malformed_source mt cause) = true
is_malformed no_content = false
is_malformed missing_parent_id = false
is_malformed no_engine = false
is_malformed (invalid_media_type mt) = false
is_malformed (unsupported_media_type mt) = false
is_malformed (engine_unavailable bin) = false
is_malformed (read_aborted c) = false
is_malformed (context_done c) = false
is_malformed (read_failed e) = false
is_malformed (output_too_large n) = false
is_malformed (exec_failed n) = false

-- A call in a world. `none` is a call that does not return within the fuel.
abbrev pub Action {ℓ} : Type ℓ → Type ℓ → Type ℓ
Action S A = S → Option (Result A × S)

module _ {ℓ} {S A : Type ℓ} where
  abbrev pub pure : A → Action S A
  pure a s = some (ok a, s)

  abbrev pub raise : ExtractError → Action S A
  raise e s = some (err e, s)

infixl 5 ◌>>=◌
abbrev pub ◌>>=◌ {ℓ} : {S A B : Type ℓ} → Action S A → (A → Action S B) → Action S B
◌>>=◌ m f s = elim (m s) [
  | none ↦ none
  | some (err e, s') ↦ some (err e, s')
  | some (ok a, s') ↦ f a s'
]

pub bind-ok {ℓ} :
    {S A B : Type ℓ} (m : Action S A) (f : A → Action S B) (s s' : S) (a : A)
    → m s ≡ some (ok a, s')
    → (m >>= f) s ≡ f a s'
bind-ok m f s s' a e = rw (e, ◌>>=◌)

-- `content.Artifact`, by value; `none` is nil.
pub record Artifact : Type 0 where
  pub id : Bytes
  pub media_type : Bytes
  pub derived_from : Bytes
  pub text : Bytes
  pub blob : Option StoreHandle
  pub metadata : Option Labels

-- `TextArtifact`
unfoldable pub text_artifact : Bytes → Bytes → Artifact
text_artifact parent_id text = record {
  id = [];
  media_type = media_type_text;
  derived_from = parent_id;
  text = text;
  blob = none;
  metadata = none;
}

-- What a call runs in: the context, the buffer sizes of `io.ReadAll`, and the fuel for its loop.
pub record Env (W : Type 0) : Type 0 where
  pub ctx : Context W
  pub room : ℕ → ℕ
  pub fuel : ℕ

module _ {W : Type 0} where
  -- What `ReadAll` returns for the outcome of `io.ReadAll`.
  abbrev pub wrapped : Option ((Bytes × Option IoError) × W) → Option (Result Bytes × W)
  wrapped none = none
  wrapped (some ((bytes, none), w)) = some (ok bytes, w)
  wrapped (some ((bytes, some e), w)) = some (err (read_failed e), w)

  -- `ReadAll`
  unfoldable pub read_all : Env W → Reader W → Action W Bytes
  read_all env r w =
      let (c, w') = env.ctx w in
      elim c [
        | some e ↦ some (err (read_aborted e), w')
        | none ↦ wrapped (read_loop env.room (ctx_read env.ctx r) env.fuel [] w')
      ]
