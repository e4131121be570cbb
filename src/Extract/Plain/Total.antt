-- ===== src/Extract/Plain/Total.antt =====
-- The registry's `Extract` with the plain-text extractor, on a source of finitely many bytes.
use maestro_cms.Prelude.{ℕ, ◌<◌, ◌≡◌, ◌≢◌, Option, some, List, [], ◌∷◌, arith, if◌then◌else◌}
use maestro_cms.Prelude.Int.{pos, max_int64}
use maestro_cms.Text.{Bytes, bytes_eq}
use maestro_cms.Text.Equal.{bytes_eq_ne}
use maestro_cms.Extract.Io.{Reader, limit_read}
use maestro_cms.Extract.Io.Source.{Source, whole, source_read, reads_left, background}
use maestro_cms.Extract.Defs.{no_content, Result, ok, err, Artifact, text_artifact, Env, read_all}
use maestro_cms.Extract.Normalize.{normalize_whitespace}
use maestro_cms.Extract.Bounds.{behind_limit, read_result, read_all_source}
use maestro_cms.Extract.Registry.{
  Setting, apply_all, Registry, canonical_media_type, extractor_at, extract,
}
use maestro_cms.Extract.Plain.{coerced, extract_text}

-- What a text source comes to, for what reading it comes to.
abbrev pub text_result : Bytes → Result Bytes → Result (List Artifact)
text_result parent_id (err e) = err e
text_result parent_id (ok bytes) =
    let text = normalize_whitespace (coerced bytes) in
    if bytes_eq text [] then err no_content else ok (text_artifact parent_id text ∷ [])

extract_text_result :
    {W : Type 0} (env : Env W) (r : Reader W) (parent_id : Bytes) (w w' : W) (result : Result Bytes)
    → read_all env r w ≡ some (result, w')
    → extract_text env r parent_id w ≡ some (text_result parent_id result, w')
unfolding extract_text
extract_text_result env r parent_id w w' (err e) h = ground (arith, h)
extract_text_result env r parent_id w w' (ok bytes) h = ground (arith, h)

-- `Extract` of a registry that has the text extractor at the media type's key, with a parent, a
-- context that is not done, fuel for the pieces of the source and a limit below the largest int64: a source of more bytes than the
-- limit is `ErrSourceTooLarge`, one that breaks off is its error, one with no text is `ErrNoContent`,
-- and any other is one text artifact of the parent with the normalized text.
pub extract_text_source :
    (parse : Bytes → Option Bytes) (reg : Registry parse Source) (mt key parent_id : Bytes)
    (opts : List Setting) (room : ℕ → ℕ) (fuel : ℕ) (src : Source)
    → parent_id ≢ []
    → parse mt ≡ some key
    → extractor_at parse Source key reg.extractors ≡ some extract_text
    → (apply_all opts (record { max_bytes = reg.max_bytes })).max_bytes < max_int64
    → ((n : ℕ) → 0 < room n)
    → reads_left src.pieces < fuel
    → (src' : Source) × (extract parse Source
          (record { ctx = background; room = room; fuel = fuel })
          mt
          source_read
          parent_id
          opts
          reg
          src
        ≡ some (
          text_result parent_id (
              read_result
                (apply_all opts (record { max_bytes = reg.max_bytes })).max_bytes
                (whole src)
                src.end),
          src',
        ))
unfolding extract canonical_media_type
extract_text_source parse reg mt key parent_id opts room fuel src parent parses found small
      room_left enough =
    let limit = (apply_all opts (record { max_bytes = reg.max_bytes })).max_bytes in
    let (s, reads) = read_all_source room fuel limit src small room_left enough in
    let text =
      extract_text_result (behind_limit (record { ctx = background; room = room; fuel = fuel }))
        (limit_read limit source_read) parent_id (src, pos limit) s _ reads in
    let given = bytes_eq_ne parent_id [] parent in (s.0, ground (arith, given, parses, found, text))
