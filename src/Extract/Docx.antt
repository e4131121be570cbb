-- ===== src/Extract/Docx.antt =====
-- extract/docx/docx.go: the DOCX extractor.
pub mod Paragraphs
mod Tests
use maestro_cms.Prelude.{ℕ, false, none, some, List, [], ◌∷◌, if◌then◌else◌}
use maestro_cms.Prelude.Int.{ℤ, pos}
use maestro_cms.Text.{Bytes, bytes_eq, codes}
use maestro_cms.Extract.Io.{Reader}
use maestro_cms.Extract.Defs.{
  parser_failed, no_document_part, malformed_source, Result, ok, err, Action, raise, ◌>>=◌,
  Artifact, Env, read_all,
}
use maestro_cms.Extract.Normalize.{normalize_whitespace}
use maestro_cms.Extract.Html.{one_artifact}
use maestro_cms.Extract.Ooxml.{
  Opened, opened, open_failed, ZipFile, Archive, archive, not_zip, Decoder, max_decompressed,
  decode_loop,
}

-- `MediaType` and `documentPart`
abbrev pub media_type : Bytes
media_type = codes "application/vnd.openxmlformats-officedocument.wordprocessingml.document"

abbrev pub document_part : Bytes
document_part = codes "word/document.xml"

module _ {P : Type 0} where
  abbrev pub stream_of : Opened P → Result P
  stream_of (opened p) = ok p
  stream_of (open_failed code) = err (malformed_source media_type (parser_failed code))

  -- `openDocumentPart`
  unfoldable pub open_document_part : List (ZipFile P) → Result P
  open_document_part [] = err (malformed_source media_type no_document_part)
  open_document_part (f ∷ files) =
      let later = open_document_part files in
      if bytes_eq f.name document_part then stream_of f.open_part else later

module _ {W P : Type 0} (dec : Decoder P) (part_read : Reader P) where
  -- `decodeBodyText`
  unfoldable pub decode_body_text : Env W → P → ℕ → Action W Bytes
  decode_body_text env doc max_bytes w =
      elim (decode_loop dec part_read media_type env.ctx env.fuel false dec.new_decoder w
        (doc, pos max_bytes)) [ none ↦ none | some (result, w', z) ↦ some (result, w') ]

  abbrev pub of_archive : Env W → ℤ → Bytes → Archive P → Action W (List Artifact)
  of_archive env max parent_id (not_zip code) =
      raise (malformed_source media_type (parser_failed code))
  of_archive env max parent_id (archive files) = elim (open_document_part files) [
    | err e ↦ raise e
    | ok doc ↦ do
      text ← decode_body_text env doc (max_decompressed max)
      one_artifact parent_id (normalize_whitespace text)
  ]

  -- `Extract`, for the field `MaxDecompressedBytes`.
  unfoldable pub extract_docx :
      (Bytes → Archive P) → ℤ → Env W → Reader W → Bytes → Action W (List Artifact)
  extract_docx zip max env r parent_id = do
    bytes ← read_all env r
    of_archive env max parent_id (zip bytes)
