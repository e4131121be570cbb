-- ===== src/Extract/Docx/Paragraphs.antt =====
-- The DOCX extractor on a document part of paragraphs.
use maestro_cms.Prelude.{◌≡◌, ap, ◌∙◌, ◌<◌, false, none, some, List, length}
use maestro_cms.Prelude.Int.{ℤ, pos}
use maestro_cms.Text.{Bytes}
use maestro_cms.Extract.Io.{Reader}
use maestro_cms.Extract.Defs.{◌>>=◌, bind-ok, ok, Env, read_all}
use maestro_cms.Extract.Normalize.{normalize_whitespace}
use maestro_cms.Extract.Html.{one_artifact}
use maestro_cms.Extract.Ooxml.{ZipFile, Archive, archive, Decoder, max_decompressed}
use maestro_cms.Extract.Ooxml.Document.{
  Piece, AllParagraphs, document_tokens, document_text, text_of-document_tokens, IsYielding,
  decode_loop-text_of,
}
use maestro_cms.Extract.Docx.{
  media_type, of_archive, open_document_part, decode_body_text, extract_docx,
}

module _ {W P : Type 0} (dec : Decoder P) (part_read : Reader P) (env : Env W)
    (alive : (w : W) → (env.ctx w).0 ≡ none) where
  -- Extracting a document whose part yields the tokens of paragraphs, within the budget, in a context
  -- that is never done and with fuel for the tokens, ends with the normalized text of the paragraphs'
  -- runs, a blank line behind each paragraph.
  pub extract_docx-document_text :
      (zip : Bytes → Archive P) (max : ℤ) (r : Reader W) (parent_id bytes : Bytes)
      (files : List (ZipFile P)) (doc : P) (ps : List (List Piece)) (w w' : W)
      → read_all env r w ≡ some (ok bytes, w')
      → zip bytes ≡ archive files
      → open_document_part files ≡ ok doc
      → AllParagraphs ps
      → length (document_tokens ps) < env.fuel
      → IsYielding dec part_read
          (document_tokens ps)
          dec.new_decoder
          (doc, pos (max_decompressed max))
      → (w'' : W) × (extract_docx dec part_read zip max env r parent_id w
          ≡ one_artifact parent_id (normalize_whitespace (document_text ps)) w'')
  unfolding extract_docx decode_body_text
  extract_docx-document_text zip max r parent_id bytes files doc ps w w' read opened found
        paragraphs enough yields =
      let (w'', decoded) =
        decode_loop-text_of dec part_read media_type env.ctx alive env.fuel false
          (document_tokens ps) dec.new_decoder w' (doc, pos (max_decompressed max)) enough yields in
      let text : decode_body_text dec part_read env doc (max_decompressed max) w'
          ≡ some (ok (document_text ps), w'') =
        rw (decoded, decode_body_text)
          (ap (λ t. some (ok t, w'')) (text_of-document_tokens ps paragraphs)) in
      let decode = decode_body_text dec part_read env doc (max_decompressed max) in
      let archive_text : of_archive dec part_read env max parent_id (archive files) w'
          ≡ (decode >>= (λ t. one_artifact parent_id (normalize_whitespace t))) w' =
        rw (found, of_archive) in
      (
        w'',
        bind-ok (read_all env r) _ w w' bytes read
            ∙ ap (λ a. of_archive dec part_read env max parent_id a w') opened
            ∙ archive_text
            ∙ bind-ok decode _ w' w'' (document_text ps) text,
      )
