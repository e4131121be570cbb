-- ===== src/Extract/Preset/Bundle.antt =====
-- The bundle registers: no call panics, and each media type has its extractor.
use maestro_cms.Prelude.{◌≡◌, refl, Option, none, some, List, [], ◌∷◌, arith}
use maestro_cms.Prelude.Int.{ℤ, pos}
use maestro_cms.Text.{Bytes, codes, bytes_eq}
use maestro_cms.Extract.Registry.{
  Setting, Extractor, Registry, new_registry, canonical_media_type, extractor_at, register,
  get_extractor, registered, sort_types, insert_type, supported_media_types,
}
use maestro_cms.Extract.Plain.{extract_text}
use maestro_cms.Extract.Markdown.{extract_markdown}
use maestro_cms.Extract.Html.{extract_html}
use maestro_cms.Extract.Pdf.{extract_pdf}
use maestro_cms.Extract.Docx.{extract_docx}
use maestro_cms.Extract.Pptx.{extract_pptx}
use maestro_cms.Store.Memory.{bytes_lt}
use maestro_cms.Extract.Preset.{
  Outside, Format, pdftotext_engine, extractor_of, document_types, register_all, register_documents,
  new_document_registry,
}

-- The media types of the bundle in the order of their bytes.
abbrev pub bundle_types : List Bytes
bundle_types =
    codes "application/pdf"
    ∷ codes "application/vnd.openxmlformats-officedocument.presentationml.presentation"
    ∷ codes "application/vnd.openxmlformats-officedocument.wordprocessingml.document"
    ∷ codes "text/html"
    ∷ codes "text/markdown"
    ∷ codes "text/plain"
    ∷ codes "text/x-markdown"
    ∷ []

module _ (parse : Bytes → Option Bytes) {W P : Type 0} (outside : Outside (W × ℤ) P) where
  abbrev Entries : Type 0
  Entries = List (Bytes × Extractor parse W)

  -- Each media type is its own canonical form.
  abbrev pub AllCanonical {ℓ} : {A : Type ℓ} → List (Bytes × A) → Type 0
  AllCanonical [] = Unit
  AllCanonical ((mt, entry) ∷ types) = (parse mt ≡ some mt) × AllCanonical types

  -- No media type is there already, or twice.
  abbrev AllNew : List (Bytes × Format) → Entries → Type 0
  AllNew [] es = Unit
  AllNew ((mt, fmt) ∷ types) es =
      (extractor_at parse W mt es ≡ none) × AllNew types ((mt, extractor_of outside fmt) ∷ es)

  abbrev entries_behind : List (Bytes × Format) → Entries → Entries
  entries_behind [] es = es
  entries_behind ((mt, fmt) ∷ types) es = entries_behind types ((mt, extractor_of outside fmt) ∷ es)

  register_all_lem :
      (types : List (Bytes × Format)) (r : Registry parse W)
      → AllCanonical types
      → AllNew types r.extractors
      → register_all parse outside types r
        ≡ registered (record r { extractors = entries_behind types r.extractors })
  unfolding register_all register canonical_media_type
  register_all_lem [] r canonical new = refl
  register_all_lem ((mt, fmt) ∷ types) r canonical new =
      let rest =
        register_all_lem types
          (record r { extractors = (mt, extractor_of outside fmt) ∷ r.extractors }) canonical.1
          new.1 in
      ground (arith, canonical.0, new.0, rest)

  -- The bundle as its documentation gives it, apart from the calls of `Register`: the media types of the
  -- documents, and for each the function that reads them.
  abbrev pub bundle : Entries
  bundle =
      (codes "text/plain", extract_text)
      ∷ (codes "text/html", extract_html outside.parse_html)
      ∷ (codes "application/pdf", extract_pdf (some (pdftotext_engine outside)))
      ∷ (
        codes "application/vnd.openxmlformats-officedocument.wordprocessingml.document",
        extract_docx outside.xml.decoder outside.xml.part_read outside.zip (pos 0),
      )
      ∷ (
        codes "application/vnd.openxmlformats-officedocument.presentationml.presentation",
        extract_pptx outside.xml outside.zip (pos 0),
      )
      ∷ (codes "text/markdown", extract_markdown)
      ∷ (codes "text/x-markdown", extract_markdown)
      ∷ []

  -- Each media type of the list has the extractor that the list names.
  abbrev pub AllServed : Entries → Registry parse W → Type 0
  AllServed [] r = Unit
  AllServed ((mt, e) ∷ entries) r = (get_extractor parse W mt r ≡ some e) × AllServed entries r

  get_extractor-canonical :
      (mt : Bytes) (r : Registry parse W)
      → parse mt ≡ some mt
      → get_extractor parse W mt r ≡ extractor_at parse W mt r.extractors
  unfolding get_extractor canonical_media_type
  get_extractor-canonical mt r h = ground (arith, h)

  -- For a `mime.ParseMediaType` that leaves the seven media types as they are, `NewDocumentRegistry` does
  -- not panic, its registry gives text/plain, text/html, application/pdf, the types of DOCX and of PPTX,
  -- text/markdown and text/x-markdown each the extractor of that format, and the types that it supports
  -- are these seven, sorted.
  pub new_document_registry_lem :
      (opts : List Setting)
      → AllCanonical bundle
      → (r : Registry parse W) × (new_document_registry parse outside opts ≡ registered r)
        × AllServed bundle r
        × (supported_media_types parse W r ≡ bundle_types)
  unfolding new_document_registry register_documents new_registry extractor_at bytes_eq
      supported_media_types sort_types insert_type bytes_lt extractor_of
  new_document_registry_lem opts canonical =
      let empty = new_registry parse W opts in
      let r = record empty { extractors = entries_behind document_types [] } in
      let served : (mt : Bytes)
          → parse mt ≡ some mt
          → get_extractor parse W mt r ≡ extractor_at parse W mt r.extractors =
        λ mt h. get_extractor-canonical mt r h in
      (
        r,
        register_all_lem document_types empty canonical
            (refl, (refl, (refl, (refl, (refl, (refl, (refl, tt))))))),
        (
          served _ canonical.0,
          (
            served _ canonical.1.0,
            (
              served _ canonical.1.1.0,
              (
                served _ canonical.1.1.1.0,
                (
                  served _ canonical.1.1.1.1.0,
                  (served _ canonical.1.1.1.1.1.0, (served _ canonical.1.1.1.1.1.1.0, tt)),
                ),
              ),
            ),
          ),
        ),
        refl,
      )
