-- ===== src/Extract/Preset.antt =====
-- extract/preset/preset.go: the bundle of document extractors.
pub mod Yields
pub mod Bundle
use maestro_cms.Prelude.{ℕ, Bool, true, false, Option, none, some, List, [], ◌∷◌}
use maestro_cms.Prelude.Int.{ℤ, pos}
use maestro_cms.Text.{Bytes, codes}
use maestro_cms.Extract.Io.{Reader}
use maestro_cms.Extract.Defs.{media_type_text, Action, Artifact, Env}
use maestro_cms.Extract.Registry.{
  Setting, Extractor, Registry, new_registry, register, Registered, registered, panics,
  supported_media_types,
}
use maestro_cms.Extract.Plain.{extract_text}
use maestro_cms.Extract.Markdown.{extract_markdown}
use maestro_cms.Extract.Markdown as Markdown
use maestro_cms.Extract.Html.{Parsed, extract_html}
use maestro_cms.Extract.Pdf.{Engine, extract_pdf}
use maestro_cms.Extract.Pdf as Pdf
use maestro_cms.Extract.Pdf.Pdftotext.{Config, Ran, pages}
use maestro_cms.Extract.Ooxml.{Archive}
use maestro_cms.Extract.Docx.{extract_docx}
use maestro_cms.Extract.Docx as Docx
use maestro_cms.Extract.Pptx.{Xml, extract_pptx}
use maestro_cms.Extract.Pptx as Pptx

-- What the extractors take that is not in the repository: the HTML parser, `exec.LookPath` and the
-- process, the archive reader, and XML.
pub record Outside (W : Type 0) (P : Type 0) : Type 1 where
  pub parse_html : Bytes → Parsed
  pub found : Bytes → Bool
  pub run : W → Bytes → ℕ → Bytes → Ran
  pub zip : Bytes → Archive P
  pub xml : Xml P

-- `pdftotext.New()` as an engine: the zero configuration.
abbrev pub pdftotext_engine : {W P : Type 0} → Outside W P → Engine W
pdftotext_engine outside = record {
  name = codes "pdftotext";
  pages = λ ctx input w. some (
    pages (record { binary = []; timeout = pos 0; max_output = pos 0 }) outside.found
        (outside.run w) input,
    w,
  );
}

-- The extractors of the bundle.
pub data Format : Type 0 where
  plain html pdf docx pptx markdown : Format

unfoldable pub extractor_of :
    {W P : Type 0} → Outside W P → Format → Env W → Reader W → Bytes → Action W (List Artifact)
extractor_of outside plain = extract_text
extractor_of outside html = extract_html outside.parse_html
extractor_of outside pdf = extract_pdf (some (pdftotext_engine outside))
extractor_of outside docx =
    extract_docx outside.xml.decoder outside.xml.part_read outside.zip (pos 0)
extractor_of outside pptx = extract_pptx outside.xml outside.zip (pos 0)
extractor_of outside markdown = extract_markdown

-- The calls of `RegisterDocuments`, in order.
abbrev pub document_types : List (Bytes × Format)
document_types =
    (media_type_text, plain)
    ∷ (codes "text/html", html)
    ∷ (Pdf.media_type, pdf)
    ∷ (Docx.media_type, docx)
    ∷ (Pptx.media_type, pptx)
    ∷ (Markdown.media_type, markdown)
    ∷ (codes "text/x-markdown", markdown)
    ∷ []

module _ (parse : Bytes → Option Bytes) {W P : Type 0} (outside : Outside (W × ℤ) P) where
  -- Calls of `Register` one after the other; a panic ends them.
  unfoldable pub register_all :
      List (Bytes × Format) → Registry parse W → Registered (Registry parse W)
  register_all [] r = registered r
  register_all ((mt, fmt) ∷ types) r =
      elim (register parse W mt (some (extractor_of outside fmt)) r) [
        | panics m ↦ panics m
        | registered r' ↦ register_all types r'
      ]

  -- `RegisterDocuments`
  unfoldable pub register_documents : Registry parse W → Registered (Registry parse W)
  register_documents r = register_all document_types r

  -- `NewDocumentRegistry`
  unfoldable pub new_document_registry : List Setting → Registered (Registry parse W)
  new_document_registry opts = register_documents (new_registry parse W opts)

  -- `SupportedDocumentMediaTypes`
  unfoldable pub supported_document_media_types : Registered (List Bytes)
  supported_document_media_types = elim (new_document_registry []) [
    | panics m ↦ panics m
    | registered r ↦ registered (supported_media_types parse W r)
  ]
