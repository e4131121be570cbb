-- ===== src/Extract/Pdf.antt =====
-- extract/pdf/pdf.go: the PDF extractor, with its engine as a record.
pub mod Pdftotext
pub mod Purego
use maestro_cms.Prelude.{ℕ, ◌+◌, Bool, Option, none, some, List, [], ◌∷◌, if◌then◌else◌}
use maestro_cms.Prelude.Int.{ℤ, pos, negsuc}
use maestro_cms.Text.{Bytes, bytes_eq, codes}
use maestro_cms.Embed.RequestId.{itoa}
use maestro_cms.Extract.Io.{Reader, Context}
use maestro_cms.Extract.Defs.{
  media_type_text, no_content, no_engine, Action, pure, raise, ◌>>=◌, Artifact, Env, read_all,
}
use maestro_cms.Extract.Normalize.{normalize_whitespace}

-- `MediaType`
abbrev pub media_type : Bytes
media_type = codes "application/pdf"

-- `MetaPage` and `MetaEngine`
abbrev pub meta_page : Bytes
meta_page = codes "pdf.page"

abbrev pub meta_engine : Bytes
meta_engine = codes "pdf.engine"

pub record Page : Type 0 where
  pub number : ℤ
  pub text : Bytes

-- `Engine`; its `Pages` takes the context that it asks.
pub record Engine (W : Type 0) : Type 0 where
  pub name : Bytes
  pub pages : Context W → Bytes → Action W (List Page)

-- `strconv.Itoa`
abbrev pub itoa_int : ℤ → Bytes
itoa_int (pos n) = itoa n
itoa_int (negsuc n) = b'-' ∷ itoa (n + 1)

-- The artifact of a page, for its normalized text.
abbrev pub page_artifact : Bytes → Bytes → ℤ → Bytes → Artifact
page_artifact name parent_id number text = record {
  id = [];
  media_type = media_type_text;
  derived_from = parent_id;
  text = text;
  blob = none;
  metadata = some ((meta_page, itoa_int number) ∷ (meta_engine, name) ∷ []);
}

-- The loop of `Extract`: what it appends to `arts`.
unfoldable pub page_artifacts : Bytes → Bytes → List Page → List Artifact
page_artifacts name parent_id [] = []
page_artifacts name parent_id (page ∷ pages) =
    let text = normalize_whitespace page.text in
    let rest = page_artifacts name parent_id pages in
    if bytes_eq text [] then rest else page_artifact name parent_id page.number text ∷ rest

module _ {W : Type 0} where
  -- What is returned for the artifacts.
  abbrev pub some_artifacts : List Artifact → Action W (List Artifact)
  some_artifacts [] = raise no_content
  some_artifacts (a ∷ arts) = pure (a ∷ arts)

  -- `Extract`; an engine `none` is nil.
  unfoldable pub extract_pdf :
      Option (Engine W) → Env W → Reader W → Bytes → Action W (List Artifact)
  extract_pdf none env r parent_id = raise no_engine
  extract_pdf (some engine) env r parent_id = do
    bytes ← read_all env r
    pages ← engine.pages env.ctx bytes
    some_artifacts (page_artifacts engine.name parent_id pages)
