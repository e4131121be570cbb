-- ===== src/Extract/Preset/Yields.antt =====
-- What the extractors of the bundle return when they succeed.
use maestro_cms.Prelude.{
  ◌≡◌, ◌≢◌, refl, inl, inr, false, Option, none, some, List, [], ◌∷◌, arith, Bool-cases,
}
use maestro_cms.Prelude.Int.{ℤ, pos}
use maestro_cms.Text.{Bytes, bytes_eq}
use maestro_cms.Text.Trim.{trim_space}
use maestro_cms.Text.Trim.Clean.{trim_space-nil}
use maestro_cms.Extract.Io.{Reader}
use maestro_cms.Extract.Defs.{
  Result, ok, err, Action, raise, ◌>>=◌, Artifact, text_artifact, Env, read_all,
}
use maestro_cms.Extract.Normalize.{normalize_whitespace}
use maestro_cms.Extract.Helpers.{text_artifacts}
use maestro_cms.Extract.Plain.{coerced, extract_text}
use maestro_cms.Extract.Markdown.{
  byte_order_mark, trim_prefix, strip_front_matter, markdown_artifact, of_text, extract_markdown,
}
use maestro_cms.Extract.Html.{
  Parsed, tree, refused, one_artifact, of_tree, collect_text, extract_html,
}
use maestro_cms.Extract.Pdf.{Page, page_artifacts, some_artifacts, extract_pdf}
use maestro_cms.Extract.Ooxml.{Archive, archive, not_zip, max_decompressed}
use maestro_cms.Extract.Docx.{decode_body_text, extract_docx}
use maestro_cms.Extract.Docx as Docx
use maestro_cms.Extract.Pptx.{extract_pptx}
use maestro_cms.Extract.Pptx as Pptx
use maestro_cms.Extract.Preset.{
  Outside, Format, plain, html, pdf, docx, pptx, markdown, extractor_of, pdftotext_engine,
}

-- Text of the source, held inline.
abbrev pub AllTextOf : Bytes → List Artifact → Type 0
AllTextOf parent_id [] = Unit
AllTextOf parent_id (a ∷ arts) =
    ((a.derived_from ≡ parent_id) × (a.blob ≡ none) × (bytes_eq a.text [] ≡ false))
    × AllTextOf parent_id arts

abbrev pub Yield : Bytes → List Artifact → Type 0
Yield parent_id arts = (arts ≢ []) × AllTextOf parent_id arts

-- A sequence that succeeds is two calls that do.
bind_ok :
    {S A B : Type 0} (m : Action S A) (f : A → Action S B) (s s' : S) (b : B)
    → (m >>= f) s ≡ some (ok b, s')
    → (a : A) × (t : S) × (m s ≡ some (ok a, t)) × (f a t ≡ some (ok b, s'))
bind_ok {S = S} {A = A} {B = B} m f s s' b h = go (m s) refl h
  where
    go :
        (r : Option (Result A × S))
        → m s ≡ r
        → ◌≡◌ {A = Option (Result B × S)}
            (elim r [
              | none ↦ none
              | some (err e, s') ↦ some (err e, s')
              | some (ok a, s') ↦ f a s'
            ])
            (some (ok b, s'))
        → (a : A) × (t : S) × (m s ≡ some (ok a, t)) × (f a t ≡ some (ok b, s'))
    go none e h = absurd (ground (arith, h))
    go (some (err x, t)) e h = absurd (ground (arith, h))
    go (some (ok a, t)) e h = (a, t, e, h)

page_artifacts-AllTextOf :
    (name parent_id : Bytes) (ps : List Page)
    → AllTextOf parent_id (page_artifacts name parent_id ps)
unfolding page_artifacts
page_artifacts-AllTextOf name parent_id [] = tt
page_artifacts-AllTextOf name parent_id (page ∷ ps) =
    elim (Bool-cases (bytes_eq (normalize_whitespace page.text) [])) [
      | inl blank ↦ rw blank (page_artifacts-AllTextOf name parent_id ps)
      | inr filled ↦ rw filled ((refl, refl, filled), page_artifacts-AllTextOf name parent_id ps)
    ]

AllTextOf-text_artifacts :
    (parent_id : Bytes) (arts : List Artifact)
    → AllTextOf parent_id arts
    → text_artifacts arts ≡ arts
unfolding text_artifacts
AllTextOf-text_artifacts parent_id [] all = refl
AllTextOf-text_artifacts parent_id (a ∷ arts) all =
    let ih = AllTextOf-text_artifacts parent_id arts all.1 in ground (arith, ih, all.0.1, all.0.2)

-- A text that is not white space is not empty.
trimmed-filled : (text : Bytes) → bytes_eq (trim_space text) [] ≡ false → bytes_eq text [] ≡ false
unfolding bytes_eq
trimmed-filled [] h = ground (arith, h, trim_space-nil)
trimmed-filled (c ∷ text) h = refl

module _ {W : Type 0} where
  one_artifact-Yield :
      (parent_id text : Bytes) (w w' : W) (arts : List Artifact)
      → one_artifact parent_id text w ≡ some (ok arts, w')
      → Yield parent_id arts
  unfolding text_artifact
  one_artifact-Yield parent_id text w w' arts h = elim (Bool-cases (bytes_eq text [])) [
    | inl blank ↦ absurd (ground (arith, blank, h))
    | inr filled ↦
        let arts_eq : arts ≡ text_artifact parent_id text ∷ [] = ground (arith, filled, h) in
        rw arts_eq (λ e. ground (arith, e), ((refl, refl, filled), tt))
  ]

  some_artifacts-Yield :
      (parent_id : Bytes) (found : List Artifact) (w w' : W) (arts : List Artifact)
      → AllTextOf parent_id found
      → some_artifacts found w ≡ some (ok arts, w')
      → Yield parent_id arts
  some_artifacts-Yield parent_id [] w w' arts all h = absurd (ground (arith, h))
  some_artifacts-Yield parent_id (a ∷ found) w w' arts all h =
      let same : arts ≡ a ∷ found = ground (arith, h) in rw same (λ e. ground (arith, e), all)

module _ {W P : Type 0} (outside : Outside W P) (env : Env W) (r : Reader W) (parent_id : Bytes)
    (w' : W) (arts : List Artifact) where
  docx-Yield :
      (max : ℤ) (found : Archive P) (w : W)
      → Docx.of_archive outside.xml.decoder outside.xml.part_read env max parent_id found w
        ≡ some (ok arts, w')
      → Yield parent_id arts
  docx-Yield max (not_zip code) w h = absurd (ground (arith, h))
  docx-Yield max (archive files) w h = go (Docx.open_document_part files) h
    where
      of_doc : P → Action W Bytes
      of_doc doc =
          decode_body_text outside.xml.decoder outside.xml.part_read env doc (max_decompressed max)

      go :
          (doc : Result P)
          → ◌≡◌ {A = Option (Result (List Artifact) × W)}
              ((elim doc as (λ x. Action W (List Artifact)) [
                | err e ↦ raise e
                | ok doc ↦
                    of_doc doc >>= (λ text. one_artifact parent_id (normalize_whitespace text))
              ])
                w)
              (some (ok arts, w'))
          → Yield parent_id arts
      go (err e) h = absurd (ground (arith, h))
      go (ok doc) h =
          let (text, t, read, last) =
            bind_ok (of_doc doc) (λ text. one_artifact parent_id (normalize_whitespace text)) w w'
              arts h in
          one_artifact-Yield parent_id (normalize_whitespace text) t w' arts last

  pptx-Yield :
      (max : ℤ) (found : Archive P) (w : W)
      → Pptx.of_archive outside.xml env max parent_id found w ≡ some (ok arts, w')
      → Yield parent_id arts
  pptx-Yield max (not_zip code) w h = absurd (ground (arith, h))
  pptx-Yield max (archive files) w h =
      let (text, t, read, last) =
        bind_ok
          (λ v.
            Pptx.forget_budget outside.xml env
              (Pptx.deck_text outside.xml env files (v, pos (max_decompressed max))))
          (λ text. one_artifact parent_id (normalize_whitespace text)) w w' arts h in
      one_artifact-Yield parent_id (normalize_whitespace text) t w' arts last

  html-Yield :
      (doc : Parsed) (w : W) → of_tree parent_id doc w ≡ some (ok arts, w') → Yield parent_id arts
  html-Yield (refused code) w h = absurd (ground (arith, h))
  html-Yield (tree doc) w h =
      one_artifact-Yield parent_id (normalize_whitespace (collect_text doc)) w w' arts h

  markdown-Yield :
      (text : Bytes) (w : W) → of_text parent_id text w ≡ some (ok arts, w') → Yield parent_id arts
  unfolding trim_space
  markdown-Yield text w h = elim (Bool-cases (bytes_eq (trim_space text) [])) [
    | inl blank ↦ absurd (ground (arith, blank, h))
    | inr filled ↦
        let arts_eq : arts ≡ markdown_artifact parent_id text ∷ [] = ground (arith, filled, h) in
        rw arts_eq (λ e. ground (arith, e), ((refl, refl, trimmed-filled text filled), tt))
  ]

  yields :
      (fmt : Format) (w : W)
      → extractor_of outside fmt env r parent_id w ≡ some (ok arts, w')
      → Yield parent_id arts
  unfolding extractor_of extract_text extract_html extract_pdf extract_docx extract_pptx
      extract_markdown
  yields plain w h =
      let (bytes, t, read, last) =
        bind_ok (read_all env r)
          (λ bytes. one_artifact parent_id (normalize_whitespace (coerced bytes))) w w' arts h in
      one_artifact-Yield parent_id (normalize_whitespace (coerced bytes)) t w' arts last
  yields html w h =
      let (bytes, t, read, last) =
        bind_ok (read_all env r) (λ bytes. of_tree parent_id (outside.parse_html bytes)) w w' arts
          h in
      html-Yield (outside.parse_html bytes) t last
  yields pdf w h =
      let engine = pdftotext_engine outside in
      let (bytes, t, read, rest) =
        bind_ok (read_all env r)
          (λ bytes.
            engine.pages env.ctx bytes
            >>= (λ ps. some_artifacts (page_artifacts engine.name parent_id ps)))
          w w' arts h in
      let (ps, u, paged, last) =
        bind_ok (engine.pages env.ctx bytes)
          (λ ps. some_artifacts (page_artifacts engine.name parent_id ps)) t w' arts rest in
      some_artifacts-Yield parent_id (page_artifacts engine.name parent_id ps) u w' arts
        (page_artifacts-AllTextOf engine.name parent_id ps) last
  yields docx w h =
      let (bytes, t, read, last) =
        bind_ok (read_all env r)
          (λ bytes.
            Docx.of_archive outside.xml.decoder outside.xml.part_read env (pos 0) parent_id
              (outside.zip bytes))
          w w' arts h in
      docx-Yield (pos 0) (outside.zip bytes) t last
  yields pptx w h =
      let (bytes, t, read, last) =
        bind_ok (read_all env r)
          (λ bytes. Pptx.of_archive outside.xml env (pos 0) parent_id (outside.zip bytes)) w w' arts
          h in
      pptx-Yield (pos 0) (outside.zip bytes) t last
  yields markdown w h =
      let text : Bytes → Bytes =
        λ bytes. strip_front_matter (coerced (trim_prefix bytes byte_order_mark)) in
      let (bytes, t, read, last) =
        bind_ok (read_all env r) (λ bytes. of_text parent_id (text bytes)) w w' arts h in
      markdown-Yield (text bytes) t last

  -- An extractor of the bundle that succeeds, on any source and in any context, yields at least one
  -- artifact, all of them text of the source that is not empty and held inline: `TextArtifacts` keeps
  -- each of them.
  pub extractor_of-Yield :
      (fmt : Format) (w : W)
      → extractor_of outside fmt env r parent_id w ≡ some (ok arts, w')
      → Yield parent_id arts × (text_artifacts arts ≡ arts)
  extractor_of-Yield fmt w h =
      let y = yields fmt w h in (y, AllTextOf-text_artifacts parent_id arts y.1)
