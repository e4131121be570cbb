-- ===== src/Extract/Pptx.antt =====
-- extract/pptx/pptx.go: the PPTX extractor, over the parts of an archive. `xml.Unmarshal` is a parameter
-- for each of the two types that it fills.
pub mod Deck
mod Tests
use maestro_cms.Prelude.{zero, false, Option, none, some, List, [], ◌∷◌, ◌++◌, if◌then◌else◌}
use maestro_cms.Prelude.Int.{ℤ, pos}
use maestro_cms.Text.{Bytes, bytes_eq, codes}
use maestro_cms.Text.Path.{join, dir, base}
use maestro_cms.Extract.Io.{IoError, Reader, read_loop}
use maestro_cms.Extract.Defs.{
  Cause, parser_failed, reading_failed, no_slides, notes_missing, malformed_source, context_done,
  Result, ok, err, Action, pure, ◌>>=◌, Artifact, Env, read_all,
}
use maestro_cms.Extract.Normalize.{normalize_whitespace}
use maestro_cms.Extract.Html.{one_artifact}
use maestro_cms.Extract.Ooxml.{
  opened, open_failed, ZipFile, Archive, archive, not_zip, Decoder, capped_read, max_decompressed,
  decode_loop,
}
use maestro_cms.Extract.Slides.{sorted_slides, file_at, resolve_order}

-- `MediaType`
abbrev pub media_type : Bytes
media_type = codes "application/vnd.openxmlformats-officedocument.presentationml.presentation"

-- `notesRelType`
abbrev pub notes_rel_type : Bytes
notes_rel_type =
    codes "http://schemas.openxmlformats.org/officeDocument/2006/relationships/notesSlide"

-- `relationships`
pub record Rel : Type 0 where
  pub id : Bytes
  pub rel_type : Bytes
  pub target : Bytes

-- `relMap[id]`, a map that the relationships fill in order.
unfoldable pub target_of : Bytes → List Rel → Option Bytes
target_of id [] = none
target_of id (r ∷ rels) = elim (target_of id rels) [
  | some later ↦ some later
  | none ↦ if bytes_eq r.id id then some r.target else none
]

-- The loop of `presentationOrder` over the slide ids.
unfoldable pub slide_names : List Bytes → List Rel → List Bytes
slide_names [] rels = []
slide_names (id ∷ ids) rels =
    let rest = slide_names ids rels in
    elim (target_of id rels) [ none ↦ rest | some target ↦ join (codes "ppt") target ∷ rest ]

-- The first relationship to a notes slide.
unfoldable pub notes_target : List Rel → Option Bytes
notes_target [] = none
notes_target (r ∷ rels) =
    let later = notes_target rels in
    if bytes_eq r.rel_type notes_rel_type then some r.target else later

-- The name of a slide's relationships part.
abbrev pub rels_name : Bytes → Bytes
rels_name slide_name = dir slide_name ++ codes "/_rels/" ++ base slide_name ++ codes ".rels"

abbrev pub broken : {A : Type 0} → Cause → Result A
broken cause = err (malformed_source media_type cause)

-- What the extractor takes: the decoder, a part's stream, and `xml.Unmarshal` to the relationship ids of
-- a presentation and to relationships.
pub record Xml (P : Type 0) : Type 1 where
  pub decoder : Decoder P
  pub part_read : Reader P
  pub slide_ids : Bytes → Option (List Bytes)
  pub rels_of : Bytes → Option (List Rel)

-- The methods of `partDecoder`: the field `remaining` stands beside the world.
module _ {W P : Type 0} (xml : Xml P) (env : Env W) where
  abbrev pub after_part :
      W → Option ((Bytes × Option IoError) × (P × ℤ)) → Option (Result Bytes × (W × ℤ))
  after_part w none = none
  after_part w (some ((bytes, none), s)) = some (ok bytes, (w, s.1))
  after_part w (some ((bytes, some e), s)) = some (broken (reading_failed e), (w, s.1))

  -- `readPart`
  unfoldable pub read_part : ZipFile P → Action (W × ℤ) Bytes
  read_part f (w, remaining) = elim f.open_part [
    | open_failed code ↦ some (broken (parser_failed code), (w, remaining))
    | opened rc ↦
        after_part w (read_loop env.room (capped_read xml.part_read) env.fuel [] (rc, remaining))
  ]

  -- `decode`
  unfoldable pub decode : ZipFile P → Action (W × ℤ) Bytes
  decode f (w, remaining) = elim f.open_part [
    | open_failed code ↦ some (broken (parser_failed code), (w, remaining))
    | opened rc ↦
        elim (decode_loop xml.decoder xml.part_read media_type env.ctx env.fuel false
          xml.decoder.new_decoder w (rc, remaining)) [
            | none ↦ none
            | some (result, w', left) ↦ some (result, (w', left))
          ]
  ]

  abbrev pub order_of : Option (List Bytes) → Option (List Rel) → List Bytes
  order_of none rels = []
  order_of (some ids) none = []
  order_of (some ids) (some rels) = slide_names ids rels

  abbrev pub order_in : Option (ZipFile P) → Option (ZipFile P) → Action (W × ℤ) (List Bytes)
  order_in none rels_f = pure []
  order_in (some pres) none = pure []
  order_in (some pres) (some rels_f) = do
    pres_bytes ← read_part pres
    rels_bytes ← read_part rels_f
    pure (order_of (xml.slide_ids pres_bytes) (xml.rels_of rels_bytes))

  -- `presentationOrder`; `[]` is nil.
  unfoldable pub presentation_order : List (ZipFile P) → Action (W × ℤ) (List Bytes)
  presentation_order files =
      order_in (file_at (codes "ppt/presentation.xml") files)
        (file_at (codes "ppt/_rels/presentation.xml.rels") files)

  abbrev pub notes_at : List (ZipFile P) → Bytes → Option (List Rel) → Result (Option (ZipFile P))
  notes_at files slide_name none = broken (parser_failed zero)
  notes_at files slide_name (some rels) = elim (notes_target rels) [
    | none ↦ ok none
    | some target ↦
        let part = join (dir slide_name) target in
        elim (file_at part files) [
          | none ↦ broken (notes_missing part slide_name)
          | some nf ↦ ok (some nf)
        ]
  ]

  abbrev pub notes_in :
      List (ZipFile P) → Bytes → Option (ZipFile P) → Action (W × ℤ) (Option (ZipFile P))
  notes_in files slide_name none = pure none
  notes_in files slide_name (some rels) = do
    bytes ← read_part rels
    λ s. some (notes_at files slide_name (xml.rels_of bytes), s)

  -- `notesFor`; `none` is no notes.
  unfoldable pub notes_for : List (ZipFile P) → Bytes → Action (W × ℤ) (Option (ZipFile P))
  notes_for files slide_name = notes_in files slide_name (file_at (rels_name slide_name) files)

  -- The text of the notes, where there are any.
  abbrev pub notes_text : Option (ZipFile P) → Action (W × ℤ) Bytes
  notes_text none = pure []
  notes_text (some nf) = decode nf

  abbrev pub check_context : Action (W × ℤ) Unit
  check_context (w, remaining) =
      let (c, w') = env.ctx w in
      elim c [
        | some e ↦ some (err (context_done e), (w', remaining))
        | none ↦ some (ok tt, (w', remaining))
      ]

  -- The loop of `Extract` over the slides: what it writes to `b`.
  unfoldable pub slides_text : List (ZipFile P) → List (ZipFile P) → Action (W × ℤ) Bytes
  slides_text files [] = pure []
  slides_text files (sf ∷ slides) = do
    checked ← check_context
    slide_text ← decode sf
    notes ← notes_for files sf.name
    of_notes ← notes_text notes
    rest ← slides_text files slides
    pure (slide_text ++ of_notes ++ rest)

  abbrev pub of_slides : List (ZipFile P) → List (ZipFile P) → Action (W × ℤ) Bytes
  of_slides files [] s = some (broken no_slides, s)
  of_slides files (sf ∷ slides) s = slides_text files (sf ∷ slides) s

  -- The text of an archive's slides.
  unfoldable pub deck_text : List (ZipFile P) → Action (W × ℤ) Bytes
  deck_text files = do
    ordered ← presentation_order files
    of_slides files (resolve_order ordered (sorted_slides files) files)

  abbrev pub forget_budget : Option (Result Bytes × (W × ℤ)) → Option (Result Bytes × W)
  forget_budget none = none
  forget_budget (some (result, s)) = some (result, s.0)

  abbrev pub of_archive : ℤ → Bytes → Archive P → Action W (List Artifact)
  of_archive max parent_id (not_zip code) w = some (broken (parser_failed code), w)
  of_archive max parent_id (archive files) w =
      ((λ v. forget_budget (deck_text files (v, pos (max_decompressed max))))
          >>= (λ text. one_artifact parent_id (normalize_whitespace text)))
        w

-- `Extract`, for the field `MaxDecompressedBytes`.
unfoldable pub extract_pptx :
    {W P : Type 0}
    → Xml P
    → (Bytes → Archive P)
    → ℤ
    → Env W
    → Reader W
    → Bytes
    → Action W (List Artifact)
extract_pptx xml zip max env r parent_id = do
  bytes ← read_all env r
  of_archive xml env max parent_id (zip bytes)
