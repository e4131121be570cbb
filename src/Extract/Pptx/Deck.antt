-- ===== src/Extract/Pptx/Deck.antt =====
-- The PPTX extractor on slides of paragraphs, with their notes.
use mathlib.Core.List.{append-nil}
use maestro_cms.Prelude.{◌≡◌, ◌<◌, refl, ap, ◌∙◌, false, none, some, List, [], ◌∷◌, ◌++◌, length}
use maestro_cms.Prelude.Int.{ℤ, pos}
use maestro_cms.Text.{Bytes}
use maestro_cms.Extract.Io.{Reader}
use maestro_cms.Extract.Defs.{Action, bind-ok, ok, Env, read_all}
use maestro_cms.Extract.Normalize.{normalize_whitespace}
use maestro_cms.Extract.Html.{one_artifact}
use maestro_cms.Extract.Ooxml.{opened, ZipFile, Archive, archive, max_decompressed}
use maestro_cms.Extract.Ooxml.Document.{
  Piece, AllParagraphs, document_tokens, document_text, text_of-document_tokens, IsYielding,
  budget_after, decode_loop-text_of,
}
use maestro_cms.Extract.Slides.{sorted_slides, resolve_order}
use maestro_cms.Extract.Pptx.{
  Xml, media_type, decode, notes_for, check_context, slides_text, of_slides, deck_text,
  presentation_order, forget_budget, of_archive, extract_pptx,
}

module _ {W P : Type 0} (xml : Xml P) (env : Env W) where
  -- The part yields the tokens of the paragraphs, with a budget before and behind them.
  pub record IsPart (f : ZipFile P) (ps : List (List Piece)) (z z' : ℤ) : Type 0 where
    pub stream : P
    pub opens : f.open_part ≡ opened stream
    pub well_formed : AllParagraphs ps
    pub enough : length (document_tokens ps) < env.fuel
    pub yields :
        IsYielding xml.decoder xml.part_read
          (document_tokens ps)
          xml.decoder.new_decoder
          (stream, z)
    pub leaves :
        budget_after xml.decoder xml.part_read
          (document_tokens ps)
          xml.decoder.new_decoder
          (stream, z)
        ≡ z'

  -- The slides and their notes are such parts, which share the budget; the text of them all.
  pub data Deck (files : List (ZipFile P)) : List (ZipFile P) → ℤ → Bytes → ℤ → Type 0 where
    done : {z : ℤ} → Deck files [] z [] z
    bare :
        {sf : ZipFile P} {slides : List (ZipFile P)} {ps : List (List Piece)} {z z1 z2 : ℤ}
        {text : Bytes}
        → IsPart sf ps z z1
        → ((w : W) → notes_for xml env files sf.name (w, z1) ≡ some (ok none, (w, z1)))
        → Deck files slides z1 text z2
        → Deck files (sf ∷ slides) z (document_text ps ++ text) z2
    noted :
        {sf nf : ZipFile P} {slides : List (ZipFile P)} {ps ns : List (List Piece)}
        {z z1 z2 z3 z4 : ℤ} {text : Bytes}
        → IsPart sf ps z z1
        → ((w : W) → notes_for xml env files sf.name (w, z1) ≡ some (ok (some nf), (w, z2)))
        → IsPart nf ns z2 z3
        → Deck files slides z3 text z4
        → Deck files (sf ∷ slides) z (document_text ps ++ document_text ns ++ text) z4

  module _ (alive : (w : W) → (env.ctx w).0 ≡ none) where
    decode-document_text :
        (f : ZipFile P) (ps : List (List Piece)) (z z' : ℤ) (w : W)
        → IsPart f ps z z'
        → (w' : W) × (decode xml env f (w, z) ≡ some (ok (document_text ps), (w', z')))
    unfolding decode
    decode-document_text f ps z z' w part =
        let (w', decoded) =
          decode_loop-text_of xml.decoder xml.part_read media_type env.ctx alive env.fuel false
            (document_tokens ps) xml.decoder.new_decoder w (part.stream, z) part.enough
            part.yields in
        let left =
          budget_after xml.decoder xml.part_read (document_tokens ps) xml.decoder.new_decoder
            (part.stream, z) in
        (
          w',
          rw (part.opens, decoded, decode)
              (ap (λ t. some (ok t, (w', left))) (text_of-document_tokens ps part.well_formed)
                ∙ ap (λ b. some (ok (document_text ps), (w', b))) part.leaves),
        )

    check_context-alive :
        (w : W) (z : ℤ) → check_context xml env (w, z) ≡ some (ok tt, ((env.ctx w).1, z))
    check_context-alive w z = rw (alive w, check_context)

    -- Slides and notes that share the budget are written one after the other.
    slides_text-Deck :
        (files slides : List (ZipFile P)) {z z' : ℤ} {text : Bytes} (w : W)
        → Deck files slides z text z'
        → (w' : W) × (slides_text xml env files slides (w, z) ≡ some (ok text, (w', z')))
    unfolding slides_text
    slides_text-Deck files [] w done = (w, refl)
    slides_text-Deck files (sf ∷ slides) {z} {z'} w (bare {ps} {z1} {text} part no_notes rest) =
        let (w1, body) = decode-document_text sf ps z z1 (env.ctx w).1 part in
        let (w2, behind) = slides_text-Deck files slides w1 rest in
        (
          w2,
          bind-ok (check_context xml env) _ _ _ tt (check_context-alive w z)
              ∙ bind-ok (decode xml env sf) _ _ _ (document_text ps) body
              ∙ bind-ok (notes_for xml env files sf.name) _ _ _ none (no_notes w1)
              ∙ bind-ok (slides_text xml env files slides) _ _ _ _ behind
              ∙ ap (λ b. some (ok (b ++ text), (w2, z'))) (append-nil (document_text ps)),
        )
    slides_text-Deck files (sf ∷ slides) {z} w
          (noted {nf} {ps} {ns} {z1} {z2} {z3} part found of_notes rest) =
        let (w1, body) = decode-document_text sf ps z z1 (env.ctx w).1 part in
        let (w2, behind_body) = decode-document_text nf ns z2 z3 w1 of_notes in
        let (w3, behind) = slides_text-Deck files slides w2 rest in
        (
          w3,
          bind-ok (check_context xml env) _ _ _ tt (check_context-alive w z)
              ∙ bind-ok (decode xml env sf) _ _ _ (document_text ps) body
              ∙ bind-ok (notes_for xml env files sf.name) _ _ _ (some nf) (found w1)
              ∙ bind-ok (decode xml env nf) _ _ _ (document_text ns) behind_body
              ∙ bind-ok (slides_text xml env files slides) _ _ _ _ behind,
        )

    -- Extracting a deck whose slides and notes yield the tokens of paragraphs, within the budget that
    -- they share, in a context that is never done and with fuel for the tokens, ends with the
    -- normalized text of the slides in their order, each followed by that of its notes.
    pub extract_pptx-Deck :
        (zip : Bytes → Archive P) (max : ℤ) (r : Reader W) (parent_id bytes : Bytes)
        (files : List (ZipFile P)) (ordered : List Bytes) (sf : ZipFile P)
        (slides : List (ZipFile P)) (text : Bytes) (w w1 : W) (z z' : ℤ)
        → read_all env r w ≡ some (ok bytes, w1)
        → zip bytes ≡ archive files
        → presentation_order xml env files (w1, pos (max_decompressed max))
          ≡ some (ok ordered, (w1, z))
        → resolve_order ordered (sorted_slides files) files ≡ sf ∷ slides
        → Deck files (sf ∷ slides) z text z'
        → (w' : W) × (extract_pptx xml zip max env r parent_id w
            ≡ one_artifact parent_id (normalize_whitespace text) w')
    unfolding extract_pptx deck_text
    extract_pptx-Deck zip max r parent_id bytes files ordered sf slides text w w1 z z' read zipped
          order resolved deck =
        let (w', written) = slides_text-Deck files (sf ∷ slides) w1 deck in
        let start = pos (max_decompressed max) in
        let resolved_text : of_slides xml env files
              (resolve_order ordered (sorted_slides files) files) (w1, z)
            ≡ some (ok text, (w', z')) =
          ap (λ l. of_slides xml env files l (w1, z)) resolved ∙ written in
        let all : deck_text xml env files (w1, start) ≡ some (ok text, (w', z')) =
          bind-ok (presentation_order xml env files) _ _ _ ordered order ∙ resolved_text in
        let body : Action W Bytes =
          λ v. forget_budget xml env (deck_text xml env files (v, start)) in
        (
          w',
          bind-ok (read_all env r) _ w w1 bytes read
              ∙ ap (λ a. of_archive xml env max parent_id a w1) zipped
              ∙ bind-ok body _ w1 w' text (ap (forget_budget xml env) all),
        )
