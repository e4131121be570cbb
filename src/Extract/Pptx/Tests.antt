-- ===== src/Extract/Pptx/Tests.antt =====
-- The PPTX extractor at a concrete deck.
use maestro_cms.Prelude.{◌≡◌, refl, none, some, List, [], ◌∷◌, ◌++◌, arith, length, ◌<◌}
use maestro_cms.Prelude.Int.{ℤ, pos}
use maestro_cms.Text.{Bytes, codes, bytes_eq}
use maestro_cms.Extract.Io.{eof, Reader, ctx_read, read_loop}
use maestro_cms.Extract.Defs.{ok, Env, read_all}
use maestro_cms.Extract.Normalize.{normalize_whitespace}
use maestro_cms.Extract.Html.{one_artifact}
use maestro_cms.Extract.Ooxml.{
  opened, ZipFile, archive, Token, token, at_eof, Decoder, max_decompressed, capped_read,
}
use maestro_cms.Extract.Ooxml.Document.{
  Piece, run, aside, AllParagraphs, document_tokens, document_text, IsYielding, budget_after,
}
use maestro_cms.Extract.Slides.{
  file_at, resolve_order, sorted_slides, ordered_files, other_files, sort_slides, slides_of,
  is_slide_part, atoi, digits_value, signed_int, insert_slide, is_seen,
}
use maestro_cms.Store.Memory.{has_prefix}
use maestro_cms.Text.Path.{has_suffix, dir, base, join}
use maestro_cms.Extract.Pptx.{
  Xml, notes_rel_type, notes_for, presentation_order, extract_pptx, read_part, notes_target,
}
use maestro_cms.Extract.Pptx.Deck.{Deck, done, bare, noted, IsPart, extract_pptx-Deck}

-- A decoder of parts that are lists of tokens.
abbrev of_tokens : Decoder (List Token)
of_tokens = record {
  State = Unit;
  new_decoder = tt;
  next_token = λ r d s. elim s.0 [ [] ↦ (at_eof, tt, s) | t ∷ rest ↦ (token t, tt, (rest, s.1)) ];
}

-- Each slide's relationships name one slide of notes.
abbrev xml : Xml (List Token)
xml = record {
  decoder = of_tokens;
  part_read = λ n p. ([], some eof, p);
  slide_ids = λ bytes. none;
  rels_of = λ bytes. some (
      (record {
        id = codes "r";
        rel_type = notes_rel_type;
        target = codes "../notesSlides/notesSlide1.xml";
      })
      ∷ []);
}

abbrev quiet : Env Unit
quiet = record { ctx = λ w. (none, w); room = λ n. 512; fuel = 40 }

abbrev two_bytes : Reader Unit
two_bytes n w = (codes "PK", some eof, w)

abbrev title : List (List Piece)
title = (run (codes "Plan") ∷ []) ∷ []

abbrev aside_note : List (List Piece)
aside_note = (aside (codes "x") ∷ run (codes "Smile") ∷ []) ∷ []

abbrev ending : List (List Piece)
ending = (run (codes "The ") ∷ run (codes "end") ∷ []) ∷ []

abbrev part : Bytes → List (List Piece) → ZipFile (List Token)
part name ps = record { name = name; open_part = opened (document_tokens ps) }

abbrev slide1 : ZipFile (List Token)
slide1 = part (codes "ppt/slides/slide1.xml") title

abbrev slide2 : ZipFile (List Token)
slide2 = part (codes "ppt/slides/slide2.xml") ending

abbrev notes1 : ZipFile (List Token)
notes1 = part (codes "ppt/notesSlides/notesSlide1.xml") aside_note

abbrev files : List (ZipFile (List Token))
files = slide2 ∷ part (codes "ppt/slides/_rels/slide1.xml.rels") [] ∷ notes1 ∷ slide1 ∷ []

tokens-IsYielding : (ts : List Token) (z : ℤ) → IsYielding of_tokens xml.part_read ts tt (ts, z)
tokens-IsYielding [] z = refl
tokens-IsYielding (t ∷ ts) z = (refl, tokens-IsYielding ts z)

tokens-budget_after :
    (ts : List Token) (z : ℤ) → budget_after of_tokens xml.part_read ts tt (ts, z) ≡ z
tokens-budget_after [] z = refl
tokens-budget_after (t ∷ ts) z = tokens-budget_after ts z

slides-order : resolve_order [] (sorted_slides files) files ≡ slide1 ∷ slide2 ∷ []
unfolding resolve_order sorted_slides ordered_files other_files sort_slides slides_of is_slide_part
    has_prefix has_suffix bytes_eq atoi digits_value signed_int insert_slide is_seen
slides-order = refl

notes-slide1 :
    (w : Unit)
    → notes_for xml quiet files slide1.name (w, pos 9) ≡ some (ok (some notes1), (w, pos 9))
unfolding notes_for read_part read_loop capped_read notes_target file_at bytes_eq dir base join
notes-slide1 w = refl

notes-slide2 :
    (w : Unit) → notes_for xml quiet files slide2.name (w, pos 9) ≡ some (ok none, (w, pos 9))
unfolding notes_for file_at bytes_eq dir base
notes-slide2 w = refl

part-IsPart :
    (name : Bytes) (ps : List (List Piece))
    → AllParagraphs ps
    → length (document_tokens ps) < 40
    → IsPart xml quiet (part name ps) ps (pos 9) (pos 9)
part-IsPart name ps paragraphs enough = record {
  stream = document_tokens ps;
  opens = refl;
  well_formed = paragraphs;
  enough = enough;
  yields = tokens-IsYielding (document_tokens ps) (pos 9);
  leaves = tokens-budget_after (document_tokens ps) (pos 9);
}

abbrev deck_words : Bytes
deck_words = document_text title ++ document_text aside_note ++ (document_text ending ++ [])

slides-Deck : Deck xml quiet files (slide1 ∷ slide2 ∷ []) (pos 9) deck_words (pos 9)
slides-Deck =
    noted (part-IsPart slide1.name title (tt, tt) (omega arith)) notes-slide1
      (part-IsPart notes1.name aside_note (tt, tt) (omega arith))
      (bare (part-IsPart slide2.name ending (tt, tt) (omega arith)) notes-slide2 done)

two_bytes-read : read_all quiet two_bytes tt ≡ some (ok (codes "PK"), tt)
unfolding read_all read_loop ctx_read
two_bytes-read = refl

no_presentation :
    presentation_order xml quiet files (tt, pos (max_decompressed (pos 9)))
    ≡ some (ok [], (tt, pos 9))
unfolding presentation_order file_at bytes_eq max_decompressed
no_presentation = refl

extract_pptx-Deck_example :
    (w : Unit) × (extract_pptx xml (λ bytes. archive files) (pos 9) quiet two_bytes (codes "s") tt
      ≡ one_artifact (codes "s") (normalize_whitespace deck_words) w)
extract_pptx-Deck_example =
    extract_pptx-Deck xml quiet (λ w. refl) (λ bytes. archive files) (pos 9) two_bytes (codes "s")
      (codes "PK") files [] slide1 (slide2 ∷ []) deck_words tt tt (pos 9) (pos 9) two_bytes-read
      refl no_presentation slides-order slides-Deck
