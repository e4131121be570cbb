-- ===== src/Extract/Docx/Tests.antt =====
-- The DOCX extractor at a concrete document.
use maestro_cms.Prelude.{◌≡◌, refl, none, some, List, [], ◌∷◌, arith}
use maestro_cms.Prelude.Int.{ℤ, pos}
use maestro_cms.Text.{codes, bytes_eq}
use maestro_cms.Extract.Io.{eof, Reader, ctx_read, read_loop}
use maestro_cms.Extract.Defs.{ok, Env, read_all}
use maestro_cms.Extract.Normalize.{normalize_whitespace}
use maestro_cms.Extract.Html.{one_artifact}
use maestro_cms.Extract.Ooxml.{
  opened, ZipFile, archive, Token, token, at_eof, Decoder, max_decompressed,
}
use maestro_cms.Extract.Ooxml.Document.{
  Piece, run, aside, opening, closing, comment, document_tokens, document_text, IsYielding,
}
use maestro_cms.Extract.Docx.{document_part, extract_docx, open_document_part}
use maestro_cms.Extract.Docx.Paragraphs.{extract_docx-document_text}

-- Two paragraphs: one with properties and two runs, and one with a field's instruction.
abbrev letter : List (List Piece)
letter =
    (opening (codes "pPr") ∷ closing (codes "pPr") ∷ run (codes "Dear ") ∷ run (codes "Ada") ∷ [])
    ∷ (comment ∷ aside (codes "PAGE") ∷ run (codes "Bye") ∷ [])
    ∷ []

-- A decoder of a list of tokens.
abbrev listed : List Token → Decoder Unit
listed ts = record {
  State = List Token;
  new_decoder = ts;
  next_token = λ r d s. elim d [ [] ↦ (at_eof, [], s) | t ∷ rest ↦ (token t, rest, s) ];
}

abbrev no_stream : Reader Unit
no_stream n w = ([], some eof, w)

abbrev two_bytes : Reader Unit
two_bytes n w = (codes "PK", some eof, w)

abbrev quiet : Env Unit
quiet = record { ctx = λ w. (none, w); room = λ n. 512; fuel = 40 }

abbrev parts : List (ZipFile Unit)
parts = (record { name = document_part; open_part = opened tt }) ∷ []

two_bytes-read : read_all quiet two_bytes tt ≡ some (ok (codes "PK"), tt)
unfolding read_all read_loop ctx_read
two_bytes-read = refl

parts-document : open_document_part parts ≡ ok tt
unfolding open_document_part bytes_eq
parts-document = refl

listed-IsYielding : (all ts : List Token) (s : Unit × ℤ) → IsYielding (listed all) no_stream ts ts s
listed-IsYielding all [] s = refl
listed-IsYielding all (t ∷ ts) s = (refl, listed-IsYielding all ts s)

extract_docx-document_text_example :
    (w : Unit) × (extract_docx
        (listed (document_tokens letter))
        no_stream
        (λ bytes. archive parts)
        (pos 9)
        quiet
        two_bytes
        (codes "s")
        tt
      ≡ one_artifact (codes "s") (normalize_whitespace (document_text letter)) w)
extract_docx-document_text_example =
    extract_docx-document_text (listed (document_tokens letter)) no_stream quiet (λ w. refl)
      (λ bytes. archive parts) (pos 9) two_bytes (codes "s") (codes "PK") parts tt letter tt tt
      two_bytes-read refl parts-document ((λ e. cc, (λ e. cc, tt)), (tt, tt)) (omega arith)
      (listed-IsYielding (document_tokens letter) (document_tokens letter)
        (tt, pos (max_decompressed (pos 9))))
