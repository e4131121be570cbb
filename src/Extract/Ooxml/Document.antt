-- ===== src/Extract/Ooxml/Document.antt =====
-- The loop over XML tokens on the tokens of a document: paragraphs that hold runs of text, and other
-- elements and text around them.
use mathlib.Core.List.{append_assoc}
use maestro_cms.Prelude.{
  ℕ, zero, suc, ◌<◌, ◌≡◌, ◌≢◌, refl, sym, ap, ◌∙◌, Bool, false, none, some, List, [], ◌∷◌, ◌++◌,
  arith, length, Bool-cases, inl, inr,
}
use maestro_cms.Prelude.Int.{ℤ}
use maestro_cms.Text.{Bytes, bytes_eq}
use maestro_cms.Text.Equal.{bytes_eq_ne}
use maestro_cms.Extract.Io.{Reader, Context}
use maestro_cms.Extract.Defs.{ok}
use maestro_cms.Extract.Ooxml.{
  Token, start_element, end_element, char_data, other_token, Decoder, token, at_eof, capped_read,
  in_text_after, written, decode_loop,
}

-- A part of a paragraph: `<t>` with its text, text that is in no `<t>`, the start or the end of another
-- element, and a comment or the like.
pub data Piece : Type 0 where
  run aside opening closing : Bytes → Piece
  comment : Piece

-- The other elements are no `t` that opens and no `p` that closes.
abbrev pub IsParagraph : List Piece → Type 0
IsParagraph [] = Unit
IsParagraph (opening name ∷ ps) = (name ≢ b't' ∷ []) × IsParagraph ps
IsParagraph (closing name ∷ ps) = (name ≢ b'p' ∷ []) × IsParagraph ps
IsParagraph (_ ∷ ps) = IsParagraph ps

abbrev pub AllParagraphs : List (List Piece) → Type 0
AllParagraphs [] = Unit
AllParagraphs (p ∷ ps) = IsParagraph p × AllParagraphs ps

abbrev tokens_of_piece : Piece → List Token
tokens_of_piece (run text) =
    start_element (b't' ∷ []) ∷ char_data text ∷ end_element (b't' ∷ []) ∷ []
tokens_of_piece (aside text) = char_data text ∷ []
tokens_of_piece (opening name) = start_element name ∷ []
tokens_of_piece (closing name) = end_element name ∷ []
tokens_of_piece comment = other_token ∷ []

abbrev pub tokens_of_pieces : List Piece → List Token
tokens_of_pieces [] = []
tokens_of_pieces (p ∷ ps) = tokens_of_piece p ++ tokens_of_pieces ps

-- The tokens of paragraphs.
abbrev pub document_tokens : List (List Piece) → List Token
document_tokens [] = []
document_tokens (p ∷ ps) =
    start_element (b'p' ∷ []) ∷ (tokens_of_pieces p ++ end_element (b'p' ∷ []) ∷ document_tokens ps)

abbrev pub run_text : List Piece → Bytes
run_text [] = []
run_text (run text ∷ ps) = text ++ run_text ps
run_text (_ ∷ ps) = run_text ps

-- The text of paragraphs, with a blank line behind each.
abbrev pub document_text : List (List Piece) → Bytes
document_text [] = []
document_text (p ∷ ps) = run_text p ++ b'\n' ∷ b'\n' ∷ document_text ps

-- What the loop writes for tokens.
abbrev pub text_of : Bool → List Token → Bytes
text_of in_text [] = []
text_of in_text (t ∷ ts) = written in_text t ++ text_of (in_text_after in_text t) ts

text_of-pieces :
    (ps : List Piece) (ts : List Token)
    → IsParagraph ps
    → text_of false (tokens_of_pieces ps ++ ts) ≡ run_text ps ++ text_of false ts
unfolding bytes_eq
text_of-pieces [] ts h = refl
text_of-pieces (run text ∷ ps) ts h =
    ap (λ l. text ++ l) (text_of-pieces ps ts h)
    ∙ sym (append_assoc text (run_text ps) (text_of false ts))
text_of-pieces (aside text ∷ ps) ts h = text_of-pieces ps ts h
text_of-pieces (opening name ∷ ps) ts (not_t, h) =
    rw (bytes_eq_ne name (b't' ∷ []) not_t) (text_of-pieces ps ts h)
text_of-pieces (closing name ∷ ps) ts (not_p, h) =
    let no_break = bytes_eq_ne name (b'p' ∷ []) not_p in
    let rest = text_of-pieces ps ts h in
    elim (Bool-cases (bytes_eq name (b't' ∷ []))) [
      | inl e ↦ rw (no_break, e) rest
      | inr e ↦ rw (no_break, e) rest
    ]
text_of-pieces (comment ∷ ps) ts h = text_of-pieces ps ts h

pub text_of-document_tokens :
    (ps : List (List Piece))
    → AllParagraphs ps
    → text_of false (document_tokens ps) ≡ document_text ps
unfolding bytes_eq
text_of-document_tokens [] h = refl
text_of-document_tokens (p ∷ ps) (first, h) =
    text_of-pieces p (end_element (b'p' ∷ []) ∷ document_tokens ps) first
    ∙ ap (λ l. run_text p ++ b'\n' ∷ b'\n' ∷ l) (text_of-document_tokens ps h)

module _ {P : Type 0} (dec : Decoder P) (part_read : Reader P) where
  -- The decoder yields the tokens from a state of it and of the part, and then the end.
  abbrev pub IsYielding : List Token → dec.State → P × ℤ → Type 0
  IsYielding [] d s = (dec.next_token (capped_read part_read) d s).0 ≡ at_eof
  IsYielding (t ∷ ts) d s =
      let (r, d', s') = dec.next_token (capped_read part_read) d s in
      (r ≡ token t) × IsYielding ts d' s'

  -- What the tokens leave of the budget.
  abbrev pub budget_after : List Token → dec.State → P × ℤ → ℤ
  budget_after [] d s = (dec.next_token (capped_read part_read) d s).2.1
  budget_after (t ∷ ts) d s =
      let (r, d', s') = dec.next_token (capped_read part_read) d s in budget_after ts d' s'

  pub decode_loop-text_of :
      {W : Type 0} (mt : Bytes) (ctx : Context W)
      → ((w : W) → (ctx w).0 ≡ none)
      → (f : ℕ) (in_text : Bool) (ts : List Token) (d : dec.State) (w : W) (s : P × ℤ)
      → length ts < f
      → IsYielding ts d s
      → (w' : W) × (decode_loop dec part_read mt ctx f in_text d w s
          ≡ some (ok (text_of in_text ts), w', budget_after ts d s))
  unfolding decode_loop
  decode_loop-text_of mt ctx alive zero in_text ts d w s h yields = absurd (omega arith)
  decode_loop-text_of mt ctx alive (suc f) in_text [] d w s h yields =
      ((ctx w).1, rw (alive w, yields, decode_loop))
  decode_loop-text_of mt ctx alive (suc f) in_text (t ∷ ts) d w s h (yields, rest) =
      let (r, d', s') = dec.next_token (capped_read part_read) d s in
      let (w', on) =
        decode_loop-text_of mt ctx alive f (in_text_after in_text t) ts d' (ctx w).1 s'
          (omega arith) rest in
      (w', rw (alive w, yields, on, decode_loop))
