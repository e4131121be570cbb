-- ===== src/Extract/Ooxml.antt =====
-- What the DOCX and PPTX extractors share: archives, parts and the loop over XML tokens. The archive
-- reader (`archive/zip`), a part's stream and the XML decoder (`encoding/xml`) are parameters; the
-- decoder reads through the capped reader that it is made with.
pub mod Document
use maestro_cms.Prelude.{
  ℕ, zero, suc, Bool, true, false, Option, none, some, List, [], ◌∷◌, ◌++◌, if◌then◌else◌,
}
use maestro_cms.Prelude.Int.{ℤ, pos, negsuc}
use maestro_cms.Text.{Bytes, bytes_eq}
use maestro_cms.Extract.Io.{decompressed_too_large, Reader, Context, bounded_read}
use maestro_cms.Extract.Defs.{Cause, malformed_source, context_done, Result, ok, err}

-- What `f.Open()` returns.
pub data Opened (P : Type 0) : Type 0 where
  opened : P → Opened P
  open_failed : ℕ → Opened P

-- `zip.File`
pub record ZipFile (P : Type 0) : Type 0 where
  pub name : Bytes
  pub open_part : Opened P

-- What `zip.NewReader` returns: the files, in the archive's order.
pub data Archive (P : Type 0) : Type 0 where
  archive : List (ZipFile P) → Archive P
  not_zip : ℕ → Archive P

-- An `xml.Token`, by its local name.
pub data Token : Type 0 where
  start_element end_element char_data : Bytes → Token
  other_token : Token

pub data TokenResult : Type 0 where
  token : Token → TokenResult
  at_eof : TokenResult
  token_failed : Cause → TokenResult

-- `xml.Decoder`: its state behind `xml.NewDecoder`, and `Token`.
pub record Decoder (P : Type 0) : Type 1 where
  pub State : Type 0
  pub new_decoder : State
  pub next_token : Reader (P × ℤ) → State → P × ℤ → TokenResult × State × (P × ℤ)

-- `cappedReader.Read`, of both packages.
unfoldable pub capped_read : {P : Type 0} → Reader P → Reader (P × ℤ)
unfolding bounded_read
capped_read r = bounded_read decompressed_too_large r

-- `DefaultMaxDecompressedBytes` and `maxDecompressed`, of both packages.
unfoldable pub max_decompressed : ℤ → ℕ
max_decompressed (negsuc n) = 67108864
max_decompressed (pos zero) = 67108864
max_decompressed (pos (suc n)) = suc n

-- The switch on a token: `inText` behind it, and what it writes.
abbrev pub in_text_after : Bool → Token → Bool
in_text_after in_text (start_element name) = if bytes_eq name (b't' ∷ []) then true else in_text
in_text_after in_text (end_element name) = if bytes_eq name (b't' ∷ []) then false else in_text
in_text_after in_text (char_data text) = in_text
in_text_after in_text other_token = in_text

abbrev pub written : Bool → Token → Bytes
written in_text (start_element name) = []
written in_text (end_element name) = if bytes_eq name (b'p' ∷ []) then b'\n' ∷ b'\n' ∷ [] else []
written in_text (char_data text) = if in_text then text else []
written in_text other_token = []

-- What the loop returns, with what it wrote before.
abbrev pub behind_text :
    {W : Type 0} → Bytes → Option (Result Bytes × W × ℤ) → Option (Result Bytes × W × ℤ)
behind_text b none = none
behind_text b (some (err e, w, z)) = some (err e, w, z)
behind_text b (some (ok text, w, z)) = some (ok (b ++ text), w, z)

module _ {W P : Type 0} where
  -- The loop of `decodeBodyText` and `decode`, on fuel, since a part may yield tokens for ever; `ℤ` is
  -- what is left of the budget.
  unfoldable pub decode_loop :
      (dec : Decoder P)
      → Reader P
      → Bytes
      → Context W
      → ℕ
      → Bool
      → dec.State
      → W
      → P × ℤ
      → Option (Result Bytes × W × ℤ)
  decode_loop dec part_read mt ctx zero in_text d w s = none
  decode_loop dec part_read mt ctx (suc f) in_text d w s =
      let (c, w') = ctx w in
      let (result, d', s') = dec.next_token (capped_read part_read) d s in
      elim c [
        | some e ↦ some (err (context_done e), w', s.1)
        | none ↦ elim result [
          | at_eof ↦ some (ok [], w', s'.1)
          | token_failed cause ↦ some (err (malformed_source mt cause), w', s'.1)
          | token t ↦
              behind_text (written in_text t)
                (decode_loop dec part_read mt ctx f (in_text_after in_text t) d' w' s')
        ]
      ]
