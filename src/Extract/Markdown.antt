-- ===== src/Extract/Markdown.antt =====
-- extract/markdown/markdown.go: the Markdown extractor and its front matter.
pub mod FrontMatter
use maestro_cms.Prelude.{
  ℕ, zero, suc, Bool, true, false, ◌||◌, not, Option, none, some, List, [], ◌∷◌, ◌==◌,
  if◌then◌else◌, length, take, drop,
}
use maestro_cms.Text.{Bytes, bytes_eq, codes, index_byte}
use maestro_cms.Text.Trim.{trim_space}
use maestro_cms.Text.Utf8.Valid.{valid_string, to_valid_utf8}
use maestro_cms.Store.Memory.{has_prefix}
use maestro_cms.Extract.Io.{Reader}
use maestro_cms.Extract.Defs.{no_content, Action, pure, raise, ◌>>=◌, Artifact, Env, read_all}
use maestro_cms.Extract.Plain.{coerced}

-- `MediaType`
abbrev pub media_type : Bytes
media_type = codes "text/markdown"

-- U+FEFF
abbrev pub byte_order_mark : Bytes
byte_order_mark = 0xEF ∷ 0xBB ∷ 0xBF ∷ []

-- `strings.TrimPrefix`
unfoldable pub trim_prefix : Bytes → Bytes → Bytes
trim_prefix s prefix = if has_prefix s prefix then drop (length prefix) s else s

-- `strings.TrimRight(s, " \t\r")`
unfoldable pub trim_blanks : Bytes → Bytes
trim_blanks [] = []
trim_blanks (c ∷ s) = elim (trim_blanks s) [
  | [] ↦ if c == b' ' || (c == b'\t' || c == b'\r') then [] else c ∷ []
  | d ∷ rest ↦ c ∷ d ∷ rest
]

abbrev pub is_delimiter : Bytes → Bytes → Bool
is_delimiter delim line = bytes_eq (trim_blanks line) delim

-- The loop over the lines behind the opening one: the body, or none where no line closes the block.
unfoldable pub body_after : Bytes → ℕ → Bytes → Option Bytes
body_after delim zero rest = none
body_after delim (suc fuel) rest = elim (index_byte b'\n' rest) [
  | none ↦ if is_delimiter delim rest then some [] else none
  | some n ↦
      let later = body_after delim fuel (drop (suc n) rest) in
      if is_delimiter delim (take n rest) then some (drop (suc n) rest) else later
]

-- The text behind the choice of `delim`.
unfoldable pub strip_block : Bytes → Bytes → Bytes
strip_block delim s = elim (index_byte b'\n' s) [
  | none ↦ s
  | some nl ↦
      let rest = drop (suc nl) s in
      let found : Bytes = elim (body_after delim (suc (length rest)) rest) [
        | none ↦ s
        | some body ↦ body
      ] in
      if is_delimiter delim (take nl s) then found else s
]

abbrev pub dashes : Bytes
dashes = codes "---"

abbrev pub pluses : Bytes
pluses = codes "+++"

unfoldable pub strip_front_matter : Bytes → Bytes
strip_front_matter s =
    if has_prefix s dashes
    then strip_block dashes s
    else if has_prefix s pluses
    then strip_block pluses s
    else s

abbrev pub markdown_artifact : Bytes → Bytes → Artifact
markdown_artifact parent_id text = record {
  id = [];
  media_type = media_type;
  derived_from = parent_id;
  text = text;
  blob = none;
  metadata = none;
}

-- `Extract`; the coercion to valid UTF-8 is the plain-text extractor's.
module _ {W : Type 0} where
  abbrev pub of_text : Bytes → Bytes → Action W (List Artifact)
  of_text parent_id text =
      if bytes_eq (trim_space text) []
      then raise no_content
      else pure (markdown_artifact parent_id text ∷ [])

  unfoldable pub extract_markdown : Env W → Reader W → Bytes → Action W (List Artifact)
  extract_markdown env r parent_id = do
    bytes ← read_all env r
    of_text parent_id (strip_front_matter (coerced (trim_prefix bytes byte_order_mark)))
