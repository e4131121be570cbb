-- ===== src/Extract/Plain.antt =====
-- extract/text.go: the plain-text extractor.
pub mod Total
use maestro_cms.Prelude.{Bool, true, false, not, List, [], ◌∷◌, if◌then◌else◌}
use maestro_cms.Text.{Bytes, bytes_eq}
use maestro_cms.Text.Utf8.Valid.{valid_string, to_valid_utf8}
use maestro_cms.Extract.Io.{Reader}
use maestro_cms.Extract.Defs.{
  no_content, Action, pure, raise, ◌>>=◌, Artifact, text_artifact, Env, read_all,
}
use maestro_cms.Extract.Normalize.{normalize_whitespace}

-- U+FFFD
abbrev pub replacement : Bytes
replacement = 0xEF ∷ 0xBF ∷ 0xBD ∷ []

-- The source as valid UTF-8.
unfoldable pub coerced : Bytes → Bytes
coerced s = if not (valid_string s) then to_valid_utf8 s replacement else s

module _ {W : Type 0} where
  unfoldable pub extract_text : Env W → Reader W → Bytes → Action W (List Artifact)
  extract_text env r parent_id = do
    bytes ← read_all env r
    let normalized = normalize_whitespace (coerced bytes)
    if bytes_eq normalized []
        then raise no_content
        else pure (text_artifact parent_id normalized ∷ [])
