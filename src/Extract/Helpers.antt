-- ===== src/Extract/Helpers.antt =====
-- extract/helpers.go: `TextArtifacts` and `SingleTextArtifact`.
use maestro_cms.Prelude.{Bool, true, false, ◌&&◌, not, none, some, List, [], ◌∷◌, if◌then◌else◌}
use maestro_cms.Text.{bytes_eq}
use maestro_cms.Extract.Defs.{Artifact}

pub data SingleError : Type 0 where
  no_text_artifact multiple_text_artifacts : SingleError

pub data Single : Type 0 where
  single : Artifact → Single
  failed : SingleError → Single

abbrev pub has_no_blob : Artifact → Bool
has_no_blob a = elim a.blob [ none ↦ true | some b ↦ false ]

unfoldable pub text_artifacts : List Artifact → List Artifact
text_artifacts [] = []
text_artifacts (a ∷ artifacts) =
    let out = text_artifacts artifacts in
    if has_no_blob a && not (bytes_eq a.text []) then a ∷ out else out

abbrev pub only_one : List Artifact → Single
only_one [] = failed no_text_artifact
only_one (a ∷ []) = single a
only_one (a ∷ b ∷ artifacts) = failed multiple_text_artifacts

unfoldable pub single_text_artifact : List Artifact → Single
unfolding text_artifacts
single_text_artifact artifacts = only_one (text_artifacts artifacts)
