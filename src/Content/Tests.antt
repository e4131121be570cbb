-- ===== src/Content/Tests.antt =====
-- The content model's theorems at concrete inputs.
use maestro_cms.Prelude.{some, [], ◌∷◌}
use maestro_cms.Text.{codes}
use maestro_cms.Content.Sharing.{Heap}
use maestro_cms.Content.{Artifact}

abbrev heap : Heap
heap = record {
  maps = ((codes "lang", codes "en") ∷ []) ∷ [];
  handles = (record { backend = codes "gcs"; key = codes "k" }) ∷ [];
}

abbrev thumbnail : Artifact
thumbnail = record {
  id = codes "a";
  media_type = codes "image/png";
  derived_from = codes "s";
  text = [];
  blob = some 0;
  metadata = some 0;
}
