-- ===== src/Content/Laws.antt =====
-- What the clones share with their originals, and when validation passes.
use maestro_cms.Prelude.{
  ℕ, ◌≡◌, ◌≢◌, ◌↔◌, refl, ap, ◌∙◌, false, Option, none, some, [], ◌∷◌, arith, length, get_or,
}
use maestro_cms.Text.{Bytes, bytes_eq}
use maestro_cms.Content.Sharing.{
  StoreHandle, Labels, Heap, labels_at, handle_at, clone_map, write_labels, write_handle,
  IsAllocated, get_or-append, get_or-append_last, get_or-set_at,
}
use maestro_cms.Content.{Source, Artifact, source_clone, source_validate, artifact_validate}

-- A copy of a reference: it reads as the original did, the original reads as before, and a write
-- through the copy does not change what the original reads.
pub record IsIndependent (original copy : Option ℕ) (h h' : Heap) : Type 0 where
  pub same : labels_at copy h' ≡ labels_at original h
  pub kept : labels_at original h' ≡ labels_at original h
  pub apart : (m : Labels) → labels_at original (write_labels copy m h') ≡ labels_at original h

-- The heap may have changed its handles since.
clone_map-IsIndependent :
    (r : Option ℕ) (h h' : Heap)
    → IsAllocated r (length h.maps)
    → h'.maps ≡ (clone_map r h).1.maps
    → IsIndependent r (clone_map r h).0 h h'
unfolding clone_map
clone_map-IsIndependent none h h' a e = record { same = refl; kept = refl; apart = λ m. refl }
clone_map-IsIndependent (some r) h h' a e =
    let kept : get_or h'.maps r [] ≡ get_or h.maps r [] =
      ap (λ l. get_or l r []) e ∙ get_or-append h.maps _ r [] a in
    record {
      same = ap some (
          ap (λ l. get_or l (length h.maps) []) e
          ∙ get_or-append_last h.maps (get_or h.maps r []) []);
      kept = ap some kept;
      apart = λ m. ap some (get_or-set_at h'.maps (length h.maps) r m [] a ∙ kept);
    }

-- A clone of a source whose metadata is allocated has the same labels and fields; the source keeps its
-- labels, also when the clone's are written.
source_clone-IsIndependent :
    (s : Source) (h : Heap)
    → IsAllocated s.metadata (length h.maps)
    → IsIndependent s.metadata (source_clone s h).0.metadata h (source_clone s h).1
      × ((source_clone s h).0 ≡ record s { metadata = (source_clone s h).0.metadata })
unfolding source_clone
source_clone-IsIndependent s h a = (clone_map-IsIndependent s.metadata h _ a refl, refl)

-- The same of a reference to a handle.
pub record IsOwnHandle (original copy : Option ℕ) (h h' : Heap) : Type 0 where
  pub same : handle_at copy h' ≡ handle_at original h
  pub kept : handle_at original h' ≡ handle_at original h
  pub apart : (b : StoreHandle) → handle_at original (write_handle copy b h') ≡ handle_at original h

present : (b : Bytes) → (bytes_eq b [] ≡ false) ↔ (b ≢ [])
unfolding bytes_eq
present [] = (λ e. absurd (cc), λ ne. absurd (ne refl))
present (x ∷ b) = (λ e same. absurd (omega (arith, ap length same)), λ ne. refl)

-- A source passes validation exactly if it has an id and a media type.
pub source_validate_iff :
    (s : Source) → (source_validate s ≡ none) ↔ ((s.id ≢ []) × (s.media_type ≢ []))
unfolding source_validate
source_validate_iff s = ground (arith, present s.id, present s.media_type)

-- An artifact passes validation exactly if it has an id, a media type and a parent.
artifact_validate_iff :
    (a : Artifact)
    → (artifact_validate a ≡ none) ↔ ((a.id ≢ []) × (a.media_type ≢ []) × (a.derived_from ≢ []))
unfolding artifact_validate
artifact_validate_iff a = ground (arith, present a.id, present a.media_type, present a.derived_from)
