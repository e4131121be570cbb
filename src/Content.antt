-- ===== src/Content.antt =====
-- content/content.go: sources and artifacts with their clones and validation. A Go map is shared by
-- the values that hold it, and so is what a pointer leads to; the heap keeps both.
pub mod Sharing
pub mod Laws
pub mod Hash
mod Tests
use maestro_cms.Prelude.{ℕ, Bool, true, false, Option, none, some, List, [], if◌then◌else◌}
use maestro_cms.Text.{Bytes, bytes_eq}
use maestro_cms.Content.Sharing.{StoreHandle, Heap, clone_map, clone_handle}

pub record Source : Type 0 where
  pub id : Bytes
  pub media_type : Bytes
  pub hash : Bytes
  pub raw : StoreHandle
  pub metadata : Option ℕ

pub record Artifact : Type 0 where
  pub id : Bytes
  pub media_type : Bytes
  pub derived_from : Bytes
  pub text : Bytes
  pub blob : Option ℕ
  pub metadata : Option ℕ

unfoldable pub source_clone : Source → Heap → Source × Heap
source_clone s h = let (m, h') = clone_map s.metadata h in (record s { metadata = m }, h')

unfoldable pub artifact_clone : Artifact → Heap → Artifact × Heap
artifact_clone a h =
    let (m, h') = clone_map a.metadata h in
    let (b, h'') = clone_handle a.blob h' in (record a { metadata = m; blob = b }, h'')

pub data ContentError : Type 0 where
  missing_id missing_media_type missing_parent : ContentError

-- `none` is nil.
unfoldable pub source_validate : Source → Option ContentError
source_validate s =
    if bytes_eq s.id []
    then some missing_id
    else if bytes_eq s.media_type []
    then some missing_media_type
    else none

unfoldable pub artifact_validate : Artifact → Option ContentError
artifact_validate a =
    if bytes_eq a.id []
    then some missing_id
    else if bytes_eq a.media_type []
    then some missing_media_type
    else if bytes_eq a.derived_from []
    then some missing_parent
    else none
