-- ===== src/Store/Helpers.antt =====
-- store/helpers.go: `IsNotFound` and `DeleteIfExists`.
pub mod Laws
use maestro_cms.Prelude.{Bool, true, false, not, Option, none, some, if◌then◌else◌}
use maestro_cms.Text.{Bytes}
use maestro_cms.Store.Defs.{
  StoreError, object_not_found, range_not_satisfiable, negative_offset, source_count, read_failed,
  backend_failed, ObjectStore,
}

unfoldable pub is_not_found : StoreError → Bool
is_not_found object_not_found = true
is_not_found range_not_satisfiable = false
is_not_found (negative_offset n) = false
is_not_found (source_count n) = false
is_not_found read_failed = false
is_not_found backend_failed = false

module _ (store : ObjectStore) where
  open store use {State, delete}

  unfoldable pub delete_if_exists : Bytes → State → Option StoreError × State
  delete_if_exists key s =
      let (error, s') = delete key s in
      elim error [
        | none ↦ (none, s')
        | some e ↦ (if not (is_not_found e) then some e else none, s')
      ]
