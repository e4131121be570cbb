-- ===== src/Store/Helpers/Laws.antt =====
-- `DeleteIfExists` on a lawful store.
use maestro_cms.Prelude.{◌≡◌, ◌≢◌, refl, ap, ◌∙◌, none, arith}
use maestro_cms.Text.{Bytes}
use maestro_cms.Store.Defs.{ok, err, Result, object_not_found, ObjectStore, IsLawful}
use maestro_cms.Store.Helpers.{is_not_found, delete_if_exists}

module _ (store : ObjectStore) (laws : IsLawful store) where
  open store use {State, get, delete}

  gone :
      (key : Bytes) (s : State) (r : Result Bytes)
      → get key s ≡ r
      → (delete_if_exists store key s).0 ≡ none
        × (get key (delete_if_exists store key s).1 ≡ err object_not_found)
  unfolding delete_if_exists is_not_found
  gone key s (ok bytes) e =
      let success = laws.delete_present key bytes s e in
      rw (success, delete_if_exists) (refl, laws.get_delete key s success)
  gone key s (err error) e =
      let missing : get key s ≡ err object_not_found = e ∙ ap err (laws.get_total key s error e) in
      rw (laws.delete_missing key s missing, delete_if_exists, is_not_found)
        (refl, rw (laws.delete_missing key s missing) missing)

  -- `DeleteIfExists` returns no error whether the key is there or not; afterwards the key is absent,
  -- and every other key reads as before.
  pub delete_if_exists_lem :
      (key other : Bytes) (s : State)
      → key ≢ other
      → ((delete_if_exists store key s).0 ≡ none)
        × (get key (delete_if_exists store key s).1 ≡ err object_not_found)
        × (get other (delete_if_exists store key s).1 ≡ get other s)
  delete_if_exists_lem key other s ne =
      let is = gone key s (get key s) refl in
      (is.0, is.1, unfold delete_if_exists in ground (arith, laws.get_delete_other key other s ne))
