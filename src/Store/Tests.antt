-- ===== src/Store/Tests.antt =====
-- The object store's theorems at concrete inputs. Times are numbers.
use mathlib.Core.List.{Perm}
use maestro_cms.Prelude.{
  ℕ, ◌≡◌, ◌≢◌, refl, ap, none, List, [], ◌∷◌, ◌++◌, arith, drop, leb, if◌then◌else◌,
}
use maestro_cms.Prelude.Int.{pos, negsuc}
use maestro_cms.Text.{Bytes, codes, byte_at, bytes_eq}
use maestro_cms.Store.Defs.{object_not_found, range_not_satisfiable, ok, err, ObjectInfo, IsLawful}
use maestro_cms.Store.Helpers.{delete_if_exists}
use maestro_cms.Store.Helpers.Laws.{delete_if_exists_lem}
use maestro_cms.Store.Memory.{Objects, object_at, get, get_range, compose, list}
use maestro_cms.Store.Memory.Laws.{
  memory_store, memory_store-IsLawful, Composes, joined, compose_lem,
}
use maestro_cms.Store.Memory.Ranges.{part_of, get_range_lem, get_range-split}
use maestro_cms.Store.Memory.Listing.{IsAscending, note, under, list_lem}

abbrev objects : Objects ℕ
objects =
    (codes "b/2", record { data_bytes = codes "world"; created = 2 })
    ∷ (codes "b/1", record { data_bytes = codes "hello"; created = 1 })
    ∷ []

abbrev key : Bytes
key = codes "b/1"

abbrev other_key : Bytes
other_key = codes "b/2"

keys_differ : key ≢ other_key
keys_differ e =
    let last : byte_at key 2 ≡ byte_at other_key 2 = ap (λ k. byte_at k 2) e in
    absurd (omega (arith, last))

reads_hello : get ℕ key objects ≡ ok (codes "hello")
unfolding get object_at bytes_eq
reads_hello = refl

memory_store-IsLawful_example : IsLawful (memory_store ℕ 5)
memory_store-IsLawful_example = memory_store-IsLawful ℕ 5

delete_if_exists_lem_example :
    ((delete_if_exists (memory_store ℕ 5) key objects).0 ≡ none)
    × (get ℕ key (delete_if_exists (memory_store ℕ 5) key objects).1 ≡ err object_not_found)
    × (get ℕ other_key (delete_if_exists (memory_store ℕ 5) key objects).1
        ≡ get ℕ other_key objects)
delete_if_exists_lem_example =
    delete_if_exists_lem (memory_store ℕ 5) (memory_store-IsLawful ℕ 5) key other_key objects
      keys_differ

compose_lem_example :
    Composes ℕ 5 key objects
      (joined ℕ 5 (key ∷ other_key ∷ []) objects)
      (compose ℕ 5 key (key ∷ other_key ∷ []) objects)
compose_lem_example = compose_lem ℕ 5 key (key ∷ other_key ∷ []) objects (omega arith) (omega arith)

get_range_lem_example :
    get_range ℕ key (pos 1) (pos 3) objects
    ≡ (if leb 5 1 then err range_not_satisfiable else ok (part_of 1 (pos 3) (codes "hello")))
get_range_lem_example = get_range_lem ℕ key (codes "hello") 1 (pos 3) objects reads_hello

get_range-split_example :
    (first rest : Bytes) × (get_range ℕ key (pos 1) (pos 2) objects ≡ ok first)
    × (get_range ℕ key (pos 3) (negsuc 0) objects ≡ ok rest)
    × (drop 1 (codes "hello") ≡ first ++ rest)
get_range-split_example =
    get_range-split ℕ key (codes "hello") 1 2 objects reads_hello (omega arith)

list_lem_example :
    (infos : List (ObjectInfo ℕ)) × (list ℕ (codes "b/") (note ℕ {E = ℕ}) objects []
      ≡ (none, infos))
    × IsAscending ℕ infos
    × Perm infos (under ℕ (codes "b/") objects)
list_lem_example = list_lem ℕ {E = ℕ} (codes "b/") objects
