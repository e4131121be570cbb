-- ===== src/Store/Defs.antt =====
-- store/store.go: the errors, the object store that a caller takes, and the listed object.
use maestro_cms.Prelude.{ℕ, ◌≡◌, ◌≢◌, Bool, Option, none, some}
use maestro_cms.Prelude.Int.{ℤ}
use maestro_cms.Text.{Bytes}

-- `MaxComposeSources`
abbrev pub max_compose_sources : ℕ
max_compose_sources = 32

-- `ErrObjectNotFound`, `ErrRangeNotSatisfiable`, the messages that match neither, `io` errors, and what
-- a service failed with.
pub data StoreError : Type 0 where
  object_not_found range_not_satisfiable : StoreError
  negative_offset : ℤ → StoreError
  source_count : ℕ → StoreError
  read_failed backend_failed : StoreError

pub data Result {ℓ} (A : Type ℓ) : Type ℓ where
  ok : A → Result A
  err : StoreError → Result A

pub record ObjectInfo (Time : Type 0) : Type 0 where
  pub key : Bytes
  pub size : ℕ
  pub created : Time

-- `ObjectStore`. A reader that `Get` returns is its bytes, and one that `Put` takes is what reading it
-- to the end comes to.
pub record ObjectStore : Type 1 where
  pub State : Type 0
  pub get : Bytes → State → Result Bytes
  pub put : Bytes → Result Bytes → State → Option StoreError × State
  pub delete : Bytes → State → Option StoreError × State
  pub exists : Bytes → State → Bool

-- What the comments of `ObjectStore` promise of `Get`, `Put` and `Delete`.
module _ (store : ObjectStore) where
  open store use {State, get, put, delete}

  pub record IsLawful : Type 0 where
    pub put_ok : (k bytes : Bytes) (s : State) → (put k (ok bytes) s).0 ≡ none
    pub get_put : (k bytes : Bytes) (s : State) → get k (put k (ok bytes) s).1 ≡ ok bytes
    pub get_put_other :
        (k other bytes : Bytes) (s : State)
        → k ≢ other
        → get other (put k (ok bytes) s).1 ≡ get other s
    pub delete_missing :
        (k : Bytes) (s : State)
        → get k s ≡ err object_not_found
        → delete k s ≡ (some object_not_found, s)
    pub delete_present : (k bytes : Bytes) (s : State) → get k s ≡ ok bytes → (delete k s).0 ≡ none
    pub get_delete :
        (k : Bytes) (s : State)
        → (delete k s).0 ≡ none
        → get k (delete k s).1 ≡ err object_not_found
    pub get_delete_other :
        (k other : Bytes) (s : State) → k ≢ other → get other (delete k s).1 ≡ get other s
    pub get_total :
        (k : Bytes) (s : State) (e : StoreError) → get k s ≡ err e → e ≡ object_not_found
