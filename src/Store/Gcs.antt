-- ===== src/Store/Gcs.antt =====
-- store/gcs/gcs.go: the adapter of Google Cloud Storage. The SDK's client at a bucket is the parameter
-- `Client`: what its calls return, and the objects it keeps. The context of the calls is the client's.
pub mod Refine
pub mod Sessions
mod Tests
use maestro_cms.Prelude.{
  ℕ, ◌-◌, Bool, true, false, ◌||◌, not, Option, none, some, List, [], ◌∷◌, ltb, leb, ◌==◌,
  if◌then◌else◌, length,
}
use maestro_cms.Prelude.Int.{ℤ, pos, negsuc, max_int64}
use maestro_cms.Text.{Bytes, bytes_eq}
use maestro_cms.Store.Defs.{
  StoreError, object_not_found, range_not_satisfiable, negative_offset, source_count,
  backend_failed, Result, ok, err, ObjectInfo, max_compose_sources,
}

-- What the code asks of an error of the SDK: whether it is `storage.ErrObjectNotExist`, and the code
-- of the `googleapi.Error` in its chain.
pub record SdkError : Type 0 where
  pub is_not_exist : Bool
  pub code : Option ℕ

pub data SdkResult {ℓ} (A : Type ℓ) : Type ℓ where
  sdk_ok : A → SdkResult A
  sdk_err : SdkError → SdkResult A

-- The SDK's calls. A reader is the bytes that it yields, with the recorded size for a range reader; a
-- `Writer` is an `Upload`, `copy` is `io.Copy` into it, and `cancel` cancels its context. An iterator is
-- the objects that `Next` yields before the error that ends it, where `none` is `iterator.Done`.
pub record Client (Time : Type 0) : Type 1 where
  pub State : Type 0
  pub Upload : Type 0
  pub new_reader : Bytes → State → SdkResult Bytes
  pub new_range_reader : Bytes → ℕ → ℤ → State → SdkResult (Bytes × ℕ)
  pub new_writer : Bytes → Upload
  pub copy : Upload → Result Bytes → Option SdkError × Upload
  pub cancel : Upload → Upload
  pub close_upload : Upload → State → Option SdkError × State
  pub delete_object : Bytes → State → Option SdkError × State
  pub attrs : Bytes → State → Option SdkError
  pub run_composer : Bytes → List Bytes → Bytes → State → Option SdkError × State
  pub objects : Bytes → State → List (ObjectInfo Time) × Option SdkError
  pub close_client : State → Option SdkError × State

-- `errors.As(err, &gerr) && gerr.Code == code`
abbrev pub has_code : ℕ → SdkError → Bool
has_code code e = elim e.code [ none ↦ false | some c ↦ c == code ]

-- The errors of `Get`, `Delete` and, behind its tests, `Exists`.
unfoldable pub missing_or_failed : SdkError → StoreError
missing_or_failed e = if e.is_not_exist then object_not_found else backend_failed

-- The length that the client is asked for.
unfoldable pub asked_length : ℕ → ℤ → ℤ
asked_length offset (negsuc n) = negsuc n
asked_length offset (pos n) = if ltb (max_int64 - offset) n then negsuc 0 else pos n

unfoldable pub range_error : SdkError → StoreError
range_error e =
    if e.is_not_exist
    then object_not_found
    else if has_code 416 e
    then range_not_satisfiable
    else backend_failed

unfoldable pub compose_error : SdkError → StoreError
compose_error e =
    if e.is_not_exist
    then object_not_found
    else if has_code 404 e
    then object_not_found
    else backend_failed

module _ (Time : Type 0) (client : Client Time) where
  open client use {State}

  unfoldable pub get : Bytes → State → Result Bytes
  get key s = elim (client.new_reader key s) [
    | sdk_err e ↦ err (missing_or_failed e)
    | sdk_ok rc ↦ ok rc
  ]

  unfoldable pub get_range : Bytes → ℤ → ℤ → State → Result Bytes
  get_range key (negsuc n) wanted s = err (negative_offset (negsuc n))
  get_range key (pos offset) wanted s =
      elim (client.new_range_reader key offset (asked_length offset wanted) s) [
        | sdk_err e ↦ err (range_error e)
        | sdk_ok (rc, size) ↦ if leb size offset then err range_not_satisfiable else ok rc
      ]

  unfoldable pub put : Bytes → Result Bytes → State → Option StoreError × State
  put key r s =
      let (copy_error, w) = client.copy (client.new_writer key) r in
      let (aborted, s_aborted) = client.close_upload (client.cancel w) s in
      let (close_error, s_closed) = client.close_upload w s in
      elim copy_error [
        | some e ↦ (some backend_failed, s_aborted)
        | none ↦ elim close_error [
          | some e ↦ (some backend_failed, s_closed)
          | none ↦ (none, s_closed)
        ]
      ]

  unfoldable pub delete : Bytes → State → Option StoreError × State
  delete key s =
      let (e, s') = client.delete_object key s in
      elim e [ none ↦ (none, s') | some error ↦ (some (missing_or_failed error), s') ]

  -- `Exists`, with its error.
  unfoldable pub exists : Bytes → State → Result Bool
  exists key s = elim (client.attrs key s) [
    | none ↦ ok true
    | some e ↦ if e.is_not_exist then ok false else err backend_failed
  ]

  unfoldable pub compose : Bytes → List Bytes → Bytes → State → Option StoreError × State
  compose dst srcs content_type s =
      let (e, s') = client.run_composer dst srcs content_type s in
      if length srcs == 0 || ltb max_compose_sources (length srcs)
      then (some (source_count (length srcs)), s)
      else elim e [ none ↦ (none, s') | some error ↦ (some (compose_error error), s') ]

  -- What ends `List`: an error of `fn`, or one of the listing.
  pub data ListError (E : Type 0) : Type 0 where
    from_fn : E → ListError E
    from_listing : ListError E

  -- The loop of `List`, over what `it.Next()` yields; `fn` has a state of its own.
  unfoldable pub list_loop :
      {S E : Type 0}
      → (ObjectInfo Time → S → Option E × S)
      → List (ObjectInfo Time)
      → Option SdkError
      → S
      → Option (ListError E) × S
  list_loop fn [] none acc = (none, acc)
  list_loop fn [] (some e) acc = (some from_listing, acc)
  list_loop fn (info ∷ infos) end acc =
      let (error, acc') = fn info acc in
      let on = list_loop fn infos end acc' in
      elim error [ none ↦ on | some e ↦ (some (from_fn e), acc') ]

  unfoldable pub list :
      {S E : Type 0}
      → Bytes
      → (ObjectInfo Time → S → Option E × S)
      → State
      → S
      → Option (ListError E) × S
  list prefix fn s acc = let (infos, end) = client.objects prefix s in list_loop fn infos end acc

  -- `Store`; the client of the SDK may be nil.
  pub record GcsStore : Type 0 where
    pub has_client : Bool
    pub bucket : Bytes
    pub owns_client : Bool

  -- `NewWithClient`; `none` is its panics.
  unfoldable pub new_with_client : Bytes → Bool → Option GcsStore
  new_with_client bucket client_given =
      if bytes_eq bucket []
      then none
      else if not client_given
      then none
      else some (record { has_client = client_given; bucket = bucket; owns_client = false })

  -- `New`; the argument is what `storage.NewClient` returns.
  pub data OpenError : Type 0 where
    empty_bucket empty_endpoint client_failed : OpenError

  pub data Opened : Type 0 where
    opened : GcsStore → Opened
    not_opened : OpenError → Opened

  unfoldable pub new_store : Option SdkError → Bytes → Opened
  new_store client_error bucket =
      if bytes_eq bucket [] then not_opened empty_bucket else elim client_error [
        | some e ↦ not_opened client_failed
        | none ↦ opened (record { has_client = true; bucket = bucket; owns_client = true })
      ]

  unfoldable pub new_emulator : Option SdkError → Bytes → Bytes → Opened
  unfolding new_store
  new_emulator client_error bucket endpoint =
      if bytes_eq endpoint [] then not_opened empty_endpoint else new_store client_error bucket

  unfoldable pub close : GcsStore → State → Option StoreError × State
  close store s =
      let (e, s') = client.close_client s in
      if not store.owns_client || not store.has_client
      then (none, s)
      else elim e [ none ↦ (none, s') | some error ↦ (some backend_failed, s') ]
