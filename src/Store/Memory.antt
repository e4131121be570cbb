-- ===== src/Store/Memory.antt =====
-- testcms/memorystore.go: `MemoryStore`. Each method holds the lock from its first look at the map, so
-- a method is one step on the map; `put` reads its source before it locks, and the bytes are its
-- argument. The clock `Now` is an argument of the methods that call it.
pub mod Keys
pub mod Listing
pub mod Laws
pub mod Ranges
use maestro_cms.Prelude.{
  ℕ, zero, ◌+◌, ◌-◌, Bool, true, false, ◌||◌, not, Option, none, some, List, [], ◌∷◌, ◌++◌, map,
  ltb, leb, ◌==◌, if◌then◌else◌, length, slice,
}
use maestro_cms.Prelude.Int.{ℤ, pos, negsuc}
use maestro_cms.Text.{Bytes, bytes_eq}
use maestro_cms.Store.Defs.{
  StoreError, object_not_found, range_not_satisfiable, negative_offset, source_count, read_failed,
  Result, ok, err, ObjectInfo, max_compose_sources,
}

-- `strings.HasPrefix`
unfoldable pub has_prefix : Bytes → Bytes → Bool
has_prefix s [] = true
has_prefix [] (p ∷ prefix) = false
has_prefix (b ∷ s) (p ∷ prefix) = if b == p then has_prefix s prefix else false

-- `a < b` on strings
unfoldable pub bytes_lt : Bytes → Bytes → Bool
bytes_lt a [] = false
bytes_lt [] (y ∷ b) = true
bytes_lt (x ∷ a) (y ∷ b) =
    let rest = bytes_lt a b in if ltb x y then true else if x == y then rest else false

-- The end of the range that starts at `offset` in an object of `size` bytes.
unfoldable pub range_end : ℕ → ℕ → ℤ → ℕ
range_end size offset (negsuc n) = size
range_end size offset (pos length) = if ltb length (size - offset) then offset + length else size

module _ (Time : Type 0) where
  pub record MemObject : Type 0 where
    pub data_bytes : Bytes
    pub created : Time

  -- `objects`, a map with one entry for each key.
  abbrev pub Objects : Type 0
  Objects = List (Bytes × MemObject)

  -- `NewMemoryStore`
  abbrev pub empty_store : Objects
  empty_store = []

  -- `s.objects[key]`
  unfoldable pub object_at : Bytes → Objects → Option MemObject
  object_at key [] = none
  object_at key ((k, o) ∷ objects) =
      let later = object_at key objects in if bytes_eq k key then some o else later

  -- `delete(s.objects, key)`
  unfoldable pub remove_key : Bytes → Objects → Objects
  remove_key key [] = []
  remove_key key ((k, o) ∷ objects) =
      let rest = remove_key key objects in if bytes_eq k key then rest else (k, o) ∷ rest

  -- `s.objects[key] = o`
  unfoldable pub set_key : Bytes → MemObject → Objects → Objects
  unfolding remove_key
  set_key key o objects = (key, o) ∷ remove_key key objects

  unfoldable pub get : Bytes → Objects → Result Bytes
  get key objects = elim (object_at key objects) [
    | none ↦ err object_not_found
    | some o ↦ ok o.data_bytes
  ]

  unfoldable pub range_of : ℕ → ℤ → MemObject → Result Bytes
  unfolding range_end
  range_of offset length_wanted o =
      let b = o.data_bytes in
      if leb (length b) offset
      then err range_not_satisfiable
      else ok (slice b offset (range_end (length b) offset length_wanted))

  unfoldable pub get_range : Bytes → ℤ → ℤ → Objects → Result Bytes
  get_range key (negsuc n) length_wanted objects = err (negative_offset (negsuc n))
  get_range key (pos offset) length_wanted objects = elim (object_at key objects) [
    | none ↦ err object_not_found
    | some o ↦ range_of offset length_wanted o
  ]

  unfoldable pub put : Time → Bytes → Result Bytes → Objects → Option StoreError × Objects
  put now key (err e) objects = (some e, objects)
  put now key (ok b) objects =
      (none, set_key key (record { data_bytes = b; created = now }) objects)

  -- The loop of `Compose`, with its variable `out`.
  unfoldable pub join_sources : List Bytes → Bytes → Objects → Option Bytes
  join_sources [] out objects = some out
  join_sources (k ∷ srcs) out objects = elim (object_at k objects) [
    | none ↦ none
    | some o ↦ join_sources srcs (out ++ o.data_bytes) objects
  ]

  unfoldable pub compose : Time → Bytes → List Bytes → Objects → Option StoreError × Objects
  compose now dst srcs objects =
      let joined = join_sources srcs [] objects in
      if length srcs == 0 || ltb max_compose_sources (length srcs)
      then (some (source_count (length srcs)), objects)
      else elim joined [
        | none ↦ (some object_not_found, objects)
        | some out ↦ (none, set_key dst (record { data_bytes = out; created = now }) objects)
      ]

  unfoldable pub delete : Bytes → Objects → Option StoreError × Objects
  delete key objects = elim (object_at key objects) [
    | none ↦ (some object_not_found, objects)
    | some o ↦ (none, remove_key key objects)
  ]

  unfoldable pub exists : Bytes → Objects → Bool
  exists key objects = elim (object_at key objects) [ none ↦ false | some o ↦ true ]

  -- The loop of `List` that fills `infos`.
  unfoldable pub infos_with : Bytes → Objects → List (ObjectInfo Time)
  infos_with prefix [] = []
  infos_with prefix ((k, o) ∷ objects) =
      let rest = infos_with prefix objects in
      if has_prefix k prefix
      then (record { key = k; size = length o.data_bytes; created = o.created }) ∷ rest
      else rest

  -- `sort.Slice` by key; the keys differ, so there is one ascending order.
  unfoldable pub insert_info : ObjectInfo Time → List (ObjectInfo Time) → List (ObjectInfo Time)
  insert_info x [] = x ∷ []
  insert_info x (y ∷ ys) =
      let on = y ∷ insert_info x ys in if bytes_lt x.key y.key then x ∷ y ∷ ys else on

  unfoldable pub sort_infos : List (ObjectInfo Time) → List (ObjectInfo Time)
  unfolding insert_info
  sort_infos [] = []
  sort_infos (x ∷ xs) = insert_info x (sort_infos xs)

  -- The calls of `fn`, which has a state of its own; the first error ends them.
  unfoldable pub call_each {ℓ} :
      {S E : Type ℓ}
      → (ObjectInfo Time → S → Option E × S)
      → List (ObjectInfo Time)
      → S
      → Option E × S
  call_each fn [] s = (none, s)
  call_each fn (info ∷ infos) s =
      let (error, s') = fn info s in
      let on = call_each fn infos s' in elim error [ none ↦ on | some e ↦ (some e, s') ]

  -- `List`: the snapshot is taken before the first call.
  unfoldable pub list {ℓ} :
      {S E : Type ℓ} → Bytes → (ObjectInfo Time → S → Option E × S) → Objects → S → Option E × S
  list prefix fn objects s = call_each fn (sort_infos (infos_with prefix objects)) s
