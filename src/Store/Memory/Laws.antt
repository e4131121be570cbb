-- ===== src/Store/Memory/Laws.antt =====
-- The in-memory store keeps what `ObjectStore` and `Composer` promise.
use mathlib.Core.List.{append_assoc, append-nil}
use maestro_cms.Prelude.{
  ◌≤◌, ◌<◌, ◌≡◌, ◌≢◌, refl, ap, sym, ◌∙◌, inl, inr, Option, none, some, List, [], ◌∷◌, ◌++◌, arith,
  length, Option-cases,
}
use maestro_cms.Text.{Bytes}
use maestro_cms.Store.Defs.{
  StoreError, object_not_found, Result, ok, err, ObjectStore, IsLawful, max_compose_sources,
}
use maestro_cms.Store.Memory.{Objects, object_at, get, put, delete, exists, join_sources, compose}
use maestro_cms.Store.Memory.Keys.{
  object_at-remove_key, object_at-remove_key_other, object_at-set_key, object_at-set_key_other,
}

module _ (Time : Type 0) (now : Time) where
  -- `MemoryStore` as an `ObjectStore`, at a reading of its clock.
  abbrev pub memory_store : ObjectStore
  memory_store = record {
    State = Objects Time;
    get = get Time;
    put = put Time now;
    delete = delete Time;
    exists = exists Time;
  }

  get_delete :
      (k : Bytes) (s : Objects Time)
      → (delete Time k s).0 ≡ none
      → get Time k (delete Time k s).1 ≡ err object_not_found
  unfolding get delete
  get_delete k s e = ground (arith, object_at-remove_key Time k s)

  get_delete_other :
      (k other : Bytes) (s : Objects Time)
      → k ≢ other
      → get Time other (delete Time k s).1 ≡ get Time other s
  unfolding get delete
  get_delete_other k other s ne = ground (arith, object_at-remove_key_other Time k other s ne)

  -- The in-memory store is a lawful object store: a key reads what was put there last and nothing
  -- after it was deleted, deleting a missing key is `ErrObjectNotFound` and changes nothing, and neither
  -- `Put` nor `Delete` changes what another key reads.
  pub memory_store-IsLawful : IsLawful memory_store
  unfolding get put delete
  memory_store-IsLawful = record {
    put_ok = λ k bytes s. refl;
    get_put = λ k bytes s.
        ground (arith, object_at-set_key Time k (record { data_bytes = bytes; created = now }) s);
    get_put_other = λ k other bytes s ne. ground (
      arith,
      object_at-set_key_other Time k other (record { data_bytes = bytes; created = now }) s ne,
    );
    delete_missing = λ k s e. ground arith;
    delete_present = λ k bytes s e. ground arith;
    get_delete = get_delete;
    get_delete_other = get_delete_other;
    get_total = λ k s error e. ground arith;
  }

  -- The bytes of the sources one after the other, if each of them is there.
  abbrev pub joined : List Bytes → Objects Time → Result Bytes
  joined [] s = ok []
  joined (k ∷ srcs) s =
      let rest = joined srcs s in
      elim (get Time k s) [
        | err e ↦ err e
        | ok bytes ↦ elim rest [ err e ↦ err e | ok more ↦ ok (bytes ++ more) ]
      ]

  -- What the loop of `Compose` comes to, for what `joined` comes to.
  abbrev pub JoinsTo : Bytes → Result Bytes → Option Bytes → Type 0
  JoinsTo out (ok bytes) r = r ≡ some (out ++ bytes)
  JoinsTo out (err e) r = (e ≡ object_not_found) × (r ≡ none)

  JoinsTo-following :
      (out bytes : Bytes) (r : Result Bytes) (r' : Option Bytes)
      → JoinsTo (out ++ bytes) r r'
      → JoinsTo out (elim r [ err e ↦ err e | ok more ↦ ok (bytes ++ more) ]) r'
  JoinsTo-following out bytes (ok more) r' h = h ∙ ap some (append_assoc out bytes more)
  JoinsTo-following out bytes (err e) r' h = h

  join_sources-JoinsTo :
      (srcs : List Bytes) (out : Bytes) (s : Objects Time)
      → JoinsTo out (joined srcs s) (join_sources Time srcs out s)
  unfolding join_sources get
  join_sources-JoinsTo [] out s = ap some (sym (append-nil out))
  join_sources-JoinsTo (k ∷ srcs) out s = elim (Option-cases (object_at Time k s)) [
    | inl missing ↦ rw (missing, get, joined, join_sources, JoinsTo) (refl, refl)
    | inr (o, found) ↦
        rw (found, get, joined, join_sources, JoinsTo)
          (JoinsTo-following out o.data_bytes (joined srcs s) _
            (join_sources-JoinsTo srcs (out ++ o.data_bytes) s))
  ]

  -- The outcome of `Compose` and the store after it, for what the sources are joined to.
  abbrev pub Composes :
      Bytes → Objects Time → Result Bytes → Option StoreError × Objects Time → Type 0
  Composes dst s (ok bytes) r = (r.0 ≡ none) × (get Time dst r.1 ≡ ok bytes)
  Composes dst s (err e) r = (r.0 ≡ some object_not_found) × (r.1 ≡ s)

  composed :
      (dst : Bytes) (srcs : List Bytes) (s : Objects Time) (r : Result Bytes)
      → 0 < length srcs
      → length srcs ≤ max_compose_sources
      → JoinsTo [] r (join_sources Time srcs [] s)
      → Composes dst s r (compose Time now dst srcs s)
  unfolding compose get
  composed dst srcs s (ok bytes) p h j =
      ground (
        arith,
        p,
        h,
        j,
        object_at-set_key Time dst (record { data_bytes = bytes; created = now }) s,
      )
  composed dst srcs s (err e) p h j = ground (arith, p, h, j.1)

  -- `Compose` of 1 to 32 sources, which may name the destination: if a source is missing it is
  -- `ErrObjectNotFound` and the store is unchanged; else the destination reads as the sources' bytes in
  -- order, as they were before.
  pub compose_lem :
      (dst : Bytes) (srcs : List Bytes) (s : Objects Time)
      → 0 < length srcs
      → length srcs ≤ max_compose_sources
      → Composes dst s (joined srcs s) (compose Time now dst srcs s)
  compose_lem dst srcs s p h =
      composed dst srcs s (joined srcs s) p h (join_sources-JoinsTo srcs [] s)
