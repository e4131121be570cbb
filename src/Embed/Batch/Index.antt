-- ===== src/Embed/Batch/Index.antt =====
-- The map that `embedBatch` makes of a response's vectors, against the response.
use maestro_cms.Prelude.{
  ◌≡◌, ◌⊎◌, inl, inr, true, false, some, List, [], ◌∷◌, arith, Bool-cases, Option-cases,
}
use maestro_cms.Text.{Bytes, bytes_eq}
use maestro_cms.Embed.Batch.{lookup_id, index_vectors}
use maestro_cms.Embed.Batch.Accounts.{Listed}

-- The id has a vector.
abbrev pub Found : {V : Type 0} → Bytes → List (Bytes × V) → Type 0
Found {V} id vs = (v : V) × (lookup_id id vs ≡ some v)

-- If no id comes twice, the map of the response has every id of the response.
pub index_vectors-Found :
    {V : Type 0} (id : Bytes) (vs by_id : List (Bytes × V))
    → (index_vectors vs by_id).2 ≡ true
    → Found id by_id ⊎ Found id vs
    → Found id (index_vectors vs by_id).1
unfolding index_vectors lookup_id
index_vectors-Found id [] by_id h (inl f) = f
index_vectors-Found id [] by_id h (inr (v, f)) = cc
index_vectors-Found id ((k, x) ∷ vs) by_id h found = elim (Option-cases (lookup_id k by_id)) [
  | inr (v, twice) ↦ let no : false ≡ true = rw (twice, index_vectors) at h in cc
  | inl once ↦
      let rest : (index_vectors vs ((k, x) ∷ by_id)).2 ≡ true = rw (once, index_vectors) at h in
      rw (once, index_vectors)
        (index_vectors-Found id vs ((k, x) ∷ by_id) rest (elim (Bool-cases (bytes_eq k id)) [
          | inl same ↦ inl (x, ground arith)
          | inr other ↦ elim found [
            | inl (v, f) ↦ inl (v, ground arith)
            | inr (v, f) ↦ inr (v, ground arith)
          ]
        ]))
]

-- What the map of the response finds was in the response.
pub index_vectors-Listed :
    {V : Type 0} (id : Bytes) (v : V) (vs by_id : List (Bytes × V))
    → lookup_id id (index_vectors vs by_id).1 ≡ some v
    → Listed id v vs ⊎ (lookup_id id by_id ≡ some v)
unfolding index_vectors lookup_id
index_vectors-Listed id v [] by_id h = inr h
index_vectors-Listed id v ((k, x) ∷ vs) by_id h = elim (Option-cases (lookup_id k by_id)) [
  | inr (y, twice) ↦ inr (rw (twice, index_vectors) at h)
  | inl once ↦
      let rest : lookup_id id (index_vectors vs ((k, x) ∷ by_id)).1 ≡ some v =
        rw (once, index_vectors) at h in
      elim (index_vectors-Listed id v vs ((k, x) ∷ by_id) rest) [
        | inl listed ↦ inl (inr listed)
        | inr found ↦ elim (Bool-cases (bytes_eq k id)) [
          | inl same ↦ inl (inl (same, ground (arith, found, same)))
          | inr other ↦ inr (ground (arith, found, other))
        ]
      ]
]
