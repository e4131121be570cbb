-- ===== src/Embed/Poison/Response.antt =====
-- What `embedBatch` does with a response of one vector for each id, in order.
use mathlib.Core.List.{append_assoc, reverse-cons}
use maestro_cms.Prelude.{
  ℕ, suc, ◌+◌, ◌≤◌, ◌≡◌, refl, sym, ap, ◌∙◌, subst, true, none, List, [], ◌∷◌, ◌++◌, map, reverse,
  arith, inl, inr, ◌==◌, Bool-cases, length,
}
use maestro_cms.Text.{Bytes, bytes_eq}
use maestro_cms.Text.Equal.{bytes_eq→eq, bytes_eq_refl}
use maestro_cms.Embed.Defs.{Llms, IndexedInput, State}
use maestro_cms.Embed.RequestId.{request_id, request_id_injective}
use maestro_cms.Embed.Batch.{
  lookup_id, index_vectors, record_of, record_all, accept_vectors, handle_response,
}
use maestro_cms.Embed.Batch.Accounts.{Embedding, items_of, entry}
use maestro_cms.Embed.Batch.Index.{Found, index_vectors-Found}
use maestro_cms.Embed.Poison.{requested, Ascending}

abbrev ids : List IndexedInput → List Bytes
ids items = map (λ i. i.id) (map requested items)

module _ {V : Type 0} where
  abbrev keys : List (Bytes × V) → List Bytes
  keys vs = map (λ v. v.0) vs

  -- Nothing has an id of a position from `lo` on.
  abbrev IsBelow : ℕ → List (Bytes × V) → Type 0
  IsBelow lo by_id = (at : ℕ) → lo ≤ at → lookup_id (request_id at) by_id ≡ none

  IsBelow-cons :
      (lo at : ℕ) (x : V) (by_id : List (Bytes × V))
      → lo ≤ at
      → IsBelow lo by_id
      → IsBelow (suc at) ((request_id at, x) ∷ by_id)
  unfolding lookup_id
  IsBelow-cons lo at x by_id le below k later =
      elim (Bool-cases (bytes_eq (request_id at) (request_id k))) [
        | inl same ↦
            let equal : at ≡ k =
              request_id_injective at k (bytes_eq→eq (request_id at) (request_id k) same) in
            absurd (omega arith)
        | inr differ ↦ rw differ (below k (omega arith))
      ]

  -- Distinct positions give a map of all the vectors.
  index_vectors-fresh :
      (lo : ℕ) (batch : List IndexedInput) (vs by_id : List (Bytes × V))
      → keys vs ≡ ids batch
      → Ascending lo batch
      → IsBelow lo by_id
      → (let r = index_vectors vs by_id in
          (r.2 ≡ true) × (length r.1 ≡ length batch + length by_id))
  unfolding index_vectors
  index_vectors-fresh lo [] [] by_id e h below = (refl, omega arith)
  index_vectors-fresh lo [] (v ∷ vs) by_id e h below = cc
  index_vectors-fresh lo (it ∷ batch) [] by_id e h below = cc
  index_vectors-fresh lo (it ∷ batch) ((k, x) ∷ vs) by_id e (first, rest) below =
      let head : request_id it.at ≡ k = cc in
      let tail : keys vs ≡ ids batch = cc in
      let fresh : lookup_id k by_id ≡ none = rw head at (below it.at first) in
      let below' : IsBelow (suc it.at) ((k, x) ∷ by_id) =
        subst (λ i. IsBelow (suc it.at) ((i, x) ∷ by_id)) head
          (IsBelow-cons lo it.at x by_id first below) in
      let (distinct, count) =
        index_vectors-fresh (suc it.at) batch vs ((k, x) ∷ by_id) tail rest below' in
      rw (fresh, index_vectors) (distinct, omega (arith, count))

  Found-weaken :
      (id : Bytes) (v : Bytes × V) (vs : List (Bytes × V)) → Found id vs → Found id (v ∷ vs)
  unfolding lookup_id
  Found-weaken id (k, x) vs (y, f) = elim (Bool-cases (bytes_eq k id)) [
    | inl same ↦ (x, rw same)
    | inr differ ↦ (y, rw differ f)
  ]

  -- Every item has a vector in the map.
  abbrev AllIn : List (Bytes × V) → List IndexedInput → Type 0
  AllIn by_id [] = Unit
  AllIn by_id (it ∷ batch) = Found (request_id it.at) by_id × AllIn by_id batch

  AllIn-weaken :
      (v : Bytes × V) (vs : List (Bytes × V)) (batch : List IndexedInput)
      → AllIn vs batch
      → AllIn (v ∷ vs) batch
  AllIn-weaken v vs [] h = tt
  AllIn-weaken v vs (it ∷ batch) (found, h) =
      (Found-weaken (request_id it.at) v vs found, AllIn-weaken v vs batch h)

  ids-AllIn :
      (batch : List IndexedInput) (vs : List (Bytes × V)) → keys vs ≡ ids batch → AllIn vs batch
  unfolding lookup_id
  ids-AllIn [] vs e = tt
  ids-AllIn (it ∷ batch) [] e = cc
  ids-AllIn (it ∷ batch) ((k, x) ∷ vs) e =
      let head : k ≡ request_id it.at = cc in
      let same : bytes_eq k (request_id it.at) ≡ true =
        rw head (bytes_eq_refl (request_id it.at)) in
      ((x, rw same), AllIn-weaken (k, x) vs batch (ids-AllIn batch vs cc))

  index_vectors-AllIn :
      (vs : List (Bytes × V)) (batch : List IndexedInput)
      → (index_vectors vs []).2 ≡ true
      → AllIn vs batch
      → AllIn (index_vectors vs []).1 batch
  index_vectors-AllIn vs [] distinct h = tt
  index_vectors-AllIn vs (it ∷ batch) distinct (found, h) = (
    index_vectors-Found (request_id it.at) vs [] distinct (inr found),
    index_vectors-AllIn vs batch distinct h,
  )

module _ (llms : Llms) where
  open llms use {Vector}

  -- The items got vectors, and were recorded in order.
  pub record Served (batch : List IndexedInput) (st st' : State llms) : Type 0 where
    pub embedded : List (Embedding llms)
    pub items : items_of llms embedded ≡ batch
    pub records_are : st'.records ≡ reverse (map (entry llms) embedded) ++ st.records
    pub same_failures : st'.failures ≡ st.failures

  record_all-Served :
      (by_id : List (Bytes × Vector)) (batch : List IndexedInput) (st : State llms)
      → AllIn by_id batch
      → ((record_all llms by_id batch st).1 ≡ none)
        × Served batch st (record_all llms by_id batch st).0
  unfolding record_all
  record_all-Served by_id [] st h =
      (refl, record { embedded = []; items = refl; records_are = refl; same_failures = refl })
  record_all-Served by_id (it ∷ batch) st ((values, found), h) =
      let next : State llms = record st {
        records = (it.at, record_of llms it values) ∷ st.records;
      } in
      let (complete, on) = record_all-Served by_id batch next h in
      rw (found, record_all)
        (
          complete,
          record {
            embedded = (it, values) ∷ on.embedded;
            items = ap (λ l. it ∷ l) on.items;
            records_are =
                on.records_are
                ∙ sym (append_assoc (reverse (map (entry llms) on.embedded)) _ st.records)
                ∙ ap (λ l. l ++ st.records)
                    (sym (reverse-cons (entry llms (it, values)) (map (entry llms) on.embedded)));
            same_failures = on.same_failures;
          },
        )

  -- With a vector for each item and in order, all of the batch is recorded.
  pub handle_response-Served :
      (lo : ℕ) (batch : List IndexedInput) (vs : List (Bytes × Vector)) (st : State llms)
      → Ascending lo batch
      → map (λ v. v.0) vs ≡ map (λ i. i.id) (map requested batch)
      → Served batch st (handle_response llms batch vs st)
  unfolding handle_response accept_vectors
  handle_response-Served lo batch vs st h e =
      let (distinct, count) =
        index_vectors-fresh lo batch vs [] e h (λ at le. unfold lookup_id in refl) in
      let all = index_vectors-AllIn vs batch distinct (ids-AllIn batch vs e) in
      let (complete, served) = record_all-Served (index_vectors vs []).1 batch st all in
      let same : (length (index_vectors vs []).1 == length batch) ≡ true = ground (arith, count) in
      rw (distinct, same, complete, handle_response, accept_vectors) served
