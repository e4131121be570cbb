-- ===== src/Embed/Batch/Response.antt =====
-- What `embedBatch` does with a response: the accounts of the batch.
use mathlib.Core.List.{Perm, perm_append_comm, append-nil, append_assoc, map-append}
use mathlib.Core.List.Perm
use maestro_cms.Prelude.{
  ℕ, ◌≡◌, refl, sym, ap, ◌∙◌, subst, inl, inr, Bool, true, false, Option, none, some, List, [], ◌∷◌,
  ◌++◌, map, ◌==◌, Bool-cases, Option-cases, length,
}
use maestro_cms.Text.{Bytes}
use maestro_cms.Embed.Defs.{
  Llms, EmbeddingRequest, vectors, IndexedInput, Settings, State, Failure, no_vector,
  count_mismatch, duplicate_vector,
}
use maestro_cms.Embed.RequestId.{request_id}
use maestro_cms.Embed.Batch.{
  lookup_id, index_vectors, record_of, record_all, add_batch_failure, accept_vectors,
  handle_response, request_of,
}
use maestro_cms.Embed.Batch.Accounts.{
  AllOf, AllOf-append, FromClient, AllFound, Answers, Embedding, items_of, entry, failed_inputs,
  failed_inputs-append, inputs_of, Accounts, add_batch_failure-Accounts,
}
use maestro_cms.Embed.Batch.Index.{Found, index_vectors-Found, index_vectors-Listed}

-- A property of what was found, of all of it.
AllOf-map :
    {A : Type 0} (P Q : A → Type 0) (xs : List A) → ((x : A) → P x → Q x) → AllOf P xs → AllOf Q xs
AllOf-map P Q [] f h = tt
AllOf-map P Q (x ∷ xs) f (first, h) = (f x first, AllOf-map P Q xs f h)

Perm-snoc :
    (llms : Llms) (it : IndexedInput) (values : llms.Vector) (es : List (Embedding llms))
    (rest batch : List IndexedInput)
    → Perm (items_of llms es ++ rest) batch
    → Perm (items_of llms (es ++ (it, values) ∷ []) ++ rest) (it ∷ batch)
Perm-snoc llms it values es rest batch p =
    rw (map-append (λ (e : Embedding llms). e.0) es ((it, values) ∷ [])) (
      Perm.trans (Perm.append_right rest (perm_append_comm (items_of llms es) (it ∷ [])))
        (Perm.cons it p))

module _ (llms : Llms) where
  open llms use {Vector, World, ClientError, embed}

  -- The map has the vector under the item's id.
  abbrev pub IsLookedUp : List (Bytes × Vector) → Embedding llms → Type 0
  IsLookedUp by_id e = lookup_id (request_id e.0.at) by_id ≡ some e.1

  -- What the recording loop did: the items before the first one that has no vector were recorded.
  pub record Recorded (by_id : List (Bytes × Vector)) (batch : List IndexedInput)
      (st st' : State llms) (missing : Option ℕ) : Type 0 where
    pub embedded : List (Embedding llms)
    pub rest : List IndexedInput
    pub records_are : st'.records ≡ map (entry llms) embedded ++ st.records
    pub same_failures : st'.failures ≡ st.failures
    pub all_in : Perm (items_of llms embedded ++ rest) batch
    pub looked_up : AllOf (IsLookedUp by_id) embedded
    pub finished : missing ≡ none → rest ≡ []

  record_all-Recorded :
      (by_id : List (Bytes × Vector)) (batch : List IndexedInput) (st : State llms)
      → Recorded by_id batch st
          (record_all llms by_id batch st).0
          (record_all llms by_id batch st).1
  unfolding record_all
  record_all-Recorded by_id [] st = record {
    embedded = [];
    rest = [];
    records_are = refl;
    same_failures = refl;
    all_in = Perm.refl [];
    looked_up = tt;
    finished = λ _. refl;
  }
  record_all-Recorded by_id (it ∷ batch) st =
      elim (Option-cases (lookup_id (request_id it.at) by_id)) [
        | inl missing ↦
            rw (missing, record_all)
              (record {
                embedded = [];
                rest = it ∷ batch;
                records_are = refl;
                same_failures = refl;
                all_in = Perm.refl (it ∷ batch);
                looked_up = tt;
                finished = λ no. cc;
              })
        | inr (values, found) ↦
            let next : State llms = record st {
              records = (it.at, record_of llms it values) ∷ st.records;
            } in
            let on = record_all-Recorded by_id batch next in
            rw (found, record_all)
              (record {
                embedded = on.embedded ++ (it, values) ∷ [];
                rest = on.rest;
                records_are =
                    on.records_are
                    ∙ sym (
                        append_assoc (map (entry llms) on.embedded) (entry llms (it, values) ∷ [])
                          st.records)
                    ∙ ap (λ l. l ++ st.records)
                        (sym (map-append (entry llms) on.embedded ((it, values) ∷ [])));
                same_failures = on.same_failures;
                all_in = Perm-snoc llms it values on.embedded on.rest batch on.all_in;
                looked_up =
                    AllOf-append (IsLookedUp by_id) on.embedded ((it, values) ∷ []) on.looked_up
                      (found, tt);
                finished = on.finished;
              })
      ]

  -- Every item of the batch has a vector in the map.
  AllIn : List (Bytes × Vector) → List IndexedInput → Type 0
  AllIn by_id [] = Unit
  AllIn by_id (it ∷ batch) = Found (request_id it.at) by_id × AllIn by_id batch

  record_all-AllIn :
      (by_id : List (Bytes × Vector)) (batch : List IndexedInput) (st : State llms)
      → AllIn by_id batch
      → (record_all llms by_id batch st).1 ≡ none
  unfolding record_all AllIn
  record_all-AllIn by_id [] st h = refl
  record_all-AllIn by_id (it ∷ batch) st ((v, found), h) =
      rw (found, record_all) (record_all-AllIn by_id batch _ h)

  AllFound-AllIn :
      (cfg : Settings) (vs : List (Bytes × Vector)) (batch : List IndexedInput)
      → (index_vectors vs []).2 ≡ true
      → AllFound vs (request_of llms cfg batch).inputs
      → AllIn (index_vectors vs []).1 batch
  unfolding request_of AllIn
  AllFound-AllIn cfg vs [] distinct h = tt
  AllFound-AllIn cfg vs (it ∷ batch) distinct (found, h) = (
    index_vectors-Found (request_id it.at) vs [] distinct (inr found),
    AllFound-AllIn cfg vs batch distinct h,
  )

  answered-Accounts :
      (by_id : List (Bytes × Vector)) (batch : List IndexedInput) (st st' : State llms)
      (missing : Option ℕ)
      → Recorded by_id batch st st' missing
      → missing ≡ none
      → ((e : Embedding llms) → IsLookedUp by_id e → FromClient llms e)
      → Accounts llms batch st st'
  answered-Accounts by_id batch st st' missing is e served = record {
    embedded = is.embedded;
    refused = [];
    extra = [];
    records_are = is.records_are;
    failures_are =
        ap (failed_inputs llms) is.same_failures
        ∙ sym (append-nil (failed_inputs llms st.failures));
    all_in =
        rw (append-nil batch)
          (subst (λ l. Perm (items_of llms is.embedded ++ l) batch) (is.finished e) is.all_in);
    from_client = AllOf-map (IsLookedUp by_id) (FromClient llms) is.embedded served is.looked_up;
    left = is.rest;
    inside = is.all_in;
    extra_none = λ _. refl;
  }

  unanswered-Accounts :
      (by_id : List (Bytes × Vector)) (batch : List IndexedInput) (st st' : State llms)
      (missing : Option ℕ) (err : Failure ClientError) (can_retry : Bool)
      → Recorded by_id batch st st' missing
      → (Answers llms → ⊥)
      → ((e : Embedding llms) → IsLookedUp by_id e → FromClient llms e)
      → Accounts llms batch st (add_batch_failure llms batch err can_retry st')
  unfolding add_batch_failure
  unanswered-Accounts by_id batch st st' missing err can_retry is silent served = record {
    embedded = is.embedded;
    refused = batch;
    extra = items_of llms is.embedded;
    records_are = is.records_are;
    failures_are =
        failed_inputs-append llms st'.failures _
        ∙ ap (λ l. failed_inputs llms st'.failures ++ l) (append-nil (inputs_of llms batch))
        ∙ ap (λ l. failed_inputs llms l ++ inputs_of llms batch) is.same_failures;
    all_in = perm_append_comm (items_of llms is.embedded) batch;
    from_client = AllOf-map (IsLookedUp by_id) (FromClient llms) is.embedded served is.looked_up;
    left = is.rest;
    inside = is.all_in;
    extra_none = λ a. absurd (silent a);
  }

  accept_vectors-Accounts :
      (batch : List IndexedInput) (by_id : List (Bytes × Vector)) (st : State llms)
      → (Answers llms → AllIn by_id batch)
      → ((e : Embedding llms) → IsLookedUp by_id e → FromClient llms e)
      → Accounts llms batch st (accept_vectors llms batch by_id st)
  unfolding accept_vectors
  accept_vectors-Accounts batch by_id st all served =
      let (st', missing) = record_all llms by_id batch st in
      let is = record_all-Recorded by_id batch st in
      elim (Bool-cases (length by_id == length batch)) [
        | inr differ ↦
            rw (differ, accept_vectors)
              (add_batch_failure-Accounts llms batch (count_mismatch (length by_id) (length batch))
                false st)
        | inl same ↦ elim (Option-cases (record_all llms by_id batch st).1) [
          | inl all_found ↦
              rw (same, all_found, accept_vectors)
                (answered-Accounts by_id batch st st' missing is all_found served)
          | inr (at, unanswered) ↦
              rw (same, unanswered, accept_vectors)
                (unanswered-Accounts by_id batch st st' missing (no_vector at) false is
                  (λ a. cc (record_all-AllIn by_id batch st (all a), unanswered)) served)
        ]
      ]

  -- A response is accounted for: the batch is in records or in a failure.
  pub handle_response-Accounts :
      (cfg : Settings) (batch : List IndexedInput) (vs : List (Bytes × Vector)) (st : State llms)
      (req : EmbeddingRequest) (w : World)
      → (embed req w).0 ≡ vectors vs
      → (Answers llms → AllFound vs (request_of llms cfg batch).inputs)
      → Accounts llms batch st (handle_response llms batch vs st)
  unfolding handle_response
  handle_response-Accounts cfg batch vs st req w answer found =
      elim (Bool-cases (index_vectors vs []).2) [
        | inl distinct ↦
            rw (distinct, handle_response)
              (accept_vectors-Accounts batch (index_vectors vs []).1 st
                (λ a. AllFound-AllIn cfg vs batch distinct (found a))
                (λ e looked. (
                  req,
                  w,
                  vs,
                  answer,
                  elim (index_vectors-Listed (request_id e.0.at) e.1 vs [] looked) [
                    | inl listed ↦ listed
                    | inr never ↦ absurd (unfold lookup_id in cc)
                  ],
                )))
        | inr twice ↦
            rw (twice, handle_response)
              (add_batch_failure-Accounts llms batch (duplicate_vector (index_vectors vs []).0)
                false st)
      ]
