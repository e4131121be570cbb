-- ===== src/Embed/Batch/Bisect.antt =====
-- `embedBatch` ends, and accounts for the part of the batch that it came to.
use mathlib.Core.List.Perm
use mathlib.Core.List.{append_assoc, append-nil}
use maestro_cms.Prelude.{
  ℕ, zero, suc, ◌/◌, ◌<◌, ◌≡◌, refl, sym, ap, ◌∙◌, subst, ◌⊎◌, inl, inr, not, ◌&&◌, Option, some,
  List, [], ◌++◌, arith, ltb, Bool-cases, Option-cases, length, length-take, length-drop, take-drop,
  take, drop,
}
use maestro_cms.Text.{Bytes}
use maestro_cms.Embed.Defs.{
  Llms, IndexedInput, Settings, State, Outcome, done, aborted, Reply, vectors, failed, batch_failed,
  context_done, client_canceled,
}
use maestro_cms.Embed.Batch.{
  add_batch_failure, handle_response, handle_error, and_then, request_of, embed_batch,
}
use maestro_cms.Embed.Batch.Accounts.{Accounts, Accounts-trans, add_batch_failure-Accounts}
use maestro_cms.Embed.Batch.Response.{handle_response-Accounts}

module _ (llms : Llms) where
  open llms use {World, ClientError, ctx_err, embed, is_canceled, retryable}

  -- A step on `batch` from `st`: it is done and the batch is accounted for, or it was canceled and a
  -- first part of the batch is, of which nothing else was touched.
  abbrev pub IsAccounted : List IndexedInput → State llms → Outcome llms → Type 0
  IsAccounted batch st (done st') = Accounts llms batch st st'
  IsAccounted batch st (aborted e st') =
      (before after : List IndexedInput) × (batch ≡ before ++ after) × Accounts llms before st st'

  -- The step returns, with such an outcome.
  abbrev pub Returns : List IndexedInput → State llms → Option (Outcome llms) → Type 0
  Returns batch st m = (o : Outcome llms) × (m ≡ some o) × IsAccounted batch st o

  -- A call of the client or of the context changes no record and no failure.
  pub Accounts-world :
      (batch : List IndexedInput) (st st' : State llms) (w : World)
      → Accounts llms batch (record st { world = w }) st'
      → Accounts llms batch st st'
  Accounts-world batch st st' w a = record {
    embedded = a.embedded;
    refused = a.refused;
    extra = a.extra;
    records_are = a.records_are;
    failures_are = a.failures_are;
    all_in = a.all_in;
    from_client = a.from_client;
    left = a.left;
    inside = a.inside;
    extra_none = a.extra_none;
  }

  pub IsAccounted-world :
      (batch : List IndexedInput) (st : State llms) (w : World) (o : Outcome llms)
      → IsAccounted batch (record st { world = w }) o
      → IsAccounted batch st o
  IsAccounted-world batch st w (done st') h = Accounts-world batch st st' w h
  IsAccounted-world batch st w (aborted e st') (before, after, e', h) =
      (before, after, e', Accounts-world before st st' w h)

  pub Returns-world :
      (batch : List IndexedInput) (st : State llms) (w : World) (m : Option (Outcome llms))
      → Returns batch (record st { world = w }) m
      → Returns batch st m
  Returns-world batch st w m (o, returns, h) = (o, returns, IsAccounted-world batch st w o h)

  Reply-cases :
      {V E : Type 0} (r : Reply V E)
      → ((vs : List (Bytes × V)) × (r ≡ vectors vs)) ⊎ ((e : E) × (r ≡ failed e))
  Reply-cases (vectors vs) = inl (vs, refl)
  Reply-cases (failed e) = inr (e, refl)

  -- Nothing of the batch was processed.
  pub nothing-Accounts :
      (st : State llms) (w : World) → Accounts llms [] st (record st { world = w })
  nothing-Accounts st w = record {
    embedded = [];
    refused = [];
    extra = [];
    records_are = refl;
    failures_are = sym (append-nil _);
    all_in = Perm.refl [];
    from_client = tt;
    left = [];
    inside = Perm.refl [];
    extra_none = λ _. refl;
  }

  pub and_then-Returns :
      (b c : List IndexedInput) (st : State llms) (first : Option (Outcome llms))
      (second : State llms → Option (Outcome llms))
      → Returns b st first
      → ((st' : State llms) → Returns c st' (second st'))
      → Returns (b ++ c) st (and_then llms first second)
  unfolding and_then
  and_then-Returns b c st first second (aborted e st', returns, (before, after, split, h)) next =
      rw returns (
        aborted e st',
        refl,
        (before, after ++ c, ap (λ l. l ++ c) split ∙ append_assoc before after c, h),
      )
  and_then-Returns b c st first second (done st', returns, h) next =
      rw returns (continue (next st'))
    where
      continue : Returns c st' (second st') → Returns (b ++ c) st (second st')
      continue (done st'', returns', h') =
          (done st'', returns', Accounts-trans llms b c st st' st'' h h')
      continue (aborted e st'', returns', (before, after, split, h')) = (
        aborted e st'',
        returns',
        (
          b ++ before,
          after,
          ap (λ l. b ++ l) split ∙ sym (append_assoc b before after),
          Accounts-trans llms b before st st' st'' h h',
        ),
      )

  module _ (cfg : Settings) where
    -- The client's error is handled: by an abort, by the bisection, or by a failure of the batch.
    handle_error-Returns :
        (batch : List IndexedInput) (err : ClientError) (st : State llms)
        (bisect : State llms → Option (Outcome llms))
        → ((st' : State llms) → 1 < length batch → Returns batch st' (bisect st'))
        → Returns batch st (handle_error llms cfg batch err st bisect)
    unfolding handle_error
    handle_error-Returns batch err st bisect halves =
        let w = (ctx_err st.world).1 in
        let checked : State llms = record st { world = w } in
        elim (Option-cases (ctx_err st.world).0) [
          | inr (e, over) ↦
              rw (over, handle_error)
                (aborted (context_done e) checked, refl, ([], batch, refl, nothing-Accounts st w))
          | inl alive ↦ elim (Bool-cases (is_canceled err)) [
            | inl canceled ↦
                rw (alive, canceled, handle_error)
                  (
                    aborted (client_canceled err) checked,
                    refl,
                    ([], batch, refl, nothing-Accounts st w),
                  )
            | inr failed_call ↦ elim (Bool-cases (not cfg.disable_bisect && ltb 1 (length batch))) [
              | inl split ↦
                  rw (alive, failed_call, split, handle_error)
                    (Returns-world batch st w (bisect checked) (halves checked (ground arith)))
              | inr whole ↦
                  let failure = batch_failed (length batch) err in
                  rw (alive, failed_call, whole, handle_error)
                    (
                      done (add_batch_failure llms batch failure (retryable err) checked),
                      refl,
                      Accounts-world batch st _ w
                          (add_batch_failure-Accounts llms batch failure (retryable err) checked),
                    )
            ]
          ]
        ]

    -- `embedBatch` returns with fuel for more than the batch's length. If it is done, the items of the
    -- batch were recorded or reported as failed, and if it was canceled, those of a first part of the
    -- batch were, and nothing of the rest.
    pub embed_batch-Returns :
        (f : ℕ) (batch : List IndexedInput) (st : State llms)
        → length batch < f
        → Returns batch st (embed_batch llms cfg f batch st)
    unfolding embed_batch
    embed_batch-Returns zero batch st h = absurd (omega arith)
    embed_batch-Returns (suc f) batch st h =
        let w = (embed (request_of llms cfg batch) st.world).1 in
        let called : State llms = record st { world = w } in
        let mid = length batch / 2 in
        let front = take mid batch in
        let back = drop mid batch in
        elim (Reply-cases (embed (request_of llms cfg batch) st.world).0) [
          | inl (vs, answer) ↦
              rw (answer, embed_batch)
                (
                  done (handle_response llms batch vs called),
                  refl,
                  Accounts-world batch st _ w (
                      handle_response-Accounts llms cfg batch vs called (request_of llms cfg batch)
                        st.world answer
                        (λ answers. answers (request_of llms cfg batch) st.world vs answer)),
                )
          | inr (err, error) ↦
              rw (error, embed_batch)
                (Returns-world batch st w _ (
                  handle_error-Returns batch err called _ (λ st' two.
                    subst
                      (λ l. Returns l st' (
                        and_then llms (embed_batch llms cfg f front st')
                          (λ st''. embed_batch llms cfg f back st'')))
                      (take-drop mid batch)
                      (and_then-Returns front back st' _ _
                        (embed_batch-Returns f front st'
                          (omega (arith, length-take mid batch (omega arith))))
                        (λ st''.
                          embed_batch-Returns f back st''
                            (omega (arith, length-drop mid batch)))))))
        ]
