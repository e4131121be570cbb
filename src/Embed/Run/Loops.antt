-- ===== src/Embed/Run/Loops.antt =====
-- The loops of `Run` and the sort of `assemble`: what each does with the inputs.
use mathlib.Core.List.{Perm, perm_append_comm, append-nil, append_assoc}
use mathlib.Core.List.Perm
use maestro_cms.Prelude.{
  ◌+◌, ◌≡◌, refl, sym, ap, inl, inr, none, some, List, [], ◌∷◌, ◌++◌, map, arith, ltb, Bool-cases,
  Option-cases, length,
}
use maestro_cms.Embed.Defs.{
  Llms, Settings, Input, IndexedInput, context_done, BatchFailure, PosFailure, State, Outcome, done,
  aborted,
}
use maestro_cms.Embed.Batches.Limits.{concat}
use maestro_cms.Embed.Batch.{embed_batch, and_then}
use maestro_cms.Embed.Batch.Accounts.{failed_inputs}
use maestro_cms.Embed.Batch.Bisect.{
  IsAccounted, Returns, nothing-Accounts, embed_batch-Returns, and_then-Returns, Returns-world,
}
use maestro_cms.Embed.Run.{insert_failure, sort_from, embed_all}

module _ (llms : Llms) where
  open llms use {World, ClientError, ContextError, ctx_err}

  -- The inputs of the failures of a result.
  abbrev pub reported : List (BatchFailure llms) → List Input
  reported [] = []
  reported (b ∷ bs) = b.inputs ++ reported bs

  pub reported-map :
      (ps : List (PosFailure llms)) → reported (map (λ p. p.failure) ps) ≡ failed_inputs llms ps
  reported-map [] = refl
  reported-map (p ∷ ps) = ap (λ l. p.failure.inputs ++ l) (reported-map ps)

  insert_failure-Perm :
      (x : PosFailure llms) (ys : List (PosFailure llms))
      → Perm
          (failed_inputs llms (insert_failure llms x ys))
          (x.failure.inputs ++ failed_inputs llms ys)
  unfolding insert_failure
  insert_failure-Perm x [] = Perm.refl _
  insert_failure-Perm x (y ∷ ys) = elim (Bool-cases (ltb x.at y.at)) [
    | inl first ↦ rw first (Perm.refl _)
    | inr later ↦
        rw (later, insert_failure)
          (Perm.trans (Perm.append_left y.failure.inputs (insert_failure-Perm x ys)) (
            rw
              (
                sym (append_assoc y.failure.inputs x.failure.inputs (failed_inputs llms ys)),
                sym (append_assoc x.failure.inputs y.failure.inputs (failed_inputs llms ys)),
              )
              (Perm.append_right (failed_inputs llms ys)
                (perm_append_comm y.failure.inputs x.failure.inputs))))
  ]

  pub sort_from-Perm :
      (sorted xs : List (PosFailure llms))
      → Perm
          (failed_inputs llms (sort_from llms sorted xs))
          (failed_inputs llms sorted ++ failed_inputs llms xs)
  unfolding sort_from
  sort_from-Perm sorted [] = rw append-nil (Perm.refl _)
  sort_from-Perm sorted (x ∷ xs) = Perm.trans (sort_from-Perm (insert_failure llms x sorted) xs) (
      Perm.trans
        (Perm.append_right (failed_inputs llms xs) (
          Perm.trans (insert_failure-Perm x sorted)
            (perm_append_comm x.failure.inputs (failed_inputs llms sorted))))
        (rw (append_assoc (failed_inputs llms sorted) x.failure.inputs (failed_inputs llms xs))
          (Perm.refl _)))

  embed_all-step :
      (cfg : Settings) (batch : List IndexedInput) (batches : List (List IndexedInput))
      (st : State llms) (o : Outcome llms)
      → (ctx_err st.world).0 ≡ none
      → embed_batch llms cfg (length batch + 1) batch (record st { world = (ctx_err st.world).1 })
        ≡ some o
      → IsAccounted llms batch (record st { world = (ctx_err st.world).1 }) o
      → ((st' : State llms) → Returns llms (concat batches) st' (embed_all llms cfg batches st'))
      → Returns llms (batch ++ concat batches) st (embed_all llms cfg (batch ∷ batches) st)
  unfolding embed_all and_then
  embed_all-step cfg batch batches st (done st') alive returns h next =
      let checked : State llms = record st { world = (ctx_err st.world).1 } in
      rw (alive, returns, embed_all)
        (Returns-world llms (batch ++ concat batches) st (ctx_err st.world).1 _ (
          and_then-Returns llms batch (concat batches) checked (some (done st'))
            (embed_all llms cfg batches) (done st', refl, h) next))
  embed_all-step cfg batch batches st (aborted e st') alive returns h next =
      let checked : State llms = record st { world = (ctx_err st.world).1 } in
      rw (alive, returns, embed_all)
        (Returns-world llms (batch ++ concat batches) st (ctx_err st.world).1 _ (
          and_then-Returns llms batch (concat batches) checked (some (aborted e st'))
            (embed_all llms cfg batches) (aborted e st', refl, h) next))

  -- The second loop returns, and accounts for the batches that it came to.
  pub embed_all-Returns :
      (cfg : Settings) (batches : List (List IndexedInput)) (st : State llms)
      → Returns llms (concat batches) st (embed_all llms cfg batches st)
  unfolding embed_all
  embed_all-Returns cfg [] st = (done st, refl, nothing-Accounts llms st st.world)
  embed_all-Returns cfg (batch ∷ batches) st = elim (Option-cases (ctx_err st.world).0) [
    | inr (e, over) ↦
        rw (over, embed_all)
          (
            aborted (context_done e) (record st { world = (ctx_err st.world).1 }),
            refl,
            ([], batch ++ concat batches, refl, nothing-Accounts llms st (ctx_err st.world).1),
          )
    | inl alive ↦
        let (o, returns, h) =
          embed_batch-Returns llms cfg (length batch + 1) batch
            (record st { world = (ctx_err st.world).1 }) (omega arith) in
        embed_all-step cfg batch batches st o alive returns h (embed_all-Returns cfg batches)
  ]
