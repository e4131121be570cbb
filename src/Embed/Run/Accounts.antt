-- ===== src/Embed/Run/Accounts.antt =====
-- `Run` returns, and accounts for every input.
use mathlib.Core.List.{Perm, append-nil, map-append}
use mathlib.Core.List.Perm
use maestro_cms.Prelude.{
  ℕ, ◌≡◌, refl, sym, ap, ◌∙◌, subst, Option, none, some, List, [], ◌++◌, map, arith, length,
}
use maestro_cms.Embed.Defs.{
  Llms, Config, with_defaults, tokens_for, Input, IndexedInput, RunError, PosFailure, State,
  Outcome, done, aborted, RunResult,
}
use maestro_cms.Embed.Batches.{pack_batches}
use maestro_cms.Embed.Batches.Limits.{concat, concat-pack_batches}
use maestro_cms.Embed.Batch.{record_of}
use maestro_cms.Embed.Batch.Accounts.{
  AllOf, FromClient, Accounts, Answers, Embedding, failed_inputs, inputs_of, items_of,
}
use maestro_cms.Embed.Batch.Bisect.{IsAccounted}
use maestro_cms.Embed.Run.{collect, assemble, validate_all, finish, run}
use maestro_cms.Embed.Run.Loops.{reported, embed_all-Returns}
use maestro_cms.Embed.Run.Records.{
  Distinct, by_position, by_position-AllOf, by_position-Perm, collect-by_position,
}
use maestro_cms.Embed.Poison.{Ascending, Ascending-keep, keep}
use maestro_cms.Embed.Poison.Inputs.{
  indexed, indexed-Ascending, indexed-IsBounded, keep-IsBounded, is_valid, is_invalid,
  validate_all-indexed,
}
use maestro_cms.Embed.Run.Parts.{
  perm_account, Ascending-Distinct, position, reported-assemble, blamed_inputs,
  failed_inputs-blamed, blamed_inputs-alone, keep-Perm, position_of, recorded_as, IsLog-Ascending,
  inside-Distinct,
}

module _ (llms : Llms) where
  open llms use {World, ClientError, ContextError, ctx_err}

  -- What a result says of the items, which are the inputs with their positions: the records are those
  -- of the items `embedded`, in the order of their positions and with vectors of the client's, the failures name those of `refused`, and
  -- the items `unprocessed` are the last of the valid ones.
  pub record IsAccountOf (items : List IndexedInput)
      (r : RunResult llms × Option (RunError ClientError ContextError)) : Type 0 where
    pub embedded : List (Embedding llms)
    pub refused : List IndexedInput
    pub unprocessed : List IndexedInput
    pub extra : List IndexedInput
    pub records_are : r.0.records ≡ map (λ e. record_of llms e.0 e.1) embedded
    pub from_client : AllOf (FromClient llms) embedded
    pub in_order : Ascending 0 (items_of llms embedded)
    pub failures_are : Perm (reported llms r.0.failures) (inputs_of llms refused)
    pub all_in : Perm ((items_of llms embedded ++ refused) ++ unprocessed) (items ++ extra)
    pub extra_none : Answers llms → extra ≡ []
    pub cut_off :
        (before : List IndexedInput) × (keep (is_valid llms) items ≡ before ++ unprocessed)
    pub finished : r.1 ≡ none → unprocessed ≡ []

  finish-IsAccountOf :
      (items : List IndexedInput) (n : ℕ) (fs : List (PosFailure llms))
      (before after : List IndexedInput) (w : World) (st : State llms)
      (error : Option (RunError ClientError ContextError))
      → failed_inputs llms fs ≡ inputs_of llms (keep (is_invalid llms) items)
      → keep (is_valid llms) items ≡ before ++ after
      → Distinct n (map position (keep (is_valid llms) items))
      → Accounts llms before (record { records = []; failures = fs; world = w }) st
      → (error ≡ none → after ≡ [])
      → IsAccountOf items (assemble llms n st.records st.failures, error)
  unfolding assemble
  finish-IsAccountOf items n fs before after w st error bad split distinct a all =
      let invalid = keep (is_invalid llms) items in
      let d = inside-Distinct llms n a.embedded a.left before after _ a.inside split distinct in
      let (collected, log) =
        collect-by_position (position_of llms) (recorded_as llms) n a.embedded d in
      let sorted = by_position (position_of llms) (recorded_as llms) a.embedded in
      record {
        embedded = sorted;
        refused = invalid ++ a.refused;
        unprocessed = after;
        extra = a.extra;
        records_are = ap (λ l. collect l n) (a.records_are ∙ append-nil _) ∙ collected;
        from_client =
            by_position-AllOf (position_of llms) (recorded_as llms) (FromClient llms) a.embedded
              a.from_client;
        in_order = IsLog-Ascending llms 0 n sorted log;
        failures_are =
            rw (map-append (λ (it : IndexedInput). it.input) invalid a.refused, sym bad)
              (reported-assemble llms n st _ a.failures_are);
        all_in =
            let q : Perm (invalid ++ (before ++ after)) items =
              subst (λ l. Perm (invalid ++ l) items) split (keep-Perm llms items) in
            let account =
              perm_account (items_of llms a.embedded) invalid a.refused after before a.extra items
                a.all_in q in
            let order =
              Perm.map (λ (e : Embedding llms). e.0)
                (by_position-Perm (position_of llms) (recorded_as llms) a.embedded) in
            Perm.trans (Perm.append_right after (Perm.append_right (invalid ++ a.refused) order))
              account;
        extra_none = a.extra_none;
        cut_off = (before, split);
        finished = all;
      }

  outcome-IsAccountOf :
      (items : List IndexedInput) (n : ℕ) (fs : List (PosFailure llms)) (w : World)
      (o : Outcome llms)
      → failed_inputs llms fs ≡ inputs_of llms (keep (is_invalid llms) items)
      → Distinct n (map position (keep (is_valid llms) items))
      → IsAccounted llms
          (keep (is_valid llms) items)
          (record { records = []; failures = fs; world = w })
          o
      → IsAccountOf items (finish llms n o)
  unfolding finish
  outcome-IsAccountOf items n fs w (done st) bad d h =
      let valid = keep (is_valid llms) items in
      finish-IsAccountOf items n fs valid [] w st none bad (sym (append-nil valid)) d h (λ _. refl)
  outcome-IsAccountOf items n fs w (aborted e st) bad d (before, after, split, h) =
      finish-IsAccountOf items n fs before after w st (some e) bad split d h (λ impossible. cc)

  -- `Run` returns for all inputs. With the inputs numbered by their positions, the embedded ones, those
  -- of the failures and those not processed are together the given ones, each once, and the `extra` ones;
  -- there are none of these if each response of the client has a vector for every requested id. The
  -- records are those of the embedded inputs, in the order of the positions, which are distinct, each with
  -- a vector that a response of the client has under the input's id; the
  -- inputs not processed are the last of the valid ones, and without an error every input was processed.
  pub run-IsAccountOf :
      (inputs : List Input) (config : Config) (w : World)
      → (r : RunResult llms × Option (RunError ClientError ContextError)) × (run llms inputs config
            w
          ≡ some r)
        × IsAccountOf (indexed (tokens_for (with_defaults llms config).estimate) 0 inputs) r
  unfolding run finish with_defaults
  run-IsAccountOf inputs config w =
      let cfg = with_defaults llms config in
      let tokens = tokens_for cfg.estimate in
      let n = length inputs in
      let items = indexed tokens 0 inputs in
      let good = keep (is_valid llms) items in
      let (listed, invalid) = validate_all-indexed llms tokens 0 inputs [] [] in
      let fs = (validate_all llms tokens 0 inputs [] []).0 in
      let batches =
        pack_batches (validate_all llms tokens 0 inputs [] []).1 cfg.max_inputs cfg.max_tokens in
      let start : State llms = record { records = []; failures = fs; world = w } in
      let kept : concat batches ≡ good =
        concat-pack_batches (validate_all llms tokens 0 inputs [] []).1 cfg.max_inputs
          cfg.max_tokens
        ∙ listed in
      let bad : failed_inputs llms fs ≡ inputs_of llms (keep (is_invalid llms) items) =
        failed_inputs-blamed llms fs
        ∙ ap (blamed_inputs llms) invalid
        ∙ blamed_inputs-alone llms (keep (is_invalid llms) items) in
      let distinct : Distinct n (map position good) =
        Ascending-Distinct n good
          (Ascending-keep (is_valid llms) 0 items (indexed-Ascending tokens 0 inputs))
          (keep-IsBounded (is_valid llms) n items
            (indexed-IsBounded tokens 0 n inputs (omega arith))) in
      let (o, returns, h) = embed_all-Returns llms cfg batches start in
      rw (returns, run)
        (
          finish llms n o,
          refl,
          outcome-IsAccountOf items n fs w o bad distinct
              (subst (λ l. IsAccounted llms l start o) kept h),
        )
