-- ===== src/Embed/Poison/Run.antt =====
-- `Run` with a client that refuses poison inputs.
use mathlib.Core.List.{append-nil, map-map}
use maestro_cms.Prelude.{
  ℕ, suc, ◌+◌, ◌≡◌, refl, sym, ap, ◌∙◌, subst, Bool, true, false, not, ◌||◌, ◌&&◌, none, some, List,
  [], ◌∷◌, ◌++◌, map, reverse, arith, length,
}
use maestro_cms.Embed.Defs.{
  Llms, Config, Settings, with_defaults, tokens_for, Input, IndexedInput, EmbeddingInput,
  PosFailure, BatchFailure, Embedded, State, done, RunResult,
}
use maestro_cms.Embed.Batches.{pack_batches}
use maestro_cms.Embed.Batches.Limits.{concat, concat-pack_batches}
use maestro_cms.Embed.Batch.{record_of, and_then}
use maestro_cms.Embed.Batch.Accounts.{Embedding, items_of, entry}
use maestro_cms.Embed.Run.{collect, sort_failures, assemble, validate_all, embed_all, finish, run}
use maestro_cms.Embed.Poison.{
  Ascending, Ascending-left, Ascending-right, Ascending-keep, keep, is_poison, is_clean, IsPoisoned,
}
use maestro_cms.Embed.Poison.Bisect.{
  alone, blamed, Isolated, Isolated-world, Isolates, IsolatedBatch, and_then-Isolates,
  embed_batch-Isolates,
}
use maestro_cms.Embed.Poison.Collect.{IsLog, collect-reverse}
use maestro_cms.Embed.Poison.Sort.{
  sort_pairs, sort_pairs-append, blamed-sort_failures, sort_sorted, sort-keep,
}
use maestro_cms.Embed.Poison.Inputs.{
  indexed, indexed-Ascending, IsBounded, indexed-IsBounded, keep-IsBounded, keep-keep, keep-ext,
  is_valid, is_invalid, validate_all-indexed,
}

module _ (llms : Llms) where
  -- The entries for items with increasing positions below the bound.
  entries-IsLog :
      (lo hi : ℕ) (es : List (Embedding llms))
      → Ascending lo (items_of llms es)
      → IsBounded hi (items_of llms es)
      → IsLog lo hi (map (entry llms) es)
  entries-IsLog lo hi [] asc bound = tt
  entries-IsLog lo hi (e ∷ es) (first, rest) (below, all) =
      (first, below, entries-IsLog (suc e.0.at) hi es rest all)

  -- The records and the failures of a run that was not canceled.
  pub record Sorted (good bad : List IndexedInput) (r : RunResult llms) : Type 0 where
    pub embedded : List (Embedding llms)
    pub items : items_of llms embedded ≡ good
    pub records_are : r.records ≡ map (λ e. record_of llms e.0 e.1) embedded
    pub failures_are : map (λ b. b.inputs) r.failures ≡ map (λ it. it.input ∷ []) bad

  assemble-Sorted :
      (n : ℕ) (good poisoned bad : List IndexedInput) (st st' : State llms)
      → st.records ≡ []
      → Isolated llms good poisoned st st'
      → Ascending 0 good
      → IsBounded n good
      → sort_pairs [] (blamed llms st'.failures) ≡ map alone bad
      → Sorted good bad (assemble llms n st'.records st'.failures)
  unfolding assemble
  assemble-Sorted n good poisoned bad st st' fresh h asc bound sorted =
      let es = map (entry llms) h.embedded in
      let log : IsLog 0 n es =
        entries-IsLog 0 n h.embedded (subst (Ascending 0) (sym h.items) asc)
          (subst (IsBounded n) (sym h.items) bound) in
      let reversed : st'.records ≡ reverse es =
        h.records_are ∙ ap (λ l. reverse es ++ l) fresh ∙ append-nil (reverse es) in
      record {
        embedded = h.embedded;
        items = h.items;
        records_are =
            ap (λ l. collect l n) reversed
            ∙ collect-reverse es n log
            ∙ map-map (λ (e : ℕ × Embedded llms). e.1) (entry llms) h.embedded;
        failures_are =
            map-map (λ (b : BatchFailure llms). b.inputs) (λ (p : PosFailure llms). p.failure)
              (sort_failures llms st'.failures)
            ∙ sym (
                map-map (λ (b : ℕ × List Input). b.1)
                  (λ (p : PosFailure llms). (p.at, p.failure.inputs))
                  (sort_failures llms st'.failures))
            ∙ ap (map (λ (b : ℕ × List Input). b.1))
                (blamed-sort_failures llms st'.failures ∙ sorted)
            ∙ map-map (λ (b : ℕ × List Input). b.1) alone bad;
      }

module _ (llms : Llms) (poison : EmbeddingInput → Bool) where
  abbrev pub is_good : IndexedInput → Bool
  is_good it = is_valid llms it && is_clean poison it

  abbrev pub is_bad : IndexedInput → Bool
  is_bad it = not (is_good it)

  bad-either : (v p : Bool) → (not v || (v && p)) ≡ not (v && not p)
  bad-either true true = refl
  bad-either true false = refl
  bad-either false p = refl

  rejected : (v p : Bool) → not v ≡ true → (v && p) ≡ false
  rejected true p e = cc
  rejected false p e = refl

  -- The invalid inputs and the poison ones, sorted together.
  sort-bad :
      (lo : ℕ) (all : List IndexedInput)
      → Ascending lo all
      → sort_pairs [] (
          map alone (keep (is_invalid llms) all)
          ++ map alone (keep (is_poison poison) (keep (is_valid llms) all)))
        ≡ map alone (keep is_bad all)
  sort-bad lo all asc =
      let later = λ (it : IndexedInput). is_valid llms it && is_poison poison it in
      let invalid = keep (is_invalid llms) all in
      sort_pairs-append [] (map alone invalid) _
      ∙ ap (λ l. sort_pairs l (map alone (keep (is_poison poison) (keep (is_valid llms) all))))
          (sort_sorted lo invalid (Ascending-keep (is_invalid llms) lo all asc))
      ∙ ap (λ l. sort_pairs (map alone invalid) (map alone l))
          (keep-keep (is_poison poison) (is_valid llms) all)
      ∙ sort-keep (is_invalid llms) later
          (λ it e. rejected (is_valid llms it) (is_poison poison it) e) lo all asc
      ∙ ap (map alone)
          (keep-ext _ is_bad all (λ it. bad-either (is_valid llms it) (is_poison poison it)))

module _ (llms : Llms) (poison : EmbeddingInput → Bool) (client : IsPoisoned llms poison) where
  open llms use {World, ctx_err}

  module _ (cfg : Settings) (bisects : cfg.disable_bisect ≡ false) where
    embed_all-Isolates :
        (lo : ℕ) (batches : List (List IndexedInput)) (st : State llms)
        → Ascending lo (concat batches)
        → Isolates llms poison (concat batches) st (embed_all llms cfg batches st)
    unfolding embed_all and_then keep
    embed_all-Isolates lo [] st asc = (
      st,
      refl,
      record {
        embedded = [];
        items = refl;
        records_are = refl;
        failures_are = sym (append-nil (blamed llms st.failures));
      },
    )
    embed_all-Isolates lo (batch ∷ batches) st asc =
        let alive : (ctx_err st.world).0 ≡ none = client.alive st.world in
        let w = (ctx_err st.world).1 in
        let checked : State llms = record st { world = w } in
        let (st', returns, h) =
          embed_batch-Isolates llms poison client cfg bisects (length batch + 1) lo batch checked
            (omega arith) (Ascending-left lo batch (concat batches) asc) in
        let (st'', returns', h') =
          and_then-Isolates llms poison batch (concat batches) checked (some (done st'))
            (embed_all llms cfg batches) (st', refl, h)
            (λ next.
              embed_all-Isolates lo batches next (Ascending-right lo batch (concat batches) asc)) in
        rw (alive, returns, embed_all) (st'', returns', Isolated-world llms _ _ st st'' w h')

  -- If the client refuses exactly the requests with a poison input, with errors that are no
  -- cancellation, serves each other request with one vector for each id and in order, and the context
  -- is never done, then `Run` with the bisection returns no error. Its records are those of the inputs
  -- that are valid and no poison, in the order of the inputs and each with a vector; its failures are
  -- those of the other inputs, in order and one for each of them alone.
  pub run_isolates :
      (inputs : List Input) (config : Config) (w : World)
      → config.disable_bisect ≡ false
      → (let all = indexed (tokens_for (with_defaults llms config).estimate) 0 inputs in
          (r : RunResult llms) × (run llms inputs config w ≡ some (r, none))
          × Sorted llms (keep (is_good llms poison) all) (keep (is_bad llms poison) all) r)
  unfolding run finish with_defaults
  run_isolates inputs config w bisects =
      let cfg = with_defaults llms config in
      let tokens = tokens_for cfg.estimate in
      let all = indexed tokens 0 inputs in
      let n = length inputs in
      let valid = keep (is_valid llms) all in
      let (listed, invalid) = validate_all-indexed llms tokens 0 inputs [] [] in
      let fs = (validate_all llms tokens 0 inputs [] []).0 in
      let start : State llms = record { records = []; failures = fs; world = w } in
      let batches =
        pack_batches (validate_all llms tokens 0 inputs [] []).1 cfg.max_inputs cfg.max_tokens in
      let kept : concat batches ≡ valid =
        concat-pack_batches (validate_all llms tokens 0 inputs [] []).1 cfg.max_inputs
          cfg.max_tokens
        ∙ listed in
      let asc = indexed-Ascending tokens 0 inputs in
      let good : keep (is_clean poison) valid ≡ keep (is_good llms poison) all =
        keep-keep (is_clean poison) (is_valid llms) all in
      let (st, returns, h) =
        embed_all-Isolates cfg bisects 0 batches start
          (subst (Ascending 0) (sym kept) (Ascending-keep (is_valid llms) 0 all asc)) in
      let h' : Isolated llms (keep (is_good llms poison) all) (keep (is_poison poison) valid) start
          st =
        subst (λ g. Isolated llms g (keep (is_poison poison) valid) start st) good
          (subst (λ l. IsolatedBatch llms poison l start st) kept h) in
      rw (returns, run)
        (
          assemble llms n st.records st.failures,
          refl,
          assemble-Sorted llms n _ _ _ start st refl h'
              (Ascending-keep (is_good llms poison) 0 all asc)
              (keep-IsBounded (is_good llms poison) n all
                (indexed-IsBounded tokens 0 n inputs (omega arith)))
              (ap (sort_pairs []) (
                  h'.failures_are
                  ∙ ap (λ l. l ++ map alone (keep (is_poison poison) valid)) invalid)
                ∙ sort-bad llms poison 0 all asc),
        )
