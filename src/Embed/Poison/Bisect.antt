-- ===== src/Embed/Poison/Bisect.antt =====
-- The bisection of `embedBatch` with a client that refuses poison inputs: it ends with a record for
-- every other input and a failure for each poison input alone.
use mathlib.Core.List.{append_assoc, append-nil, reverse-append, map-append}
use maestro_cms.Prelude.{
  ℕ, zero, suc, ◌/◌, ◌≤◌, ◌<◌, ◌≡◌, refl, sym, ap, ◌∙◌, subst, Bool, true, false, if◌then◌else◌,
  Option, none, some, List, [], ◌∷◌, ◌++◌, map, reverse, arith, inl, inr, ltb, Bool-cases, length,
  length-take, length-drop, take-drop, take, drop,
}
use maestro_cms.Text.{Bytes}
use maestro_cms.Embed.Defs.{
  Llms, Settings, IndexedInput, EmbeddingInput, Input, PosFailure, State, Outcome, done,
  batch_failed,
}
use maestro_cms.Embed.Batch.{
  add_batch_failure, min_pos, handle_response, handle_error, and_then, request_of, embed_batch,
}
use maestro_cms.Embed.Batch.Accounts.{Embedding, items_of, entry}
use maestro_cms.Embed.Poison.{
  Ascending, Ascending-left, Ascending-right, keep, keep-append, keep-clean, has_poison, is_poison,
  is_clean, requests, IsPoisoned,
}
use maestro_cms.Embed.Poison.Response.{Served, handle_response-Served}

-- A failure of one item: its position and its input.
abbrev pub alone : IndexedInput → ℕ × List Input
alone it = (it.at, it.input ∷ [])

module _ (llms : Llms) where
  open llms use {World, ClientError}

  -- The positions and the inputs of the failures.
  abbrev pub blamed : List (PosFailure llms) → List (ℕ × List Input)
  blamed ps = map (λ p. (p.at, p.failure.inputs)) ps

  -- From `st` to `st'` the good items were recorded, in order, and each bad item failed alone.
  pub record Isolated (good bad : List IndexedInput) (st st' : State llms) : Type 0 where
    pub embedded : List (Embedding llms)
    pub items : items_of llms embedded ≡ good
    pub records_are : st'.records ≡ reverse (map (entry llms) embedded) ++ st.records
    pub failures_are : blamed st'.failures ≡ blamed st.failures ++ map alone bad

  pub Isolated-world :
      (good bad : List IndexedInput) (st st' : State llms) (w : World)
      → Isolated good bad (record st { world = w }) st'
      → Isolated good bad st st'
  Isolated-world good bad st st' w h = record {
    embedded = h.embedded;
    items = h.items;
    records_are = h.records_are;
    failures_are = h.failures_are;
  }

  pub Isolated-trans :
      (g b g' b' : List IndexedInput) (st st' st'' : State llms)
      → Isolated g b st st'
      → Isolated g' b' st' st''
      → Isolated (g ++ g') (b ++ b') st st''
  Isolated-trans g b g' b' st st' st'' x y = record {
    embedded = x.embedded ++ y.embedded;
    items =
        map-append _ x.embedded y.embedded
        ∙ ap (λ l. l ++ items_of llms y.embedded) x.items
        ∙ ap (λ l. g ++ l) y.items;
    records_are =
        y.records_are
        ∙ ap (λ l. reverse (map (entry llms) y.embedded) ++ l) x.records_are
        ∙ sym (append_assoc (reverse (map (entry llms) y.embedded)) _ st.records)
        ∙ ap (λ l. l ++ st.records)
            (sym (reverse-append (map (entry llms) x.embedded) (map (entry llms) y.embedded)))
        ∙ ap (λ l. reverse l ++ st.records) (sym (map-append (entry llms) x.embedded y.embedded));
    failures_are =
        y.failures_are
        ∙ ap (λ l. l ++ map alone b') x.failures_are
        ∙ append_assoc (blamed st.failures) (map alone b) (map alone b')
        ∙ ap (λ l. blamed st.failures ++ l) (sym (map-append alone b b'));
  }

  Served-Isolated :
      (batch : List IndexedInput) (st st' : State llms)
      → Served llms batch st st'
      → Isolated batch [] st st'
  Served-Isolated batch st st' h = record {
    embedded = h.embedded;
    items = h.items;
    records_are = h.records_are;
    failures_are = ap blamed h.same_failures ∙ sym (append-nil _);
  }

module _ (llms : Llms) (poison : EmbeddingInput → Bool) where
  open llms use {World, ClientError, ctx_err, embed, retryable}

  -- What the client and the bisection make of a batch.
  abbrev pub IsolatedBatch : List IndexedInput → State llms → State llms → Type 0
  IsolatedBatch batch = Isolated llms (keep (is_clean poison) batch) (keep (is_poison poison) batch)

  abbrev pub Isolates : List IndexedInput → State llms → Option (Outcome llms) → Type 0
  Isolates batch st m = (st' : State llms) × (m ≡ some (done st')) × IsolatedBatch batch st st'

  clean-Isolates :
      (lo : ℕ) (batch : List IndexedInput) (vs : List (Bytes × llms.Vector)) (st : State llms)
      → Ascending lo batch
      → has_poison poison (requests batch) ≡ false
      → map (λ v. v.0) vs ≡ map (λ i. i.id) (requests batch)
      → IsolatedBatch batch st (handle_response llms batch vs st)
  clean-Isolates lo batch vs st h clean e =
      let (all, nothing) = keep-clean poison batch clean in
      rw (all, nothing)
        (Served-Isolated llms batch st (handle_response llms batch vs st)
          (handle_response-Served llms lo batch vs st h e))

  -- A batch of one poison input fails with its own position.
  single-Isolates :
      (batch : List IndexedInput) (e : ClientError) (st : State llms)
      → length batch ≤ 1
      → has_poison poison (requests batch) ≡ true
      → IsolatedBatch batch st
          (add_batch_failure llms batch (batch_failed (length batch) e) (retryable e) st)
  unfolding add_batch_failure min_pos keep
  single-Isolates [] e st one poisoned = cc
  single-Isolates (it ∷ []) e st one poisoned =
      let bad : is_poison poison it ≡ true = ground arith in
      let own : (if ltb it.at it.at then it.at else it.at) ≡ it.at = ground arith in
      rw bad (record {
        embedded = [];
        items = refl;
        records_are = refl;
        failures_are =
            map-append (λ (p : PosFailure llms). (p.at, p.failure.inputs)) st.failures _
            ∙ ap (λ (k : ℕ). blamed llms st.failures ++ (k, it.input ∷ []) ∷ []) own;
      })
  single-Isolates (it ∷ it' ∷ batch) e st one poisoned = absurd (omega arith)

  pub and_then-Isolates :
      (b c : List IndexedInput) (st : State llms) (first : Option (Outcome llms))
      (second : State llms → Option (Outcome llms))
      → Isolates b st first
      → ((st' : State llms) → Isolates c st' (second st'))
      → Isolates (b ++ c) st (and_then llms first second)
  unfolding and_then
  and_then-Isolates b c st first second (st', returns, h) next =
      let (st'', returns', h') = next st' in
      rw (returns, returns', keep-append (is_clean poison) b c, keep-append (is_poison poison) b c)
        (st'', refl, Isolated-trans llms _ _ _ _ st st' st'' h h')

  module _ (client : IsPoisoned llms poison) (cfg : Settings)
      (bisects : cfg.disable_bisect ≡ false) where
    -- A refused batch: it is bisected, or it is one poison input.
    refused-Isolates :
        (batch : List IndexedInput) (e : ClientError) (st : State llms)
        (bisect : State llms → Option (Outcome llms))
        → llms.is_canceled e ≡ false
        → has_poison poison (requests batch) ≡ true
        → ((st' : State llms) → 1 < length batch → Isolates batch st' (bisect st'))
        → Isolates batch st (handle_error llms cfg batch e st bisect)
    unfolding handle_error
    refused-Isolates batch e st bisect called poisoned halves =
        let checked : State llms = record st { world = (ctx_err st.world).1 } in
        let alive : (ctx_err st.world).0 ≡ none = client.alive st.world in
        elim (Bool-cases (ltb 1 (length batch))) [
          | inl many ↦
              let (st', returns, h) = halves checked (ground arith) in
              rw (alive, called, bisects, many, handle_error)
                (st', returns, Isolated-world llms _ _ st st' (ctx_err st.world).1 h)
          | inr single ↦
              rw (alive, called, bisects, single, handle_error)
                (
                  _,
                  refl,
                  Isolated-world llms _ _ st _ (ctx_err st.world).1
                      (single-Isolates batch e checked (ground arith) poisoned),
                )
        ]

    -- The bisection isolates the poison: `embedBatch` with fuel for more than the batch's length ends,
    -- not canceled, having recorded the other items of the batch in order, each with a vector, and
    -- having reported each poison item in a failure of its own, with its position.
    pub embed_batch-Isolates :
        (f lo : ℕ) (batch : List IndexedInput) (st : State llms)
        → length batch < f
        → Ascending lo batch
        → Isolates batch st (embed_batch llms cfg f batch st)
    unfolding embed_batch request_of
    embed_batch-Isolates zero lo batch st h asc = absurd (omega arith)
    embed_batch-Isolates (suc f) lo batch st h asc =
        let req = request_of llms cfg batch in
        let w = (embed req st.world).1 in
        let called : State llms = record st { world = w } in
        let mid = length batch / 2 in
        let front = take mid batch in
        let back = drop mid batch in
        let parts : Ascending lo (front ++ back) =
          subst (Ascending lo) (sym (take-drop mid batch)) asc in
        elim (Bool-cases (has_poison poison (requests batch))) [
          | inr clean ↦
              let (vs, answer, e) = client.serves req st.world clean in
              rw (answer, embed_batch)
                (
                  _,
                  refl,
                  Isolated-world llms _ _ st _ w (clean-Isolates lo batch vs called asc clean e),
                )
          | inl poisoned ↦
              let (err, error, not_canceled) = client.refuses req st.world poisoned in
              let (st', returns, isolated) =
                refused-Isolates batch err called _ not_canceled poisoned (λ st' two.
                  subst
                    (λ l. Isolates l st' (
                      and_then llms (embed_batch llms cfg f front st')
                        (λ st''. embed_batch llms cfg f back st'')))
                    (take-drop mid batch)
                    (and_then-Isolates front back st' _ _
                      (embed_batch-Isolates f lo front st'
                        (omega (arith, length-take mid batch (omega arith)))
                        (Ascending-left lo front back parts))
                      (λ st''.
                        embed_batch-Isolates f lo back st'' (omega (arith, length-drop mid batch))
                          (Ascending-right lo front back parts)))) in
              rw (error, embed_batch) (st', returns, Isolated-world llms _ _ st st' w isolated)
        ]
