-- ===== src/Embed/Batch/Accounts.antt =====
-- The accounts of a batch: which of its items end up in records and which in failures.
use mathlib.Core.List.{Perm, perm_append_comm, append-nil, append_assoc, map-append}
use mathlib.Core.List.Perm
use mathlib.Core.Path.{ap₂, transport}
use maestro_cms.Prelude.{
  ℕ, ◌≡◌, refl, ◌⊎◌, true, sym, ap, ◌∙◌, subst, some, List, [], ◌∷◌, ◌++◌, map,
}
use maestro_cms.Text.{Bytes, bytes_eq}
use maestro_cms.Embed.RequestId.{request_id}
use maestro_cms.Embed.Defs.{
  Llms, IndexedInput, Input, EmbeddingInput, EmbeddingRequest, Embedded, PosFailure, State, Failure,
  vectors,
}
use maestro_cms.Embed.Batch.{lookup_id, add_batch_failure, record_of}

module _ {ℓ} {A : Type ℓ} where
  -- Two lists that are each in two parts, regrouped.
  pub perm_regroup : (a b c d : List A) → Perm ((a ++ b) ++ (c ++ d)) ((a ++ c) ++ (b ++ d))
  perm_regroup a b c d =
      let inner : Perm ((b ++ c) ++ d) ((c ++ b) ++ d) =
        Perm.append_right d (perm_append_comm b c) in
      let shifted : Perm (b ++ (c ++ d)) (c ++ (b ++ d)) =
        transport (ap₂ Perm (append_assoc b c d) (append_assoc c b d)) inner in
      transport (ap₂ Perm (sym (append_assoc a b (c ++ d))) (sym (append_assoc a c (b ++ d))))
        (Perm.append_left a shifted)

  perm_merge :
      (i r b e i' r' c e' : List A)
      → Perm (i ++ r) (b ++ e)
      → Perm (i' ++ r') (c ++ e')
      → Perm ((i' ++ i) ++ (r ++ r')) ((b ++ c) ++ (e ++ e'))
  perm_merge i r b e i' r' c e' p q =
      Perm.trans (Perm.append_right (r ++ r') (perm_append_comm i' i))
        (Perm.trans (perm_regroup i i' r r') (Perm.trans (Perm.append p q) (perm_regroup b e c e')))

-- Every requested input has a vector with its id.
abbrev pub AllFound : {V : Type 0} → List (Bytes × V) → List EmbeddingInput → Type 0
AllFound {V} vs [] = Unit
AllFound {V} vs (i ∷ inputs) = ((v : V) × (lookup_id i.id vs ≡ some v)) × AllFound vs inputs

-- All elements of a list have the property.
abbrev pub AllOf : {A : Type 0} → (A → Type 0) → List A → Type 0
AllOf P [] = Unit
AllOf P (x ∷ xs) = P x × AllOf P xs

pub AllOf-append :
    {A : Type 0} (P : A → Type 0) (xs ys : List A) → AllOf P xs → AllOf P ys → AllOf P (xs ++ ys)
AllOf-append P [] ys h k = k
AllOf-append P (x ∷ xs) ys (first, h) k = (first, AllOf-append P xs ys h k)

-- A vector stands in a response under the id.
abbrev pub Listed : {V : Type 0} → Bytes → V → List (Bytes × V) → Type 0
Listed id v [] = ⊥
Listed id v ((k, x) ∷ vs) = ((bytes_eq k id ≡ true) × (v ≡ x)) ⊎ Listed id v vs

module _ (llms : Llms) where
  open llms use {Vector, World, ClientError, embed}

  -- The client returns a vector for every requested id.
  abbrev pub Answers : Type 0
  Answers =
      (req : EmbeddingRequest) (w : World) (vs : List (Bytes × Vector))
      → (embed req w).0 ≡ vectors vs
      → AllFound vs req.inputs

  -- The inputs that the failures report, one after the other.
  abbrev pub failed_inputs : List (PosFailure llms) → List Input
  failed_inputs [] = []
  failed_inputs (p ∷ ps) = p.failure.inputs ++ failed_inputs ps

  pub failed_inputs-append :
      (ps qs : List (PosFailure llms))
      → failed_inputs (ps ++ qs) ≡ failed_inputs ps ++ failed_inputs qs
  failed_inputs-append [] qs = refl
  failed_inputs-append (p ∷ ps) qs =
      ap (λ l. p.failure.inputs ++ l) (failed_inputs-append ps qs)
      ∙ sym (append_assoc p.failure.inputs (failed_inputs ps) (failed_inputs qs))

  abbrev pub Embedding : Type 0
  Embedding = IndexedInput × Vector

  abbrev pub items_of : List Embedding → List IndexedInput
  items_of es = map (λ e. e.0) es

  abbrev pub inputs_of : List IndexedInput → List Input
  inputs_of items = map (λ it. it.input) items

  -- The entry of `recordsByPos` for an item and its vector.
  abbrev pub entry : Embedding → ℕ × Embedded llms
  entry e = (e.0.at, record_of llms e.0 e.1)

  -- The vector was in a response of the client, under the id of the item.
  abbrev pub FromClient : Embedding → Type 0
  FromClient e =
      (req : EmbeddingRequest) × (w : World) × (vs : List (Bytes × Vector)) × ((embed req w).0
        ≡ vectors vs)
      × Listed (request_id e.0.at) e.1 vs

  -- From `st` to `st'` the items were recorded (`embedded`) or reported as failed (`refused`), each
  -- once, but for those in `extra`, which are in both lists. A client that answers leaves none there.
  -- No item is recorded twice: the recorded ones are a part of the batch, and `left` is the other part.
  pub record Accounts (batch : List IndexedInput) (st st' : State llms) : Type 0 where
    pub embedded : List Embedding
    pub refused : List IndexedInput
    pub extra : List IndexedInput
    pub records_are : st'.records ≡ map entry embedded ++ st.records
    pub failures_are : failed_inputs st'.failures ≡ failed_inputs st.failures ++ inputs_of refused
    pub all_in : Perm (items_of embedded ++ refused) (batch ++ extra)
    pub from_client : AllOf FromClient embedded
    pub left : List IndexedInput
    pub inside : Perm (items_of embedded ++ left) batch
    pub extra_none : Answers → extra ≡ []

  pub Accounts-trans :
      (b c : List IndexedInput) (st st' st'' : State llms)
      → Accounts b st st'
      → Accounts c st' st''
      → Accounts (b ++ c) st st''
  Accounts-trans b c st st' st'' x y = record {
    embedded = y.embedded ++ x.embedded;
    refused = x.refused ++ y.refused;
    extra = x.extra ++ y.extra;
    records_are =
        y.records_are
        ∙ ap (λ l. map entry y.embedded ++ l) x.records_are
        ∙ sym (append_assoc (map entry y.embedded) (map entry x.embedded) st.records)
        ∙ ap (λ l. l ++ st.records) (sym (map-append _ _ _));
    failures_are =
        y.failures_are
        ∙ ap (λ l. l ++ inputs_of y.refused) x.failures_are
        ∙ append_assoc (failed_inputs st.failures) (inputs_of x.refused) (inputs_of y.refused)
        ∙ ap (λ l. failed_inputs st.failures ++ l) (sym (map-append _ _ _));
    all_in = rw (map-append (λ (e : Embedding). e.0) y.embedded x.embedded) (
        perm_merge (items_of x.embedded) x.refused b x.extra (items_of y.embedded) y.refused c
          y.extra x.all_in y.all_in);
    from_client = AllOf-append FromClient y.embedded x.embedded y.from_client x.from_client;
    left = x.left ++ y.left;
    inside =
        let p : Perm ((items_of y.embedded ++ items_of x.embedded) ++ (x.left ++ y.left))
            ((b ++ c) ++ ([] ++ [])) =
          perm_merge (items_of x.embedded) x.left b [] (items_of y.embedded) y.left c []
            (rw append-nil x.inside) (rw append-nil y.inside) in
        rw (map-append (λ (e : Embedding). e.0) y.embedded x.embedded)
          (subst (Perm _) (append-nil (b ++ c)) p);
    extra_none = λ answers. rw (x.extra_none answers) (y.extra_none answers);
  }

  -- A failure of the whole batch.
  pub add_batch_failure-Accounts :
      (batch : List IndexedInput) (err : Failure ClientError) (can_retry : _) (st : State llms)
      → Accounts batch st (add_batch_failure llms batch err can_retry st)
  unfolding add_batch_failure
  add_batch_failure-Accounts batch err can_retry st = record {
    embedded = [];
    refused = batch;
    extra = [];
    records_are = refl;
    failures_are =
        failed_inputs-append st.failures _
        ∙ ap (λ l. failed_inputs st.failures ++ l) (append-nil (inputs_of batch));
    all_in = rw append-nil (Perm.refl batch);
    from_client = tt;
    left = batch;
    inside = Perm.refl batch;
    extra_none = λ _. refl;
  }
