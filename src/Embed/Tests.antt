-- ===== src/Embed/Tests.antt =====
-- The runner's theorems at concrete inputs.
use maestro_cms.Prelude.{
  ℕ, ◌+◌, ◌*◌, ◌/◌, ◌≡◌, refl, Bool, true, false, Option, none, some, List, [], ◌∷◌, arith, length,
  map, ltb, if◌then◌else◌, ◌==◌,
}
use maestro_cms.Prelude.Int.{pos}
use maestro_cms.Text.{codes}
use maestro_cms.Embed.Defs.{
  Input, IndexedInput, EmbeddingInput, Llms, Config, State, with_defaults, tokens_for, RunResult,
  RunError, vectors, failed,
}
use maestro_cms.Embed.Batches.{pack_batches}
use maestro_cms.Embed.Batches.Limits.{concat, AllWithin, pack_batches_lem}
use maestro_cms.Embed.Batch.{embed_batch}
use maestro_cms.Embed.Batch.Bisect.{Returns, embed_batch-Returns}
use maestro_cms.Embed.Run.{run}
use maestro_cms.Chunk.Defs as ChunkDefs
use maestro_cms.Chunk.Defs.{Chunk}
use maestro_cms.Chunk.Hard.{Float64}
use maestro_cms.Chunk.Split.{split}
use maestro_cms.Embed.Pipeline.{Origin, input_of, embeds, left_out, recorded, content, split_run}
use maestro_cms.Embed.Fake.{FakeEmbedder, Calls, FakeError, fake_client, fake_run}
use maestro_cms.Embed.Run.Accounts.{IsAccountOf, run-IsAccountOf}
use maestro_cms.Embed.Poison.{has_poison, keep, IsPoisoned}
use maestro_cms.Embed.Poison.Fake.{fake_client-IsPoisoned}
use maestro_cms.Embed.Poison.Inputs.{indexed}
use maestro_cms.Embed.Poison.Run.{is_good, is_bad, Sorted, run_isolates}

abbrev passage : Input
passage = record {
  source_id = codes "s";
  artifact_id = codes "a";
  chunk = record {
    index = pos 0;
    text = codes "ab";
    start_byte = 0;
    end_byte = 2;
    token_count = pos 1;
  };
  title = [];
  metadata = none;
}

abbrev item : ℕ → ℕ → IndexedInput
item at tokens = record { at = at; input = passage; tokens = tokens }

abbrev items : List IndexedInput
items = item 0 2 ∷ item 1 9 ∷ item 2 1 ∷ item 3 1 ∷ item 4 1 ∷ []

pack_batches_lem_example :
    (concat (pack_batches items 2 4) ≡ items) × AllWithin 2 4 (pack_batches items 2 4)
pack_batches_lem_example = pack_batches_lem items 2 4 (omega arith)

-- A client that refuses requests of more than one input, and counts its calls.
abbrev one_by_one : Llms
one_by_one = record {
  World = ℕ;
  Vector = ℕ;
  ModelRef = ℕ;
  ClientError = Bool;
  ContextError = Bool;
  ctx_err = λ w. (none, w);
  embed = λ req w. (
    elim req.inputs [
      | [] ↦ vectors []
      | i ∷ more ↦ elim more [ [] ↦ vectors ((i.id, w) ∷ []) | j ∷ js ↦ failed false ]
    ],
    w + 1,
  );
  model = 1;
  is_canceled = λ e. e;
  retryable = λ e. false;
  estimate_text_tokens = λ t. length t;
  purpose_embedding = codes "embedding";
}

abbrev config : Config
config = record {
  max_batch_inputs = pos 2;
  max_batch_tokens = pos 4;
  estimate = none;
  task = [];
  purpose = [];
  dimensions = pos 0;
  disable_bisect = false;
}

abbrev start : State one_by_one
start = record { records = []; failures = []; world = 0 }

embed_batch-Returns_example :
    Returns one_by_one items start
      (embed_batch one_by_one (with_defaults one_by_one config) 6 items start)
embed_batch-Returns_example =
    embed_batch-Returns one_by_one (with_defaults one_by_one config) 6 items start (omega arith)

run-IsAccountOf_example :
    (r : RunResult one_by_one × Option (RunError Bool Bool)) × (run one_by_one
        (passage ∷ passage ∷ [])
        config
        0
      ≡ some r)
    × IsAccountOf one_by_one
        (indexed (tokens_for (with_defaults one_by_one config).estimate) 0 (passage ∷ passage ∷ []))
        r
run-IsAccountOf_example = run-IsAccountOf one_by_one (passage ∷ passage ∷ []) config 0

-- A fake that refuses requests of more than one input.
abbrev refusing : FakeEmbedder Unit ℕ ℕ Bool
refusing = record {
  model_ref = none;
  dims = pos 3;
  fail_func = some (λ req w. ((if ltb 1 (length req.inputs) then some true else none), w));
  corrupt = none;
}

abbrev fake_llms : Llms
fake_llms =
    fake_client (λ (w : Unit). (none, w)) (λ n. n) length 7 refusing
      (λ (e : FakeError Bool Bool). false) (λ e. true) (codes "embedding")

abbrev no_calls : Calls
no_calls = record { call_count = 0; requests = [] }

fake_run_example :
    (r : RunResult fake_llms × Option (RunError (FakeError Bool Bool) Bool)) × (run fake_llms
        (passage ∷ passage ∷ [])
        config
        (tt, no_calls)
      ≡ some r)
    × (account : IsAccountOf fake_llms
        (indexed (tokens_for (with_defaults fake_llms config).estimate) 0 (passage ∷ passage ∷ []))
        r)
    × (account.extra ≡ [])
fake_run_example =
    fake_run (λ (w : Unit). (none, w)) (λ n. n) length 7 refusing
      (λ (e : FakeError Bool Bool). false) (λ e. true) (codes "embedding") (passage ∷ passage ∷ [])
      config (tt, no_calls) refl

-- A fake that refuses the requests with a text of one byte.
abbrev is_short : EmbeddingInput → Bool
is_short i = length i.text == 1

abbrev allergic : FakeEmbedder Unit ℕ ℕ Bool
allergic = record {
  model_ref = none;
  dims = pos 3;
  fail_func = some (λ req w. ((if has_poison is_short req.inputs then some true else none), w));
  corrupt = none;
}

abbrev allergic_llms : Llms
allergic_llms =
    fake_client (λ (w : Unit). (none, w)) (λ n. n) length 7 allergic
      (λ (e : FakeError Bool Bool). false) (λ e. true) (codes "embedding")

abbrev allergic_IsPoisoned : IsPoisoned allergic_llms is_short
allergic_IsPoisoned =
    fake_client-IsPoisoned (λ (w : Unit). (none, w)) (λ n. n) length 7 allergic is_short true
      (λ (e : FakeError Bool Bool). false) (λ e. true) (codes "embedding") refl (λ req w. refl)
      (λ w. refl) refl

abbrev short_passage : Input
short_passage = record passage {
  chunk = record {
    index = pos 1;
    text = codes "c";
    start_byte = 2;
    end_byte = 3;
    token_count = pos 1;
  };
}

abbrev mixed : List Input
mixed = passage ∷ short_passage ∷ passage ∷ []

run_isolates_example :
    (let all = indexed (λ i. 1) 0 mixed in
      (r : RunResult allergic_llms) × (run allergic_llms mixed config (tt, no_calls)
        ≡ some (r, none))
      × Sorted allergic_llms
          (keep (is_good allergic_llms is_short) all)
          (keep (is_bad allergic_llms is_short) all)
          r)
unfolding tokens_for
run_isolates_example =
    run_isolates allergic_llms is_short allergic_IsPoisoned mixed config (tt, no_calls) refl

-- Exact fractions in place of `float64`.
abbrev quotients : Float64
quotients = record {
  F = ℕ × ℕ;
  of_int = λ n. (n, 1);
  to_int = λ q. q.0 / q.1;
  div = λ p q. (p.0 * q.1, p.1 * q.0);
  mul = λ p q. (p.0 * q.0, p.1 * q.1);
}

abbrev small_chunks : ChunkDefs.Config
small_chunks = record {
  max_tokens = pos 3;
  overlap_tokens = pos 0;
  no_overlap = true;
  estimate = none;
  boundaries = none;
}

abbrev notes : Origin
notes = record { source_id = codes "s"; artifact_id = codes "a"; title = []; metadata = none }

split_run_example :
    (chunks : List Chunk) × (split quotients small_chunks (codes "one two three four\n\nx")
      ≡ some chunks)
    × (r : RunResult allergic_llms) × (run allergic_llms
          (map (input_of notes) chunks)
          config
          (tt, no_calls)
        ≡ some (r, none))
    × (map recorded r.records ≡ map content (keep (embeds (λ t. length t == 1)) chunks))
    × (map (λ b. b.inputs) r.failures
        ≡ map (λ c. input_of notes c ∷ []) (keep (left_out (λ t. length t == 1)) chunks))
split_run_example =
    split_run allergic_llms (λ t. length t == 1) allergic_IsPoisoned quotients small_chunks
      (codes "one two three four\n\nx") notes config (tt, no_calls) (λ e. cc) (λ e. cc) refl
