-- ===== src/Embed/Batches.antt =====
-- embed/embed.go: `packBatches`. The sum of the token counts wraps around as Go's `int` does. The two
-- `make` calls are left out: with a `MaxBatchInputs` near the largest `int` they panic.
pub mod Limits
use maestro_cms.Prelude.{
  ℕ, zero, suc, ◌+◌, Bool, ◌&&◌, ◌||◌, List, [], ◌∷◌, ◌++◌, ltb, leb, if◌then◌else◌, length,
  nonempty,
}
use maestro_cms.Prelude.Int.{add64, above64}
use maestro_cms.Embed.Defs.{IndexedInput}

-- The test that closes the current batch before the next item.
abbrev pub must_flush : ℕ → ℕ → List IndexedInput → ℕ → IndexedInput → Bool
must_flush max_inputs max_tokens cur cur_tok it =
    nonempty cur && (leb max_inputs (length cur) || above64 (add64 cur_tok it.tokens) max_tokens)

-- The loop, with its variables `batches`, `cur` and `curTok`.
unfoldable pub pack_from :
    ℕ
    → ℕ
    → List IndexedInput
    → List (List IndexedInput)
    → List IndexedInput
    → ℕ
    → List (List IndexedInput)
pack_from max_inputs max_tokens [] batches cur cur_tok =
    if nonempty cur then batches ++ cur ∷ [] else batches
pack_from max_inputs max_tokens (it ∷ items) batches cur cur_tok =
    let flushed = pack_from max_inputs max_tokens items (batches ++ cur ∷ []) (it ∷ []) it.tokens in
    let kept =
      pack_from max_inputs max_tokens items batches (cur ++ it ∷ []) (add64 cur_tok it.tokens) in
    if must_flush max_inputs max_tokens cur cur_tok it then flushed else kept

unfoldable pub pack_batches : List IndexedInput → ℕ → ℕ → List (List IndexedInput)
pack_batches items max_inputs max_tokens = pack_from max_inputs max_tokens items [] [] 0
