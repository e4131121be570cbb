-- ===== src/Chunk/Pack.antt =====
-- chunk/chunk.go: the packing loops over the token counts of the units, `growChunk` and
-- `overlapStart`. chunk/codesplit.go repeats the first in `splitFenced` and `splitLines`.
pub mod Grow
pub mod Overlap
use maestro_cms.Prelude.{
  ℕ, zero, suc, ◌+◌, ◌-◌, Bool, List, [], ◌∷◌, leb, if◌then◌else◌, get_or, drop,
}

-- `unitTok[i]`
abbrev pub tok_at : List ℕ → ℕ → ℕ
tok_at tok i = get_or tok i 0

-- The loop of `growChunk`: the list is `unitTok[j+1:]`.
pub grow_from : List ℕ → ℕ → ℕ → ℕ → ℕ × ℕ
grow_from [] j sum max_tok = (j, sum)
grow_from (t ∷ rest) j sum max_tok =
    let more = grow_from rest (j + 1) (sum + t) max_tok in
    if leb (sum + t) max_tok then more else (j, sum)

unfoldable pub grow_chunk : List ℕ → ℕ → ℕ → ℕ × ℕ
unfolding grow_from
grow_chunk tok i max_tok = grow_from (drop (i + 1) tok) i (tok_at tok i) max_tok

-- The loop of `overlapStart`, with `n = ov - 1 - i` units left to walk back over.
pub walk_back : List ℕ → ℕ → ℕ → ℕ → ℕ → ℕ
walk_back tok i overlap_tok zero ov_sum = i + 1
walk_back tok i overlap_tok (suc n) ov_sum =
    let more = walk_back tok i overlap_tok n (ov_sum + tok_at tok (i + 1 + n)) in
    if leb (ov_sum + tok_at tok (i + 1 + n)) overlap_tok then more else i + 1 + (n + 1)

unfoldable pub overlap_start : List ℕ → ℕ → ℕ → ℕ → ℕ
unfolding walk_back
overlap_start tok i j overlap_tok =
    if leb overlap_tok 0 then j + 1 else walk_back tok i overlap_tok (j - i) 0
