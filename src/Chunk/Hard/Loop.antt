-- ===== src/Chunk/Hard/Loop.antt =====
-- chunk/chunk.go and chunk/codesplit.go: the loop that packs regions (units, fenced groups or
-- lines), with the handler of a region that exceeds the budget as an argument.
use maestro_cms.Prelude.{
  ℕ, zero, suc, ◌+◌, ◌-◌, Option, none, some, List, ltb, leb, ◌==◌, if◌then◌else◌, length, get_or,
}
use maestro_cms.Text.{Bytes}
use maestro_cms.Chunk.Defs.{Region, Out, append_chunk}
use maestro_cms.Chunk.Pack.{tok_at, grow_chunk, overlap_start}

abbrev pub region_at : List Region → ℕ → Region
region_at regions i = get_or regions i (record { start = 0; end = 0 })

infixl 5 ◌>>=◌
abbrev pub ◌>>=◌ {ℓ} : {A B : Type ℓ} → Option A → (A → Option B) → Option B
none >>= f = none
some a >>= f = f a

module _ (text : Bytes) (regions : List Region) (tok : List ℕ) (max_tok overlap_tok : ℕ) where
  -- The chunk of the regions that `growChunk` packs from `i`, appended.
  unfoldable pub pack_chunk : ℕ → Out → Out
  pack_chunk i out =
      let (j, sum) = grow_chunk tok i max_tok in
      append_chunk text (region_at regions i).start (region_at regions j).end sum out

  -- The loop at region `i`, on fuel: `i` grows in each round.
  unfoldable pub pack_loop : (ℕ → Out → Option Out) → ℕ → ℕ → Out → Option Out
  pack_loop oversize zero i out = none
  pack_loop oversize (suc f) i out =
      let split = oversize i out >>= λ out'. pack_loop oversize f (i + 1) out' in
      let j = (grow_chunk tok i max_tok).0 in
      let out' = pack_chunk i out in
      let on = pack_loop oversize f (overlap_start tok i j overlap_tok) out' in
      if leb (length tok) i
      then some out
      else if ltb max_tok (tok_at tok i)
      then split
      else if j == length tok - 1
      then some out'
      else on
