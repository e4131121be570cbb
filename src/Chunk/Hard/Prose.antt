-- ===== src/Chunk/Hard/Prose.antt =====
-- chunk/chunk.go: `hardSplitProse`.
use maestro_cms.Prelude.{
  ℕ, zero, suc, ◌+◌, ◌-◌, Option, none, some, ltb, leb, if◌then◌else◌, length, slice, max,
}
use maestro_cms.Text.{Bytes}
use maestro_cms.Chunk.Defs.{Estimate, Out, append_chunk}
use maestro_cms.Chunk.Cuts.{find_boundary, snap_end, snap_start}
use maestro_cms.Chunk.Hard.{Float64}

-- The end of the chunk at `pos`.
unfoldable pub cut_end : Bytes → ℕ → ℕ → ℕ → ℕ
cut_end text end target at =
    let e = at + target in snap_end text at (if leb end e then end else find_boundary text at e)

-- The start of the chunk behind `[at, e)`.
unfoldable pub next_start : Bytes → ℕ → ℕ → ℕ → ℕ
next_start text overlap at e =
    let next = e - overlap in snap_start text (if leb next at then at + 1 else next)

-- The loop, on fuel: each round moves forward by a byte at least. Go's `e - overlap` may be
-- negative; so it is at most `pos`, as 0 is here.
unfoldable pub prose_loop : ℕ → Bytes → Estimate → ℕ → ℕ → ℕ → ℕ → Out → Option Out
prose_loop zero text est end target overlap at out = none
prose_loop (suc f) text est end target overlap at out =
    let e = cut_end text end target at in
    let out' = append_chunk text at e (est (slice text at e)) out in
    let on = prose_loop f text est end target overlap (next_start text overlap at e) out' in
    if ltb at end then (if leb end e then some out' else on) else some out

module _ (float : Float64) where
  open float use {of_int, to_int, div, mul}

  -- `int(float64(tokens) * bytesPerToken)`
  unfoldable pub byte_window : ℕ → ℕ → ℕ → ℕ
  byte_window tokens len total = to_int (mul (of_int tokens) (div (of_int len) (of_int total)))

  unfoldable pub hard_split_prose : Bytes → Estimate → ℕ → ℕ → ℕ → ℕ → Out → Option Out
  unfolding byte_window
  hard_split_prose text est max_tok overlap_tok start end out =
      let span = slice text start end in
      let total = max (est span) 1 in
      let target = max (byte_window max_tok (length span) total) 1 in
      let overlap = max (byte_window overlap_tok (length span) total) 0 in
      prose_loop (end - start + 1) text est end target overlap start out
