-- ===== src/Chunk/Hard/Fenced.antt =====
-- chunk/codesplit.go: the code-aware hard split, on line boundaries with fenced blocks kept whole.
use maestro_cms.Prelude.{
  ℕ, zero, suc, ◌+◌, ◌-◌, Bool, true, false, Option, none, some, List, [], ◌∷◌, ◌++◌, leb,
  if◌then◌else◌, length, slice, map, get_or,
}
use maestro_cms.Text.{Bytes}
use maestro_cms.Chunk.Defs.{Region, Estimate, Out}
use maestro_cms.Chunk.Lines.{line_at, fence_marker, is_fence_open, closes_fence}
use maestro_cms.Chunk.Hard.{Float64}
use maestro_cms.Chunk.Hard.Prose.{hard_split_prose}
use maestro_cms.Chunk.Hard.Loop.{region_at, pack_loop, ◌>>=◌}

-- `codeSpan`
pub record CodeSpan : Type 0 where
  pub region : Region
  pub fence : Bool

abbrev region : ℕ → ℕ → Region
region start end = record { start = start; end = end }

-- `spanHasFence`, on fuel.
unfoldable pub fence_scan : ℕ → Bytes → ℕ → ℕ → Option Bool
fence_scan zero text i end = none
fence_scan (suc f) text i end =
    let (line, next) = line_at text i end in
    let on = fence_scan f text next end in
    if leb end i then some false else if is_fence_open line then some true else on

unfoldable pub span_has_fence : Bytes → ℕ → ℕ → Option Bool
unfolding fence_scan
span_has_fence text start end = fence_scan (end - start + 1) text start end

-- The inner loop of `fencedGroups`: the index behind the closing fence, or `end`.
unfoldable pub fence_end : ℕ → Bytes → ℕ → ℕ → ℕ → ℕ → Option ℕ
fence_end zero text ch n i end = none
fence_end (suc f) text ch n i end =
    let (line, next) = line_at text i end in
    let on = fence_end f text ch n next end in
    if leb end i then some i else if closes_fence ch n line then some next else on

-- The outer loop.
unfoldable pub group_scan : ℕ → Bytes → ℕ → ℕ → List CodeSpan → Option (List CodeSpan)
group_scan zero text i end groups = none
group_scan (suc f) text i end groups =
    let (line, next) = line_at text i end in
    let single : CodeSpan = record { region = region i next; fence = false } in
    let on_line = group_scan f text next end (groups ++ single ∷ []) in
    let block : Option (List CodeSpan) = elim (fence_marker line) [
      | none ↦ on_line
      | some m ↦ fence_end (end - next + 1) text m.ch m.n next end >>= λ k.
          group_scan f text k end (groups ++ (record { region = region i k; fence = true }) ∷ [])
    ] in
    if leb end i then some groups else block

unfoldable pub fenced_groups : Bytes → ℕ → ℕ → Option (List CodeSpan)
fenced_groups text start end = group_scan (end - start + 1) text start end []

-- The lines that `splitLines` packs.
unfoldable pub line_scan : ℕ → Bytes → ℕ → ℕ → List Region → Option (List Region)
line_scan zero text i end lines = none
line_scan (suc f) text i end lines =
    let next = (line_at text i end).1 in
    let on = line_scan f text next end (lines ++ region i next ∷ []) in
    if leb end i then some lines else on

abbrev pub tokens_of : Bytes → Estimate → List Region → List ℕ
tokens_of text est regions = map (λ r. est (slice text r.start r.end)) regions

abbrev pub is_fence_at : List CodeSpan → ℕ → Bool
is_fence_at groups i = (get_or groups i (record { region = region 0 0; fence = false })).fence

module _ (float : Float64) (text : Bytes) (est : Estimate) (max_tok overlap_tok : ℕ) where
  abbrev prose : ℕ → ℕ → Out → Option Out
  prose = hard_split_prose float text est max_tok overlap_tok

  unfoldable pub split_lines : ℕ → ℕ → Out → Option Out
  split_lines start end out = line_scan (end - start + 1) text start end [] >>= λ lines.
      pack_loop text lines (tokens_of text est lines) max_tok overlap_tok
        (λ i. prose (region_at lines i).start (region_at lines i).end) (length lines + 1) 0 out

  -- The handler of an oversize group.
  unfoldable pub split_group : List CodeSpan → ℕ → Out → Option Out
  split_group groups i out =
      let r = region_at (map (λ g. g.region) groups) i in
      if is_fence_at groups i then split_lines r.start r.end out else prose r.start r.end out

  unfoldable pub split_fenced : ℕ → ℕ → Out → Option Out
  split_fenced start end out = fenced_groups text start end >>= λ groups.
      let regions = map (λ g. g.region) groups in
      pack_loop text regions (tokens_of text est regions) max_tok overlap_tok (split_group groups)
        (length regions + 1) 0 out

  unfoldable pub hard_split : ℕ → ℕ → Out → Option Out
  hard_split start end out = span_has_fence text start end >>= λ fenced.
      if fenced then split_fenced start end out else prose start end out
