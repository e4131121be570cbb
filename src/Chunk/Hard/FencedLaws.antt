-- ===== src/Chunk/Hard/FencedLaws.antt =====
-- The hard split of any span ends, stays in the span, and covers it.
use maestro_cms.Prelude.{
  ℕ, ◌+◌, ◌-◌, ◌≤◌, ◌<◌, refl, inl, inr, Option, List, [], map, arith, Bool-cases, length,
  length-map,
}
use maestro_cms.Text.{Bytes}
use maestro_cms.Chunk.Defs.{Region, Estimate, Out}
use maestro_cms.Chunk.Cuts.Snap.{IsRuneText}
use maestro_cms.Chunk.Run.{Emits-upper}
use maestro_cms.Chunk.Hard.{Float64}
use maestro_cms.Chunk.Hard.Prose.{hard_split_prose}
use maestro_cms.Chunk.Hard.ProseLaws.{Splits, hard_split_prose-Splits}
use maestro_cms.Chunk.Hard.Loop.{region_at, pack_loop, ◌>>=◌}
use maestro_cms.Chunk.Hard.LoopLaws.{InRegion, pack_loop-Appends}
use maestro_cms.Chunk.Hard.Ordered.{InText, IsSpan-InText, region_at-IsSpan, region_at-le}
use maestro_cms.Chunk.Hard.Fenced.{
  CodeSpan, span_has_fence, fenced_groups, tokens_of, is_fence_at, split_lines, split_group,
  split_fenced, hard_split,
}
use maestro_cms.Chunk.Hard.Lines.{
  IsTiling, IsTiling-IsOrdered, IsTiling-covers, line_scan_total, group_scan_total,
  fence_scan_total,
}

module _ (float : Float64) (text : Bytes) (est : Estimate) (max_tok overlap_tok : ℕ) where
  -- Packing regions that tile a span splits the span.
  pack-Splits :
      (start end : ℕ) (regions : List Region) (oversize : ℕ → Out → Option Out) (out : Out)
      → start ≤ end
      → IsTiling text end start end regions
      → ((i : ℕ) (out : Out)
          → i < length regions
          → Splits text (region_at regions i).start (region_at regions i).end out (oversize i out))
      → Splits text start end out (
          pack_loop text regions
            (tokens_of text est regions)
            max_tok
            overlap_tok
            oversize
            (length regions + 1)
            0
            out)
  pack-Splits start end regions oversize out le tiled splits =
      let ordered = IsTiling-IsOrdered text end start end 0 regions tiled (omega arith) in
      let lengths = length-map regions _ in
      let (out', returns, emits) =
        pack_loop-Appends text end regions (tokens_of text est regions) max_tok overlap_tok ordered
          lengths oversize (λ i o lt large. splits i o lt) (length regions + 1) 0 start out
          (omega arith) (omega arith) le
          (λ h.
            region_at-le text end start regions 0
              (IsTiling-IsOrdered text end start end start regions tiled (omega arith)) h) in
      (out', returns, Emits-upper text end (omega arith) (λ p w. locate p w) emits)
    where
      locate : (p : ℕ) → IsRuneText text × (start ≤ p) × (p < end) → InRegion text regions 0 p
      locate p (runes, l, h) =
          let (k, kl, low, high) = IsTiling-covers text end start end regions p tiled l h in
          (k, omega arith, kl, runes, low, high)

  region_at-InText :
      (start end : ℕ) (regions : List Region) (i : ℕ)
      → end ≤ length text
      → IsTiling text end start end regions
      → i < length regions
      → InText text (region_at regions i)
  region_at-InText start end regions i le tiled h =
      let ordered = IsTiling-IsOrdered text end start end 0 regions tiled (omega arith) in
      IsSpan-InText text end (region_at regions i) le
        (region_at-IsSpan text end 0 regions i ordered h)

  prose-Splits :
      (r : Region) (out : Out)
      → InText text r
      → Splits text r.start r.end out
          (hard_split_prose float text est max_tok overlap_tok r.start r.end out)
  prose-Splits r out (le, span) =
      hard_split_prose-Splits float text est max_tok overlap_tok r out le span

  split_lines-Splits :
      (r : Region) (out : Out)
      → InText text r
      → Splits text r.start r.end out
          (split_lines float text est max_tok overlap_tok r.start r.end out)
  unfolding split_lines
  split_lines-Splits r out (le, span) =
      let (lines, found, tiled) =
        line_scan_total text r.end le span.end_stop (r.end - r.start + 1) r.start r.start []
          (record { within = omega (arith, span); stop = span.start_stop }) (omega arith) refl in
      rw (found, ◌>>=◌)
        (pack-Splits r.start r.end lines _ out (omega (arith, span)) tiled (λ i o h.
          prose-Splits (region_at lines i) o (region_at-InText r.start r.end lines i le tiled h)))

  split_group-Splits :
      (groups : List CodeSpan) (i : ℕ) (out : Out)
      → InText text (region_at (map (λ g. g.region) groups) i)
      → Splits text
          (region_at (map (λ g. g.region) groups) i).start
          (region_at (map (λ g. g.region) groups) i).end
          out
          (split_group float text est max_tok overlap_tok groups i out)
  unfolding split_group
  split_group-Splits groups i out inside =
      let r = region_at (map (λ g. g.region) groups) i in
      elim (Bool-cases (is_fence_at groups i)) [
        | inl block ↦ rw block (split_lines-Splits r out inside)
        | inr line ↦ rw line (prose-Splits r out inside)
      ]

  split_fenced-Splits :
      (r : Region) (out : Out)
      → InText text r
      → Splits text r.start r.end out
          (split_fenced float text est max_tok overlap_tok r.start r.end out)
  unfolding split_fenced fenced_groups
  split_fenced-Splits r out (le, span) =
      let (groups, found, tiled) =
        group_scan_total text r.end le span.end_stop (r.end - r.start + 1) r.start r.start []
          (record { within = omega (arith, span); stop = span.start_stop }) (omega arith) refl in
      let regions = map (λ (g : CodeSpan). g.region) groups in
      rw (found, ◌>>=◌)
        (pack-Splits r.start r.end regions (split_group float text est max_tok overlap_tok groups)
          out (omega (arith, span)) tiled
          (λ i o h.
            split_group-Splits groups i o (region_at-InText r.start r.end regions i le tiled h)))

  -- The hard split of a span of the text returns. It appends nonempty slices of the span, numbered on
  -- and in ascending order of their starts; if the text is made of runes they cover the whole span.
  pub hard_split-Splits :
      (r : Region) (out : Out)
      → InText text r
      → Splits text r.start r.end out
          (hard_split float text est max_tok overlap_tok r.start r.end out)
  unfolding hard_split span_has_fence
  hard_split-Splits r out (le, span) =
      let (fenced, found) =
        fence_scan_total text r.end le span.end_stop (r.end - r.start + 1) r.start
          (record { within = omega (arith, span); stop = span.start_stop }) (omega arith) in
      rw (found, ◌>>=◌)
        (elim (Bool-cases fenced) [
          | inl code ↦ rw code (split_fenced-Splits r out (le, span))
          | inr prose ↦ rw prose (prose-Splits r out (le, span))
        ])
