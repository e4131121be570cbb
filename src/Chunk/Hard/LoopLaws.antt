-- ===== src/Chunk/Hard/LoopLaws.antt =====
-- The packing loop ends, and appends an ascending run of slices that covers every region.
use maestro_cms.Prelude.{
  ℕ, zero, suc, ◌+◌, ◌-◌, ◌≤◌, ◌<◌, ◌≡◌, ◌⊎◌, inl, inr, Option, List, arith, ltb, leb, ◌==◌, ==_iff,
  Bool-cases, lt-or-le, ltb→lt, ltb→le, leb→le, leb→lt, length,
}
use maestro_cms.Text.{Bytes}
use maestro_cms.Chunk.Defs.{Region, Out}
use maestro_cms.Chunk.Cuts.Snap.{IsRuneText}
use maestro_cms.Chunk.Pack.{tok_at, grow_chunk, overlap_start}
use maestro_cms.Chunk.Pack.Grow.{grow_chunk-IsGrown}
use maestro_cms.Chunk.Pack.Overlap.{overlap_start_bounds}
use maestro_cms.Chunk.Run.{
  Emits, Appends, Emits-refl, Emits-trans, Emits-lower, Emits-upper, Emits-lim, append_chunk-Emits,
}
use maestro_cms.Chunk.Hard.Loop.{region_at, pack_chunk, pack_loop, ◌>>=◌}
use maestro_cms.Chunk.Hard.Ordered.{IsOrdered, region_at-IsSpan, region_at-lt, region_at_mono}
use maestro_cms.Chunk.Hard.ProseLaws.{Splits}

-- A position of one of the regions from `i` on, in a text made of runes.
abbrev pub InRegion : Bytes → List Region → ℕ → ℕ → Type 0
InRegion text regions i p =
    (k : ℕ) × (i ≤ k)
    × (k < length regions)
    × IsRuneText text
    × ((region_at regions k).start ≤ p)
    × (p < (region_at regions k).end)

module _ (text : Bytes) (lim : ℕ) (regions : List Region) (tok : List ℕ) (max_tok overlap_tok : ℕ)
    (ordered : IsOrdered text lim 0 regions) (lengths : length tok ≡ length regions)
    (oversize : ℕ → Out → Option Out)
    (splits : (i : ℕ) (out : Out)
      → i < length regions
      → max_tok < tok_at tok i
      → Splits text
          (region_at regions i).start
          (region_at regions i).end
          out
          (oversize i out)) where
  -- The chunk packed at `i` covers the regions up to the last one that it takes.
  pack_chunk-Emits :
      (i : ℕ) (out : Out)
      → i < length regions
      → tok_at tok i ≤ max_tok
      → (let j = (grow_chunk tok i max_tok).0 in
          Emits text lim
            (region_at regions i).start
            ((region_at regions i).start + 1)
            (λ p. ((region_at regions i).start ≤ p) × (p < (region_at regions j).end))
            out
            (pack_chunk text regions tok max_tok overlap_tok i out))
  unfolding pack_chunk
  pack_chunk-Emits i out lt fits =
      let g = grow_chunk-IsGrown tok i max_tok (omega arith) fits in
      let j = (grow_chunk tok i max_tok).0 in
      let si = region_at-IsSpan text lim 0 regions i ordered lt in
      let sj = region_at-IsSpan text lim 0 regions j ordered (omega (arith, g.in_range)) in
      let m =
        region_at_mono text lim 0 regions i j ordered g.start-le (omega (arith, g.in_range)) in
      append_chunk-Emits text lim (region_at regions i).start (region_at regions i).start
        (region_at regions j).end (grow_chunk tok i max_tok).1 out (omega arith)
        (omega (arith, m, si.not_empty)) sj.in_range

  -- A region up to the last one packed lies between the ends of the chunk.
  in_chunk :
      (i j k p : ℕ)
      → i ≤ k
      → k ≤ j
      → j < length regions
      → (region_at regions k).start ≤ p
      → p < (region_at regions k).end
      → ((region_at regions i).start ≤ p) × (p < (region_at regions j).end)
  in_chunk i j k p ik kj lt l r =
      let low = region_at_mono text lim 0 regions i k ordered ik (omega arith) in
      let high = region_at_mono text lim 0 regions k j ordered kj lt in
      (omega (arith, low), omega (arith, high))

  split-then :
      (i lo : ℕ) {out out1 out2 : Out}
      → i < length regions
      → lo ≤ (region_at regions i).start
      → Emits text
          (region_at regions i).end
          (region_at regions i).start
          (region_at regions i).end
          (λ p.
            IsRuneText text × ((region_at regions i).start ≤ p) × (p < (region_at regions i).end))
          out
          out1
      → Emits text lim (region_at regions i).end lim (InRegion text regions (i + 1)) out1 out2
      → Emits text lim lo lim (InRegion text regions i) out out2
  split-then i lo lt below first later =
      let span = region_at-IsSpan text lim 0 regions i ordered lt in
      Emits-lower text lim below
        (Emits-trans text lim (Emits-lim span.in_range first) later (λ p w. choose p w))
    where
      choose :
          (p : ℕ)
          → InRegion text regions i p
          → (IsRuneText text × ((region_at regions i).start ≤ p) × (p < (region_at regions i).end))
            ⊎ InRegion text regions (i + 1) p
      choose p (k, ik, kl, runes, l, r) = elim (lt-or-le i k) [
        | inl behind ↦ inr (k, omega arith, kl, runes, l, r)
        | inr here ↦ let same : k ≡ i = omega arith in inl (runes, rw same at l, rw same at r)
      ]

  pack-then :
      (i j ov : ℕ) {out out1 out2 : Out}
      → i ≤ j
      → j < length regions
      → ov ≤ j + 1
      → Emits text lim
          (region_at regions i).start
          ((region_at regions i).start + 1)
          (λ p. ((region_at regions i).start ≤ p) × (p < (region_at regions j).end))
          out
          out1
      → Emits text lim ((region_at regions i).start + 1) lim (InRegion text regions ov) out1 out2
      → Emits text lim (region_at regions i).start lim (InRegion text regions i) out out2
  pack-then i j ov ij jl near first later = Emits-trans text lim first later (λ p w. choose p w)
    where
      choose :
          (p : ℕ)
          → InRegion text regions i p
          → (((region_at regions i).start ≤ p) × (p < (region_at regions j).end))
            ⊎ InRegion text regions ov p
      choose p (k, ik, kl, runes, l, r) = elim (lt-or-le j k) [
        | inl behind ↦ inr (k, omega arith, kl, runes, l, r)
        | inr here ↦ inl (in_chunk i j k p ik here jl l r)
      ]

  pub pack_loop-Appends :
      (f i lo : ℕ) (out : Out)
      → i ≤ length regions
      → length regions - i < f
      → lo ≤ lim
      → (i < length regions → lo ≤ (region_at regions i).start)
      → Appends text lim lo lim
          (InRegion text regions i)
          out
          (pack_loop text regions tok max_tok overlap_tok oversize f i out)
  unfolding pack_loop
  pack_loop-Appends zero i lo out le h lo_le below = absurd (omega arith)
  pack_loop-Appends (suc f) i lo out le h lo_le below = elim (Bool-cases (leb (length tok) i)) [
    | inl over ↦ (
      out,
      rw over,
      Emits-refl text lim lo lim (InRegion text regions i) out lo_le
          (λ p w. omega (arith, w.1, w.2, leb→le _ _ over)),
    )
    | inr more ↦
        let lt : i < length regions = omega (arith, leb→lt _ _ more) in
        elim (Bool-cases (ltb max_tok (tok_at tok i))) [
          | inl large ↦
              let (out1, split, first) = splits i out lt (ltb→lt _ _ large) in
              let span = region_at-IsSpan text lim 0 regions i ordered lt in
              let (out2, rest, later) =
                pack_loop-Appends f (i + 1) (region_at regions i).end out1 (omega arith)
                  (omega arith) span.in_range
                  (λ h. region_at-lt text lim 0 regions i (i + 1) ordered (omega arith) h) in
              (out2, rw (more, large, split, ◌>>=◌) rest, split-then i lo lt (below lt) first later)
          | inr fits ↦
              let j = (grow_chunk tok i max_tok).0 in
              let ov = overlap_start tok i j overlap_tok in
              let small = ltb→le _ _ fits in
              let g = grow_chunk-IsGrown tok i max_tok (omega arith) small in
              let jl : j < length regions = omega (arith, g.in_range) in
              let o = overlap_start_bounds tok i j overlap_tok g.start-le in
              let first = pack_chunk-Emits i out lt small in
              let out1 = pack_chunk text regions tok max_tok overlap_tok i out in
              let span = region_at-IsSpan text lim 0 regions i ordered lt in
              elim (Bool-cases (j == length tok - 1)) [
                | inl last ↦
                    let at_end = (==_iff _ _).0 last in
                    (
                      out1,
                      rw (more, fits, last),
                      Emits-lower text lim (below lt) (
                          Emits-upper text lim (omega (arith, span))
                            (λ p w. in_chunk i j w.0 p w.1 (omega (arith, at_end, w.2)) jl w.4 w.5)
                            first),
                    )
                | inr on ↦
                    let (out2, rest, later) =
                      pack_loop-Appends f ov ((region_at regions i).start + 1) out1
                        (omega (arith, o)) (omega (arith, o)) (omega (arith, span))
                        (λ h.
                          omega
                            (arith, span, region_at-lt text lim 0 regions i ov ordered o.0 h)) in
                    (
                      out2,
                      rw (more, fits, on) rest,
                      Emits-lower text lim (below lt)
                          (pack-then i j ov g.start-le jl o.1 first later),
                    )
              ]
        ]
  ]
