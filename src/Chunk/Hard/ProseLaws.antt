-- ===== src/Chunk/Hard/ProseLaws.antt =====
-- `hardSplitProse` ends, and its chunks are an ascending run of slices of the span.
use maestro_cms.Prelude.{
  ℕ, zero, suc, ◌+◌, ◌-◌, ◌≤◌, ◌<◌, ◌≡◌, ◌⊎◌, inl, inr, true, Option, arith, ltb, leb, Bool-cases,
  lt-or-le, ltb→lt, ltb→le, leb→le, leb→lt, length, slice, if◌then◌else◌,
}
use maestro_cms.Text.{Bytes}
use maestro_cms.Chunk.Defs.{Region, Estimate, Out, append_chunk}
use maestro_cms.Chunk.Segment.{rune_aligned}
use maestro_cms.Chunk.Cuts.{find_boundary}
use maestro_cms.Chunk.Cuts.Bounds.{find_boundary_bounds}
use maestro_cms.Chunk.Cuts.Snap.{
  snap_end_bounds, snap_end-le, snap_start_bounds, snap_start-le, snap_start-le-stop, IsStop,
  stop-rune_aligned, snap_start-rune_aligned, snap_end-rune_aligned, IsRuneText,
}
use maestro_cms.Chunk.Run.{
  Emits, Appends, Emits-refl, Emits-trans, Emits-lower, Emits-upper, append_chunk-Emits,
}
use maestro_cms.Chunk.Hard.Prose.{cut_end, next_start, prose_loop, hard_split_prose}
use maestro_cms.Chunk.Hard.{Float64}
use maestro_cms.Chunk.Hard.Ordered.{IsSpan}

module _ (text : Bytes) (end : ℕ) (end_le : end ≤ length text) (end_stop : IsStop text end) where
  ideal_end-le :
      (target at : ℕ)
      → at < end
      → 0 < target
      → (if leb end (at + target) then end else find_boundary text at (at + target)) ≤ end
  ideal_end-le target at lt pos_target = elim (Bool-cases (leb end (at + target))) [
    | inl last ↦ rw last (omega arith)
    | inr cut ↦
        let below = leb→lt _ _ cut in
        let bounds = find_boundary_bounds text at (at + target) (omega arith) (omega arith) in
        rw cut (omega arith)
  ]

  -- A chunk is not empty and stays in the span.
  pub cut_end_bounds :
      (target at : ℕ)
      → at < end
      → 0 < target
      → (at < cut_end text end target at) × (cut_end text end target at ≤ end)
  unfolding cut_end
  cut_end_bounds target at lt pos_target =
      let ideal = if leb end (at + target) then end else find_boundary text at (at + target) in
      (
        (snap_end_bounds text at ideal (omega arith)).0,
        snap_end-le text at ideal end lt end_le end_stop (ideal_end-le target at lt pos_target),
      )

  -- The next chunk starts further on, within the span, and behind an aligned end at the latest.
  pub next_start_bounds :
      (overlap at e : ℕ)
      → at < e
      → e ≤ end
      → (at < next_start text overlap at e)
        × (e < end → next_start text overlap at e ≤ end)
        × (rune_aligned text e ≡ true → next_start text overlap at e ≤ e)
  unfolding next_start
  next_start_bounds overlap at e lt le =
      let next = if leb (e - overlap) at then at + 1 else e - overlap in
      let bounds : (at < next) × (next ≤ e) = ground arith in
      let forward = snap_start_bounds text next (omega arith) in
      (
        omega (arith, forward),
        λ h. snap_start-le-stop text next end (omega arith) end_le end_stop,
        λ aligned. snap_start-le text next e (omega arith) (omega arith) aligned,
      )

  cut_end-rune_aligned :
      (target at : ℕ)
      → IsRuneText text
      → at < end
      → rune_aligned text at ≡ true
      → rune_aligned text (cut_end text end target at) ≡ true
  unfolding cut_end
  cut_end-rune_aligned target at runes lt a =
      snap_end-rune_aligned text at
        (if leb end (at + target) then end else find_boundary text at (at + target)) runes
        (omega arith) a

  next_start-rune_aligned :
      (overlap at e : ℕ) → rune_aligned text (next_start text overlap at e) ≡ true
  unfolding next_start
  next_start-rune_aligned overlap at e =
      snap_start-rune_aligned text (if leb (e - overlap) at then at + 1 else e - overlap)

  -- The positions of the span that are left, if the text is made of runes.
  abbrev Rest : ℕ → ℕ → Type 0
  Rest at p = IsRuneText text × (at ≤ p) × (p < end)

  step-Emits :
      (target overlap at : ℕ) {out out1 out2 : Out}
      → at < end
      → 0 < target
      → (IsRuneText text → rune_aligned text at ≡ true)
      → Emits text end at (at + 1) (λ p. (at ≤ p) × (p < cut_end text end target at)) out out1
      → (let next = next_start text overlap at (cut_end text end target at) in
          Emits text end next end (Rest next) out1 out2)
      → Emits text end at end (Rest at) out out2
  step-Emits target overlap at lt pt a one later =
      let e = cut_end text end target at in
      let cut = cut_end_bounds target at lt pt in
      let next = next_start_bounds overlap at e cut.0 cut.1 in
      Emits-trans text end one (Emits-lower text end (omega (arith, next)) later)
        (λ p w. choose p w next.2)
    where
      choose :
          (p : ℕ)
          → Rest at p
          → (rune_aligned text (cut_end text end target at) ≡ true
              → next_start text overlap at (cut_end text end target at)
                ≤ cut_end text end target at)
          → ((at ≤ p) × (p < cut_end text end target at))
            ⊎ Rest (next_start text overlap at (cut_end text end target at)) p
      choose p (runes, l, r) near = elim (lt-or-le p (cut_end text end target at)) [
        | inl here ↦ inl (l, here)
        | inr there ↦
            let le = near (cut_end-rune_aligned target at runes lt (a runes)) in
            inr (runes, omega (arith, le, there), r)
      ]

  pub prose_loop-Appends :
      (f : ℕ) (est : Estimate) (target overlap at : ℕ) (out : Out)
      → 0 < target
      → at ≤ end
      → (IsRuneText text → rune_aligned text at ≡ true)
      → end - at < f
      → Appends text end at end (Rest at) out (prose_loop f text est end target overlap at out)
  unfolding prose_loop
  prose_loop-Appends zero est target overlap at out pt le a h = absurd (omega arith)
  prose_loop-Appends (suc f) est target overlap at out pt le a h = elim (Bool-cases (ltb at end)) [
    | inr stop ↦ (
      out,
      rw stop,
      Emits-refl text end at end (Rest at) out le (λ p w. omega (arith, ltb→le _ _ stop)),
    )
    | inl more ↦
        let lt = ltb→lt _ _ more in
        let e = cut_end text end target at in
        let cut = cut_end_bounds target at lt pt in
        let next = next_start_bounds overlap at e cut.0 cut.1 in
        let out1 = append_chunk text at e (est (slice text at e)) out in
        let one =
          append_chunk-Emits text end at at e (est (slice text at e)) out (omega arith) cut.0
            cut.1 in
        elim (Bool-cases (leb end e)) [
          | inl last ↦ (
            out1,
            rw (more, last),
            Emits-upper text end (omega arith) (λ p w. (w.1, omega (arith, leb→le _ _ last, w.2)))
                one,
          )
          | inr on ↦
              let (out2, returns, later) =
                prose_loop-Appends f est target overlap (next_start text overlap at e) out1 pt
                  (next.1 (leb→lt _ _ on)) (λ _. next_start-rune_aligned overlap at e)
                  (omega (arith, next)) in
              (out2, rw (more, on, returns), step-Emits target overlap at lt pt a one later)
        ]
  ]

-- What the handler of a span `[start, end)` is to do: it returns, and appends an ascending run of
-- slices of the span, which covers all of it if the text is made of runes.
abbrev pub Splits : Bytes → ℕ → ℕ → Out → Option Out → Type 0
Splits text start end out m =
    Appends text end start end (λ p. IsRuneText text × (start ≤ p) × (p < end)) out m

pub hard_split_prose-Splits :
    (float : Float64) (text : Bytes) (est : Estimate) (max_tok overlap_tok : ℕ) (r : Region)
    (out : Out)
    → r.end ≤ length text
    → IsSpan text r.end r
    → Splits text r.start r.end out
        (hard_split_prose float text est max_tok overlap_tok r.start r.end out)
unfolding hard_split_prose
hard_split_prose-Splits float text est max_tok overlap_tok r out le span =
    prose_loop-Appends text r.end le span.end_stop (r.end - r.start + 1) est _ _ r.start out
      (omega arith) (omega (arith, span))
      (λ runes. stop-rune_aligned text r.start runes (omega (arith, span)) span.start_stop)
      (omega arith)
