-- ===== src/Chunk/Headings/Tiling.antt =====
-- The sections of `Headings` tile the text.
use maestro_cms.Prelude.{
  ℕ, zero, suc, ◌+◌, ◌-◌, ◌≤◌, ◌<◌, ◌≡◌, refl, subst, ◌⊎◌, inl, inr, false, ◌&&◌, some, List, [],
  ◌∷◌, ◌++◌, map, arith, ltb, leb, ltb→lt, ltb→le, leb→lt, Bool-cases, length,
}
use maestro_cms.Text.{Bytes}
use maestro_cms.Chunk.Cuts.Snap.{IsStop, aligned_end}
use maestro_cms.Chunk.Segment.{to_region}
use maestro_cms.Chunk.Segment.Paragraphs.{paragraphs-IsTiling, start-IsStop}
use maestro_cms.Chunk.Lines.{line_at, is_fence_open, atx_level, setext_underline}
use maestro_cms.Text.{bytes_eq}
use maestro_cms.Text.Trim.{trim_space}
use maestro_cms.Chunk.Hard.Lines.{IsTiling, line_at-next}
use maestro_cms.Chunk.Headings.{
  Scan, initial, ends_in, append_start, open_fence, scan_line, scan_lines, section_units,
  units_from_starts, units_of, headings,
}

module _ (text : Bytes) where
  -- Line starts in ascending order, from `lo` to `hi`.
  AllStarts : ℕ → ℕ → List ℕ → Type 0
  AllStarts lo hi [] = Unit
  AllStarts lo hi (s ∷ starts) = (lo ≤ s) × (s ≤ hi) × IsStop text s × AllStarts (s + 1) hi starts

  AllStarts-widen :
      (lo p q : ℕ) (starts : List ℕ) → AllStarts lo p starts → p ≤ q → AllStarts lo q starts
  unfolding AllStarts
  AllStarts-widen lo p q [] h le = tt
  AllStarts-widen lo p q (s ∷ starts) (l, r, stop, h) le =
      (l, omega arith, stop, AllStarts-widen (s + 1) p q starts h le)

  AllStarts-append :
      (lo p q : ℕ) (starts : List ℕ)
      → AllStarts lo p starts
      → p ≤ q
      → lo ≤ q
      → IsStop text q
      → ends_in starts q ≡ false
      → AllStarts lo q (starts ++ q ∷ [])
  unfolding AllStarts ends_in
  AllStarts-append lo p q [] h le lo_le stop new = (lo_le, omega arith, stop, tt)
  AllStarts-append lo p q (x ∷ []) (l, r, sx, h) le lo_le stop new =
      (l, omega arith, sx, (ground arith, omega arith, stop, tt))
  AllStarts-append lo p q (x ∷ y ∷ xs) (l, r, sx, h) le lo_le stop new = (
    l,
    omega arith,
    sx,
    AllStarts-append (x + 1) p q (y ∷ xs) h le (omega (arith, h.0, h.1)) stop new,
  )

  append_start-AllStarts :
      (p q : ℕ) (starts : List ℕ)
      → AllStarts 0 p starts
      → p ≤ q
      → IsStop text q
      → AllStarts 0 q (append_start starts q)
  unfolding append_start
  append_start-AllStarts p q starts h le stop = elim (Bool-cases (ends_in starts q)) [
    | inl there ↦ rw there (AllStarts-widen 0 p q starts h le)
    | inr new ↦ rw new (AllStarts-append 0 p q starts h le (omega arith) stop new)
  ]

  -- The state at a line's start: the last start and the last line are no later.
  record IsScan (i : ℕ) (sc : Scan) : Type 0 where
    starts_ok : AllStarts 0 sc.prev_line_start sc.starts
    prev_stop : IsStop text sc.prev_line_start
    prev_le : sc.prev_line_start ≤ i
    prev_inside : sc.prev_line_start < length text

  open_fence-starts : (line : Bytes) (sc : Scan) → (open_fence line sc).starts ≡ sc.starts
  unfolding open_fence
  open_fence-starts line sc = ground arith

  -- The starts and the line start after a round.
  scan_line-starts :
      (i : ℕ) (line : Bytes) (sc : Scan)
      → ((scan_line i line sc).prev_line_start ≡ i)
        × (((scan_line i line sc).starts ≡ sc.starts)
            ⊎ ((scan_line i line sc).starts ≡ append_start sc.starts i)
            ⊎ ((scan_line i line sc).starts ≡ append_start sc.starts sc.prev_line_start))
  unfolding scan_line
  scan_line-starts i line sc = elim (Bool-cases sc.in_fence) [
    | inl inside ↦ rw inside (refl, inl refl)
    | inr outside ↦ elim (Bool-cases (is_fence_open line)) [
      | inl fence ↦
          rw (outside, fence) (refl, inl (open_fence-starts line (record sc { in_fence = false })))
      | inr plain ↦ elim (Bool-cases (ltb 0 (atx_level line))) [
        | inl atx ↦ rw (outside, plain, atx) (refl, inr (inl refl))
        | inr no_atx ↦ elim (Bool-cases (sc.prev_is_paragraph && setext_underline line)) [
          | inl setext ↦ rw (outside, plain, no_atx, setext) (refl, inr (inr refl))
          | inr no_setext ↦ elim (Bool-cases (bytes_eq (trim_space line) [])) [
            | inl blank ↦ rw (outside, plain, no_atx, no_setext, blank) (refl, inl refl)
            | inr paragraph ↦ rw (outside, plain, no_atx, no_setext, paragraph) (refl, inl refl)
          ]
        ]
      ]
    ]
  ]

  scan_line-IsScan :
      (i next : ℕ) (line : Bytes) (sc : Scan)
      → IsScan i sc
      → i < length text
      → IsStop text i
      → i ≤ next
      → IsScan next (scan_line i line sc)
  scan_line-IsScan i next line sc is lt stop le =
      let (moved, kept) = scan_line-starts i line sc in
      let widened = AllStarts-widen 0 sc.prev_line_start i sc.starts is.starts_ok is.prev_le in
      let starts : AllStarts 0 i (scan_line i line sc).starts = elim kept [
        | inl e ↦ rw e widened
        | inr (inl e) ↦
            rw e
              (append_start-AllStarts sc.prev_line_start i sc.starts is.starts_ok is.prev_le stop)
        | inr (inr e) ↦ rw e (
            AllStarts-widen 0 sc.prev_line_start i _
              (append_start-AllStarts sc.prev_line_start sc.prev_line_start sc.starts is.starts_ok
                (omega arith) is.prev_stop)
              is.prev_le)
      ] in
      record {
        starts_ok = rw moved starts;
        prev_stop = rw moved stop;
        prev_le = rw moved le;
        prev_inside = rw moved lt;
      }

  scan_lines_total :
      (f i : ℕ) (sc : Scan)
      → IsScan i sc
      → IsStop text i
      → i ≤ length text
      → length text - i < f
      → (sc' : Scan) × (scan_lines f text i sc ≡ some sc') × IsScan (length text) sc'
  unfolding scan_lines
  scan_lines_total zero i sc is stop le h = absurd (omega arith)
  scan_lines_total (suc f) i sc is stop le h = elim (Bool-cases (leb (length text) i)) [
    | inl over ↦ (
      sc,
      rw (over, scan_lines) refl,
      record {
        starts_ok = is.starts_ok;
        prev_stop = is.prev_stop;
        prev_le = omega (arith, is.prev_le);
        prev_inside = is.prev_inside;
      },
    )
    | inr more ↦
        let lt = leb→lt _ _ more in
        let (ahead, s) =
          line_at-next text (length text) (omega arith) (inl (aligned_end text)) i lt in
        let next = (line_at text i (length text)).1 in
        let line = (line_at text i (length text)).0 in
        let (sc', found, is') =
          scan_lines_total f next (scan_line i line sc)
            (scan_line-IsScan i next line sc is lt stop (omega arith)) s.stop s.within
            (omega arith) in
        (sc', rw (more, scan_lines) found, is')
  ]

  section_units-IsTiling :
      (p s : ℕ) (starts : List ℕ)
      → AllStarts 0 p (s ∷ starts)
      → p < length text
      → IsTiling text
          (length text)
          s
          (length text)
          (map to_region (section_units (s ∷ starts) (length text)))
  unfolding section_units AllStarts
  section_units-IsTiling p s [] (l, r, stop, h) lt = (
    refl,
    record {
      not_empty = omega arith;
      in_range = omega arith;
      start_stop = stop;
      end_stop = inl (aligned_end text);
    },
    refl,
  )
  section_units-IsTiling p s (t ∷ starts) (l, r, stop, (l', r', stop', h)) lt = (
    refl,
    record { not_empty = omega arith; in_range = omega arith; start_stop = stop; end_stop = stop' },
    section_units-IsTiling p t starts (omega arith, r', stop', h) lt,
  )

  units_from_starts-IsTiling :
      (p s : ℕ) (starts : List ℕ)
      → AllStarts 0 p (s ∷ starts)
      → p < length text
      → IsTiling text
          (length text)
          0
          (length text)
          (map to_region (units_from_starts (s ∷ starts) (length text)))
  unfolding units_from_starts AllStarts
  units_from_starts-IsTiling p s starts (l, r, stop, h) lt =
      let sections = section_units-IsTiling p s starts (l, r, stop, h) lt in
      elim (Bool-cases (ltb 0 s)) [
        | inl later ↦ rw later (
          refl,
          record {
            not_empty = ltb→lt _ _ later;
            in_range = omega arith;
            start_stop = start-IsStop text;
            end_stop = stop;
          },
          sections,
        )
        | inr first ↦
            let zero_start : s ≡ 0 = omega (arith, ltb→le _ _ first) in
            rw first (
              subst
                (λ k.
                  IsTiling text (length text) k (length text)
                    (map to_region (section_units (s ∷ starts) (length text))))
                zero_start sections)
      ]

  units_of-IsTiling :
      (sc : Scan) (starts : List ℕ)
      → sc.starts ≡ starts
      → IsScan (length text) sc
      → IsTiling text (length text) 0 (length text) (map to_region (units_of text (some sc)))
  unfolding units_of
  units_of-IsTiling sc [] none_found is = rw none_found (paragraphs-IsTiling text)
  units_of-IsTiling sc (s ∷ starts) some_found is = rw some_found (
      units_from_starts-IsTiling sc.prev_line_start s starts
        (subst (AllStarts 0 sc.prev_line_start) some_found is.starts_ok) is.prev_inside)

initial-IsScan : (text : Bytes) → 0 < length text → IsScan text 0 initial
unfolding AllStarts
initial-IsScan text h = record {
  starts_ok = tt;
  prev_stop = start-IsStop text;
  prev_le = omega arith;
  prev_inside = h;
}

-- The units of `Headings` are nonempty spans that lie end to end from the start of the text to its
-- end, whether they are sections at headings or the paragraphs of a text without headings.
pub headings-IsTiling :
    (text : Bytes) → IsTiling text (length text) 0 (length text) (map to_region (headings text))
unfolding headings
headings-IsTiling [] = refl
headings-IsTiling (b ∷ s) =
    let text = b ∷ s in
    let (sc, found, is) =
      scan_lines_total text (length text + 1) 0 initial (initial-IsScan text (omega arith))
        (start-IsStop text) (omega arith) (omega arith) in
    rw found (units_of-IsTiling text sc sc.starts refl is)
