-- ===== src/Chunk/Headings/Outline.antt =====
-- `Headings` by the kinds of the lines: what its single pass finds.
use mathlib.Core.List.{append-nil}
use maestro_cms.Prelude.{
  ℕ, zero, suc, ◌+◌, ◌-◌, ◌≤◌, ◌<◌, ◌≡◌, refl, sym, ap, ◌∙◌, inl, inr, false, none, some, List, [],
  ◌∷◌, ◌++◌, arith, leb, leb→lt, Bool-cases, length,
}
use maestro_cms.Text.{Bytes}
use maestro_cms.Chunk.Headings.{Scan, scan_line}
use maestro_cms.Chunk.Cuts.Snap.{aligned_end}
use maestro_cms.Chunk.Lines.{line_at}
use maestro_cms.Chunk.Hard.Lines.{line_at-next}
use maestro_cms.Chunk.Segment.{paragraphs}
use maestro_cms.Chunk.Headings.{scan_lines, headings, initial, units_of, units_from_starts}
use maestro_cms.Chunk.Defs.{TextUnit}
use maestro_cms.Chunk.Headings.Kinds.{
  is_prose, kinds, fence_after, fence_of, line_kind, heading_starts, scan_line-is_prose,
  scan_line-at, scan_line-fence_after, underline_behind,
}
use maestro_cms.Chunk.Headings.Starts.{
  entered, pending_start, pending_start-false, IsNew, scan_line-IsNew, heading_starts-cons,
}

-- The lines in ascending order of their starts.
abbrev pub Increasing {ℓ} : {A : Type ℓ} → ℕ → List (ℕ × A) → Type 0
Increasing lo [] = Unit
Increasing lo ((at, a) ∷ ls) = (lo ≤ at) × Increasing (suc at) ls

abbrev pub scan_all : List (ℕ × Bytes) → Scan → Scan
scan_all [] sc = sc
scan_all ((at, line) ∷ lines) sc = scan_all lines (scan_line at line sc)

Increasing-weaken :
    {A : Type 0} (lo hi : ℕ) (ls : List (ℕ × A)) → lo ≤ hi → Increasing hi ls → Increasing lo ls
Increasing-weaken lo hi [] le h = tt
Increasing-weaken lo hi ((at, a) ∷ ls) le (first, h) = (omega arith, h)

-- The lines of the text from position `i` on, as `lineAt` cuts them.
abbrev pub IsLines : Bytes → ℕ → List (ℕ × Bytes) → Type 0
IsLines text i [] = length text ≤ i
IsLines text i ((at, line) ∷ lines) =
    (at ≡ i)
    × (i < length text)
    × (line ≡ (line_at text i (length text)).0)
    × IsLines text (line_at text i (length text)).1 lines

scan_all-starts :
    (lo : ℕ) (lines : List (ℕ × Bytes)) (sc : Scan)
    → Increasing lo lines
    → IsNew lo sc
    → (let ks = kinds (fence_of sc) sc.prev_is_paragraph lines in
        (scan_all lines sc).starts
        ≡ sc.starts
          ++ (pending_start sc.prev_is_paragraph sc.prev_line_start ks ++ heading_starts ks))
unfolding scan_line
scan_all-starts lo [] sc inc new = sym (append-nil sc.starts)
scan_all-starts lo ((at, line) ∷ lines) sc (le, inc) new =
    let k = line_kind at line sc in
    let sc' = scan_line at line sc in
    let (starts, new') = scan_line-IsNew lo at line sc new le in
    let rest = kinds (fence_after (fence_of sc) line) (is_prose k) lines in
    let ih = scan_all-starts (suc at) lines sc' inc new' in
    let ih' : (scan_all lines sc').starts
        ≡ entered k at sc.prev_line_start sc.starts
          ++ (pending_start (is_prose k) at rest ++ heading_starts rest) =
      rw
        (
          scan_line-fence_after at line sc,
          scan_line-is_prose at line sc,
          scan_line-at at line sc,
          starts,
        )
        at ih in
    ih'
    ∙ heading_starts-cons k at sc.prev_line_start sc.prev_is_paragraph sc.starts rest
        (underline_behind (fence_of sc) sc.prev_is_paragraph line)

-- The lines of a text, and the loop as a pass over them.
scan_lines-scan_all :
    (text : Bytes) (f i : ℕ)
    → length text - i < f
    → (lines : List (ℕ × Bytes)) × IsLines text i lines
      × Increasing i lines
      × ((sc : Scan) → scan_lines f text i sc ≡ some (scan_all lines sc))
unfolding scan_lines
scan_lines-scan_all text zero i h = absurd (omega arith)
scan_lines-scan_all text (suc f) i h = elim (Bool-cases (leb (length text) i)) [
  | inl over ↦ ([], ground arith, tt, λ sc. rw (over, scan_lines))
  | inr more ↦
      let lt = leb→lt _ _ more in
      let next = (line_at text i (length text)).1 in
      let (ahead, s) =
        line_at-next text (length text) (omega arith) (inl (aligned_end text)) i lt in
      let (lines, is, inc, passes) = scan_lines-scan_all text f next (omega arith) in
      (
        (i, (line_at text i (length text)).0) ∷ lines,
        (refl, lt, refl, is),
        (omega arith, Increasing-weaken (suc i) next lines (omega arith) inc),
        λ sc. rw (more, scan_lines) (passes (scan_line i (line_at text i (length text)).0 sc)),
      )
]

-- The units for the headings that begin at the given starts.
abbrev pub sections : Bytes → List ℕ → List TextUnit
sections text [] = paragraphs text
sections text (s ∷ starts) = units_from_starts (s ∷ starts) (length text)

-- `Headings` cuts the text where the headings begin that its lines show: an ATX heading, or the line
-- of a paragraph above an underline, outside fences. No start comes twice. A text without headings has
-- the units of `Paragraphs`.
pub headings-sections :
    (text : Bytes)
    → (lines : List (ℕ × Bytes)) × IsLines text 0 lines
      × (headings text ≡ sections text (heading_starts (kinds none false lines)))
unfolding headings units_of
headings-sections [] = ([], omega arith, unfold paragraphs in refl)
headings-sections (b ∷ s) =
    let text = b ∷ s in
    let (lines, is, inc, passes) = scan_lines-scan_all text (length text + 1) 0 (omega arith) in
    let found : (scan_all lines initial).starts ≡ heading_starts (kinds none false lines) =
      scan_all-starts 0 lines initial inc
        (record { below = tt; pending = λ e. tt; prev_lt = λ e. cc })
      ∙ ap (λ l. l ++ heading_starts (kinds none false lines))
          (pending_start-false 0 (kinds none false lines)) in
    (lines, is, ap (units_of text) (passes initial) ∙ ap (sections text) found)
