-- ===== src/Chunk/Headings.antt =====
-- chunk/headings.go: `Headings`, the segmenter at Markdown headings.
pub mod Tiling
pub mod Kinds
pub mod Starts
pub mod Outline
use maestro_cms.Prelude.{
  ℕ, zero, suc, ◌+◌, Bool, true, false, ◌&&◌, Option, none, some, List, [], ◌∷◌, ◌++◌, ltb, leb,
  ◌==◌, if◌then◌else◌, length,
}
use maestro_cms.Text.{Bytes, bytes_eq}
use maestro_cms.Text.Trim.{trim_space}
use maestro_cms.Chunk.Defs.{TextUnit, unit}
use maestro_cms.Chunk.Lines.{
  line_at, fence_marker, is_fence_open, closes_fence, atx_level, setext_underline,
}
use maestro_cms.Chunk.Segment.{paragraphs}

-- The local variables of the loop.
pub record Scan : Type 0 where
  pub starts : List ℕ
  pub in_fence : Bool
  pub fence_char : ℕ
  pub fence_len : ℕ
  pub prev_line_start : ℕ
  pub prev_is_paragraph : Bool

abbrev pub initial : Scan
initial = record {
  starts = [];
  in_fence = false;
  fence_char = 0;
  fence_len = 0;
  prev_line_start = 0;
  prev_is_paragraph = false;
}

ends_in : List ℕ → ℕ → Bool
ends_in [] s = false
ends_in (x ∷ []) s = x == s
ends_in (x ∷ y ∷ xs) s = ends_in (y ∷ xs) s

unfoldable pub append_start : List ℕ → ℕ → List ℕ
unfolding ends_in
append_start starts s = if ends_in starts s then starts else starts ++ s ∷ []

-- The assignment `fenceChar, fenceLen, _, _ = fenceMarker(line)`.
open_fence : Bytes → Scan → Scan
open_fence line sc = elim (fence_marker line) [
  | none ↦ record sc { fence_char = 0; fence_len = 0 }
  | some m ↦ record sc { fence_char = m.ch; fence_len = m.n }
]

-- One round of the loop, on the line at `i`.
unfoldable pub scan_line : ℕ → Bytes → Scan → Scan
unfolding open_fence
scan_line i line sc =
    if sc.in_fence
    then record sc {
      in_fence = (if closes_fence sc.fence_char sc.fence_len line then false else true);
      prev_is_paragraph = false;
      prev_line_start = i;
    }
    else if is_fence_open line
    then record (open_fence line sc) {
      in_fence = true;
      prev_is_paragraph = false;
      prev_line_start = i;
    }
    else if ltb 0 (atx_level line)
    then record sc {
      starts = append_start sc.starts i;
      prev_is_paragraph = false;
      prev_line_start = i;
    }
    else if sc.prev_is_paragraph && setext_underline line
    then record sc {
      starts = append_start sc.starts sc.prev_line_start;
      prev_is_paragraph = false;
      prev_line_start = i;
    }
    else if bytes_eq (trim_space line) []
    then record sc { prev_is_paragraph = false; prev_line_start = i }
    else record sc { prev_is_paragraph = true; prev_line_start = i }

-- The loop at index `i`, on fuel: each round passes a byte at least.
scan_lines : ℕ → Bytes → ℕ → Scan → Option Scan
scan_lines zero text i sc = none
scan_lines (suc f) text i sc =
    let (line, next) = line_at text i (length text) in
    let on = scan_lines f text next (scan_line i line sc) in
    if leb (length text) i then some sc else on

section_units : List ℕ → ℕ → List TextUnit
section_units [] total = []
section_units (s ∷ []) total = unit s total ∷ []
section_units (s ∷ t ∷ starts) total = unit s t ∷ section_units (t ∷ starts) total

-- `unitsFromStarts`, for a list that is not empty.
unfoldable pub units_from_starts : List ℕ → ℕ → List TextUnit
unfolding section_units
units_from_starts [] total = []
units_from_starts (s ∷ starts) total =
    let sections = section_units (s ∷ starts) total in
    if ltb 0 s then unit 0 s ∷ sections else sections

units_of : Bytes → Option Scan → List TextUnit
units_of text none = []
units_of text (some sc) = elim sc.starts [
  | [] ↦ paragraphs text
  | s ∷ starts ↦ units_from_starts (s ∷ starts) (length text)
]

unfoldable pub headings : Bytes → List TextUnit
unfolding scan_lines units_of
headings [] = []
headings (b ∷ s) = units_of (b ∷ s) (scan_lines (length (b ∷ s) + 1) (b ∷ s) 0 initial)
