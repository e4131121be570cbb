-- ===== src/Chunk/Cuts/Bounds.antt =====
-- Where `findBoundary` cuts: behind the chunk's start, and at the ideal end at the latest.
use maestro_cms.Prelude.{
  ℕ, zero, suc, ◌+◌, ◌-◌, ◌≤◌, ◌<◌, Bool, true, false, Option, none, some, [], ◌∷◌, arith, ltb,
  if◌then◌else◌, length, drop, slice, length-slice, length-drop,
}
use maestro_cms.Text.{Bytes}
use maestro_cms.Text.Utf8.{rune_size, rune_size_bounds}
use maestro_cms.Text.Trim.{space_len}
use maestro_cms.Chunk.Cuts.{
  sentence_end, sentence_scan, last_sentence_end, space_scan, last_whitespace, window_start,
  find_boundary,
}

abbrev Below : ℕ → Option ℕ → Type 0
Below n none = Unit
Below n (some r) = r < n

Below-if :
    (n i : ℕ) (b : Bool) (last : Option ℕ)
    → i < n
    → Below n last
    → Below n (if b then some i else last)
Below-if n i true last lt h = lt
Below-if n i false last lt h = h

sentence_scan-Below :
    (i n : ℕ) (last : Option ℕ) (s : Bytes)
    → Below n last
    → i + length s ≤ n + 1
    → Below n (sentence_scan i last s)
unfolding sentence_scan
sentence_scan-Below i n last [] h k = h
sentence_scan-Below i n last (c ∷ []) h k = h
sentence_scan-Below i n last (c ∷ d ∷ s) h k =
    sentence_scan-Below (i + 1) n (if sentence_end c d then some i else last) (d ∷ s)
      (Below-if n i (sentence_end c d) last (omega arith) h) (omega arith)

space_scan-Below :
    (f i n : ℕ) (last : Option ℕ) (s : Bytes)
    → Below n last
    → i + length s ≤ n
    → Below n (space_scan f i last s)
unfolding space_scan
space_scan-Below zero i n last s h k = h
space_scan-Below (suc f) i n last [] h k = h
space_scan-Below (suc f) i n last (c ∷ s) h k =
    let size = rune_size (c ∷ s) in
    let space = ltb 0 (space_len (c ∷ s)) in
    let bounds = rune_size_bounds c s in
    space_scan-Below f (i + size) n (if space then some i else last) (drop size (c ∷ s))
      (Below-if n i space last (omega arith) h) (omega (arith, length-drop size (c ∷ s), bounds))

-- A quarter of the window lies in front of the ideal end.
window_start_bounds :
    (start ideal_end : ℕ)
    → start < ideal_end
    → (start ≤ window_start start ideal_end)
      × (window_start start ideal_end ≤ ideal_end)
      × (start < window_start start ideal_end)
window_start_bounds start ideal_end h = omega arith

-- `findBoundary` returns a position behind `start`, and at the ideal end at the latest.
pub find_boundary_bounds :
    (text : Bytes) (start ideal_end : ℕ)
    → start < ideal_end
    → ideal_end ≤ length text
    → (start < find_boundary text start ideal_end)
      × (find_boundary text start ideal_end ≤ ideal_end)
unfolding find_boundary last_sentence_end last_whitespace
find_boundary_bounds text start ideal_end h k =
    let from = window_start start ideal_end in
    let w = window_start_bounds start ideal_end h in
    let window = slice text from ideal_end in
    let len = length-slice text from ideal_end (omega arith) k in
    let sentence =
      sentence_scan-Below 0 (ideal_end - from - 1) none window tt (omega (arith, len)) in
    let space =
      space_scan-Below (length window) 0 (ideal_end - from) none window tt (omega (arith, len)) in
    ground (arith, sentence, space, w)
