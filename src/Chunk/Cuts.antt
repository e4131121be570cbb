-- ===== src/Chunk/Cuts.antt =====
-- chunk/chunk.go: where a hard split cuts. `findBoundary` with `lastSentenceEnd` and
-- `lastWhitespace`, and the two functions that snap a position to a rune boundary.
pub mod Bounds
pub mod Snap
use maestro_cms.Prelude.{
  ℕ, zero, suc, ◌+◌, ◌-◌, ◌/◌, Bool, not, ◌&&◌, ◌||◌, Option, none, some, List, [], ◌∷◌, ltb, leb,
  ◌==◌, if◌then◌else◌, length, drop, slice, max, min,
}
use maestro_cms.Text.{Bytes, byte_at}
use maestro_cms.Text.Utf8.{rune_start, rune_size}
use maestro_cms.Text.Trim.{space_len}

abbrev sentence_end : ℕ → ℕ → Bool
sentence_end c d = (c == b'.' || (c == b'!' || c == b'?')) && d == 0x20

-- The loop of `lastSentenceEnd` at index `i`; `none` is -1.
sentence_scan : ℕ → Option ℕ → Bytes → Option ℕ
sentence_scan i last [] = last
sentence_scan i last (c ∷ []) = last
sentence_scan i last (c ∷ d ∷ s) =
    sentence_scan (i + 1) (if sentence_end c d then some i else last) (d ∷ s)

unfoldable pub last_sentence_end : Bytes → Option ℕ
unfolding sentence_scan
last_sentence_end s = sentence_scan 0 none s

-- The loop of `lastWhitespace` over the runes, on fuel: each takes a byte at least.
space_scan : ℕ → ℕ → Option ℕ → Bytes → Option ℕ
space_scan zero i last s = last
space_scan (suc f) i last [] = last
space_scan (suc f) i last (c ∷ s) =
    let n = rune_size (c ∷ s) in
    space_scan f (i + n) (if ltb 0 (space_len (c ∷ s)) then some i else last) (drop n (c ∷ s))

unfoldable pub last_whitespace : Bytes → Option ℕ
unfolding space_scan
last_whitespace s = space_scan (length s) 0 none s

abbrev pub window_start : ℕ → ℕ → ℕ
window_start start ideal_end = max (ideal_end - (ideal_end - start) / 4) start

unfoldable pub find_boundary : Bytes → ℕ → ℕ → ℕ
find_boundary text start ideal_end =
    let from = window_start start ideal_end in
    let window = slice text from ideal_end in
    elim (last_sentence_end window) [
      | some i ↦ from + i + 1
      | none ↦ elim (last_whitespace window) [ some i ↦ from + i | none ↦ ideal_end ]
    ]

-- The loop of `snapEndToRuneBoundary`, at `end = start + n`.
snap_back : Bytes → ℕ → ℕ → ℕ
snap_back text start zero = start
snap_back text start (suc n) =
    let back = snap_back text start n in
    if ltb (start + suc n) (length text) && not (rune_start (byte_at text (start + suc n)))
    then back
    else start + suc n

unfoldable pub snap_end : Bytes → ℕ → ℕ → ℕ
unfolding snap_back
snap_end text start ideal_end =
    let end = snap_back text start (min ideal_end (length text) - start) in
    if ltb start end then end else min (start + rune_size (drop start text)) (length text)

-- The loop of `snapStartToRuneStart`, with `n` bytes left behind `idx`.
snap_forward : Bytes → ℕ → ℕ → ℕ
snap_forward text zero idx = idx
snap_forward text (suc n) idx =
    let on = snap_forward text n (idx + 1) in
    if not (rune_start (byte_at text idx)) then on else idx

unfoldable pub snap_start : Bytes → ℕ → ℕ
unfolding snap_forward
snap_start text idx =
    if leb idx 0
    then 0
    else if leb (length text) idx
    then length text
    else snap_forward text (length text - idx) idx
