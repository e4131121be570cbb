-- ===== src/Chunk/Segment.antt =====
-- chunk/chunk.go: `validUnits`, `runeAligned`, and the default segmenter `Paragraphs` with
-- `nextBlankLine`.
pub mod Valid
pub mod Paragraphs
use maestro_cms.Prelude.{
  ℕ, zero, suc, ◌+◌, ◌-◌, Bool, true, false, not, ◌&&◌, ◌||◌, Option, none, some, List, [], ◌∷◌,
  ◌++◌, ltb, leb, ◌==◌, if◌then◌else◌, length, drop,
}
use maestro_cms.Prelude.Int.{pos_part, is_negative}
use maestro_cms.Text.{Bytes, byte_at}
use maestro_cms.Text.Utf8.{rune_start}
use maestro_cms.Chunk.Defs.{Region, TextUnit, unit}

-- `[Start, End)` of a valid unit.
abbrev pub to_region : TextUnit → Region
to_region u = record { start = pos_part u.start; end = pos_part u.end }

unfoldable pub rune_aligned : Bytes → ℕ → Bool
rune_aligned text i = i == 0 || (i == length text || rune_start (byte_at text i))

-- The tests of one round of `validUnits`, in its order; a negative end fails with `Start >= End`.
unit_ok : Bytes → ℕ → TextUnit → Bool
unit_ok text prev_end u =
    not (is_negative u.start)
    && (not (is_negative u.end)
        && (ltb (pos_part u.start) (pos_part u.end)
            && (leb (pos_part u.end) (length text)
                && (leb prev_end (pos_part u.start)
                    && (rune_aligned text (pos_part u.start)
                        && rune_aligned text (pos_part u.end))))))

units_ok : Bytes → ℕ → List TextUnit → Bool
unfolding unit_ok
units_ok text prev_end [] = true
units_ok text prev_end (u ∷ units) = unit_ok text prev_end u && units_ok text (pos_part u.end) units

unfoldable pub valid_units : Bytes → List TextUnit → Bool
unfolding units_ok
valid_units text [] = false
valid_units text (u ∷ units) = units_ok text 0 (u ∷ units)

-- The inner loop of `nextBlankLine`: the newlines of the run that the text begins with, each with an
-- optional "\r" before it, and the bytes that they take.
unfoldable pub newline_run : Bytes → ℕ × ℕ
newline_run [] = (0, 0)
newline_run (c ∷ []) = if c == b'\n' then (1, 1) else (0, 0)
newline_run (c ∷ d ∷ s) = elim (c == b'\n') [
  | true ↦ let (count, bytes) = newline_run (d ∷ s) in (count + 1, bytes + 1)
  | false ↦ elim (c == b'\r' && d == b'\n') [
    | true ↦ let (count, bytes) = newline_run s in (count + 1, bytes + 2)
    | false ↦ (0, 0)
  ]
]

-- The outer loop, at index `i` of the text whose rest is given; the flag says that the byte before
-- `i` was scanned and is a "\r". A run of one newline takes one byte, and the scan goes on behind it.
unfoldable pub blank_scan : ℕ → Bool → Bytes → Option (ℕ × ℕ)
unfolding newline_run
blank_scan i cr [] = none
blank_scan i cr (c ∷ s) =
    let (count, bytes) = newline_run (c ∷ s) in
    let found = some ((if cr then i - 1 else i), i + bytes) in
    let on = blank_scan (i + 1) (c == b'\r') s in if c == b'\n' && leb 2 count then found else on

-- `none` is (-1, -1).
unfoldable pub next_blank_line : Bytes → ℕ → Option (ℕ × ℕ)
unfolding blank_scan
next_blank_line text from = blank_scan from false (drop from text)

-- The loop of `Paragraphs`, on fuel: each unit but the last ends behind a separator of two bytes.
paragraphs_from : ℕ → Bytes → ℕ → List TextUnit → Option (List TextUnit)
paragraphs_from zero text start units = none
paragraphs_from (suc f) text start units =
    if leb (length text) start then some units else elim (next_blank_line text start) [
      | none ↦ some (units ++ unit start (length text) ∷ [])
      | some (sep, run_end) ↦ paragraphs_from f text run_end (units ++ unit start run_end ∷ [])
    ]

or_empty {ℓ} : {A : Type ℓ} → Option (List A) → List A
or_empty none = []
or_empty (some xs) = xs

unfoldable pub paragraphs : Bytes → List TextUnit
unfolding paragraphs_from or_empty
paragraphs text = or_empty (paragraphs_from (length text + 1) text 0 [])
