-- ===== src/Chunk/Headings/Kinds.antt =====
-- The lines of a Markdown text by kinds, the headings among them, and what a round of the loop of
-- `Headings` does with a line of each kind.
use maestro_cms.Prelude.{
  ℕ, ◌≡◌, Bool, true, false, ◌&&◌, Option, none, some, List, [], ◌∷◌, arith, ltb, if◌then◌else◌,
}
use maestro_cms.Text.{Bytes, bytes_eq}
use maestro_cms.Text.Trim.{trim_space}
use maestro_cms.Chunk.Lines.{fence_marker, is_fence_open, closes_fence, atx_level, setext_underline}
use maestro_cms.Chunk.Headings.{Scan, append_start, open_fence, scan_line}

-- A fence's delimiter, a line inside a fence, an ATX heading, the underline of a paragraph line, a blank
-- line, and a line of a paragraph.
pub data Kind : Type 0 where
  fence code atx underline blank prose : Kind

abbrev pub is_prose : Kind → Bool
is_prose prose = true
is_prose _ = false

-- The character and the length of the fence that is inside behind a line.
abbrev pub fence_after : Option (ℕ × ℕ) → Bytes → Option (ℕ × ℕ)
fence_after none line = elim (fence_marker line) [ none ↦ none | some m ↦ some (m.ch, m.n) ]
fence_after (some (ch, n)) line = if closes_fence ch n line then none else some (ch, n)

-- The kind of a line, behind a line of a paragraph or not.
abbrev pub kind_of : Option (ℕ × ℕ) → Bool → Bytes → Kind
kind_of (some _) behind line = code
kind_of none behind line =
    if is_fence_open line
    then fence
    else if ltb 0 (atx_level line)
    then atx
    else if behind && setext_underline line
    then underline
    else if bytes_eq (trim_space line) []
    then blank
    else prose

-- The kinds of the lines, each with its line's start.
abbrev pub kinds : Option (ℕ × ℕ) → Bool → List (ℕ × Bytes) → List (ℕ × Kind)
kinds inside behind [] = []
kinds inside behind ((at, line) ∷ lines) =
    (at, kind_of inside behind line)
    ∷ kinds (fence_after inside line) (is_prose (kind_of inside behind line)) lines

abbrev pub underlined : List (ℕ × Kind) → Bool
underlined ((at, underline) ∷ ks) = true
underlined _ = false

-- The starts of the headings: the ATX headings, and the paragraph lines above an underline.
abbrev pub heading_starts : List (ℕ × Kind) → List ℕ
heading_starts [] = []
heading_starts ((at, atx) ∷ ks) = at ∷ heading_starts ks
heading_starts ((at, prose) ∷ ks) =
    if underlined ks then at ∷ heading_starts ks else heading_starts ks
heading_starts ((at, _) ∷ ks) = heading_starts ks

abbrev pub fence_of : Scan → Option (ℕ × ℕ)
fence_of sc = if sc.in_fence then some (sc.fence_char, sc.fence_len) else none

-- The starts behind a line of a kind.
abbrev pub collected : Kind → ℕ → Scan → List ℕ
collected atx i sc = append_start sc.starts i
collected underline i sc = append_start sc.starts sc.prev_line_start
collected _ i sc = sc.starts

-- What a round makes of the state.
module _ (i : ℕ) (line : Bytes) (sc : Scan) where
  abbrev pub line_kind : Kind
  line_kind = kind_of (fence_of sc) sc.prev_is_paragraph line

  pub scan_line-collected : (scan_line i line sc).starts ≡ collected line_kind i sc
  unfolding scan_line open_fence is_fence_open
  scan_line-collected = ground arith

  pub scan_line-is_prose : (scan_line i line sc).prev_is_paragraph ≡ is_prose line_kind
  unfolding scan_line open_fence is_fence_open
  scan_line-is_prose = ground arith

  pub scan_line-at : (scan_line i line sc).prev_line_start ≡ i
  unfolding scan_line open_fence
  scan_line-at = ground arith

  pub scan_line-fence_after : fence_of (scan_line i line sc) ≡ fence_after (fence_of sc) line
  unfolding scan_line open_fence is_fence_open
  scan_line-fence_after = ground arith

pub underline_behind :
    (inside : Option (ℕ × ℕ)) (behind : Bool) (line : Bytes)
    → kind_of inside behind line ≡ underline
    → behind ≡ true
underline_behind inside behind line e = ground (arith, e)
