-- ===== src/Chunk/Lines.antt =====
-- chunk/headings.go: a line of the text, and what kind of Markdown line it is.
use maestro_cms.Prelude.{
  ℕ, ◌+◌, ◌-◌, Bool, true, false, not, ◌&&◌, ◌||◌, Option, none, some, [], ◌∷◌, ltb, leb, ◌==◌,
  if◌then◌else◌, length, drop, slice,
}
use maestro_cms.Text.{Bytes, byte_at, bytes_eq, index_byte, count_leading, contains_byte}
use maestro_cms.Text.Trim.{trim_space}

-- The content of the line at `i`, and the start of the next line.
unfoldable pub line_at : Bytes → ℕ → ℕ → Bytes × ℕ
line_at text i end = elim (index_byte b'\n' (slice text i end)) [
  | none ↦ (slice text i end, end)
  | some nl ↦
      let line_end = i + nl in
      let cut : ℕ =
        if ltb i line_end && byte_at text (line_end - 1) == b'\r' then line_end - 1 else line_end in
      (slice text i cut, line_end + 1)
]

pub record FenceMark : Type 0 where
  pub ch : ℕ
  pub n : ℕ
  pub info : Bool

-- `fenceMarker` behind the leading spaces, on the rest of the line; `none` is `ok == false`.
fence_run : Bytes → Option FenceMark
fence_run [] = none
fence_run (c ∷ s) =
    let n = count_leading c (c ∷ s) in
    let rest = drop n (c ∷ s) in
    if not (c == b'`') && not (c == b'~')
    then none
    else if ltb n 3
    then none
    else if c == b'`' && contains_byte b'`' rest
    then none
    else some (record { ch = c; n = n; info = not (bytes_eq (trim_space rest) []) })

unfoldable pub fence_marker : Bytes → Option FenceMark
unfolding fence_run
fence_marker line =
    let i = count_leading 0x20 line in
    if ltb 3 i || leb (length line) i then none else fence_run (drop i line)

unfoldable pub is_fence_open : Bytes → Bool
is_fence_open line = elim (fence_marker line) [ none ↦ false | some _ ↦ true ]

-- The test of a line inside a fence, `ok && ch == fenceChar && n >= fenceLen && !info`.
unfoldable pub closes_fence : ℕ → ℕ → Bytes → Bool
closes_fence fence_char fence_len line = elim (fence_marker line) [
  | none ↦ false
  | some m ↦ m.ch == fence_char && (leb fence_len m.n && not m.info)
]

unfoldable pub atx_level : Bytes → ℕ
atx_level line =
    let i = count_leading 0x20 line in
    let level = count_leading b'#' (drop i line) in
    let h = i + level in
    if ltb 3 i
    then 0
    else if ltb level 1 || ltb 6 level
    then 0
    else if h == length line || (byte_at line h == 0x20 || byte_at line h == b'\t')
    then level
    else 0

-- `strings.Trim(s, " \t") == ""`
only_blanks : Bytes → Bool
only_blanks [] = true
only_blanks (c ∷ s) = (c == 0x20 || c == b'\t') && only_blanks s

underline_run : Bytes → Bool
unfolding only_blanks
underline_run [] = false
underline_run (c ∷ s) =
    if not (c == b'=') && not (c == b'-')
    then false
    else only_blanks (drop (count_leading c (c ∷ s)) (c ∷ s))

unfoldable pub setext_underline : Bytes → Bool
unfolding underline_run
setext_underline line =
    let i = count_leading 0x20 line in
    if ltb 3 i || leb (length line) i then false else underline_run (drop i line)
