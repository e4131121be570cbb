-- ===== src/Extract/Slides.antt =====
-- extract/pptx/pptx.go: the slide parts and their order.
pub mod Order
use maestro_cms.Prelude.{
  ℕ, zero, suc, ◌+◌, ◌-◌, ◌*◌, Bool, true, false, ◌&&◌, ◌||◌, not, Option, none, some, List, [],
  ◌∷◌, ◌++◌, ltb, leb, ◌==◌, if◌then◌else◌, length, take, drop, slice,
}
use maestro_cms.Prelude.Int.{ℤ, pos, negsuc}
use maestro_cms.Text.{Bytes, bytes_eq, codes}
use maestro_cms.Text.Path.{has_suffix}
use maestro_cms.Store.Memory.{has_prefix}
use maestro_cms.Extract.Ooxml.{ZipFile}

-- `slidePrefix` and `xmlSuffix`
abbrev pub slide_prefix : Bytes
slide_prefix = codes "ppt/slides/slide"

abbrev pub xml_suffix : Bytes
xml_suffix = codes ".xml"

unfoldable pub is_slide_part : Bytes → Bool
is_slide_part name = has_prefix name slide_prefix && has_suffix name xml_suffix

abbrev is_digit : ℕ → Bool
is_digit c = leb b'0' c && leb c b'9'

-- The number of the digits, behind `acc`; none where there is another byte.
unfoldable pub digits_value : ℕ → Bytes → Option ℕ
digits_value acc [] = some acc
digits_value acc (c ∷ s) =
    let on = digits_value (acc * 10 + (c - b'0')) s in if is_digit c then on else none

abbrev unsigned : Bytes → Option ℕ
unsigned [] = none
unsigned (c ∷ s) = digits_value 0 (c ∷ s)

-- A number of the type int, by its sign and its value.
unfoldable pub signed_int : Bool → ℕ → Option ℤ
signed_int false n = if ltb n 9223372036854775808 then some (pos n) else none
signed_int true zero = some (pos zero)
signed_int true (suc n) = if ltb n 9223372036854775808 then some (negsuc n) else none

-- `strconv.Atoi`
unfoldable pub atoi : Bytes → Option ℤ
atoi s = elim s [
  | [] ↦ none
  | c ∷ t ↦
      let digits = if c == b'-' || c == b'+' then unsigned t else unsigned (c ∷ t) in
      elim digits [ none ↦ none | some n ↦ signed_int (c == b'-') n ]
]

-- `a < b` on int
abbrev pub int_lt : ℤ → ℤ → Bool
int_lt (pos a) (pos b) = ltb a b
int_lt (pos a) (negsuc b) = false
int_lt (negsuc a) (pos b) = true
int_lt (negsuc a) (negsuc b) = ltb b a

-- `seen[name]`
unfoldable pub is_seen : Bytes → List Bytes → Bool
is_seen name [] = false
is_seen name (k ∷ seen) = bytes_eq k name || is_seen name seen

-- `slide`
pub record Slide (P : Type 0) : Type 0 where
  pub num : ℤ
  pub file : ZipFile P

module _ {P : Type 0} where
  -- The loop of `sortedSlides`.
  unfoldable pub slides_of : List (ZipFile P) → List (Slide P)
  slides_of [] = []
  slides_of (f ∷ files) =
      let rest = slides_of files in
      let mid = slice f.name (length slide_prefix) (length f.name - length xml_suffix) in
      let numbered : List (Slide P) = elim (atoi mid) [
        | none ↦ rest
        | some n ↦ record { num = n; file = f } ∷ rest
      ] in
      if not (is_slide_part f.name) then rest else numbered

  -- `sort.Slice` by number. Slides of one number keep the archive's order here, which `sort.Slice` does
  -- not promise.
  unfoldable pub insert_slide : Slide P → List (Slide P) → List (Slide P)
  insert_slide x [] = x ∷ []
  insert_slide x (y ∷ ys) =
      let on = y ∷ insert_slide x ys in if int_lt y.num x.num then on else x ∷ y ∷ ys

  unfoldable pub sort_slides : List (Slide P) → List (Slide P)
  sort_slides [] = []
  sort_slides (x ∷ xs) = insert_slide x (sort_slides xs)

  unfoldable pub sorted_slides : List (ZipFile P) → List (Slide P)
  sorted_slides files = sort_slides (slides_of files)

  -- `byName[name]`, a map that the archive's files fill in order.
  unfoldable pub file_at : Bytes → List (ZipFile P) → Option (ZipFile P)
  file_at name [] = none
  file_at name (f ∷ files) = elim (file_at name files) [
    | some later ↦ some later
    | none ↦ if bytes_eq f.name name then some f else none
  ]

  -- The first loop of `resolveOrder`, with `seen`: what it appends to `out`, and `seen` behind it.
  unfoldable pub ordered_files :
      List Bytes → List Bytes → List (ZipFile P) → List (ZipFile P) × List Bytes
  ordered_files [] seen files = ([], seen)
  ordered_files (name ∷ ordered) seen files =
      let passed = ordered_files ordered seen files in
      let (out, seen') = ordered_files ordered (name ∷ seen) files in
      if not (is_slide_part name) || is_seen name seen
      then passed
      else elim (file_at name files) [ none ↦ passed | some f ↦ (f ∷ out, seen') ]

  -- The second loop.
  unfoldable pub other_files : List (Slide P) → List Bytes → List (ZipFile P)
  other_files [] seen = []
  other_files (s ∷ slides) seen =
      let passed = other_files slides seen in
      let taken = s.file ∷ other_files slides (s.file.name ∷ seen) in
      if not (is_seen s.file.name seen) then taken else passed

  unfoldable pub resolve_order : List Bytes → List (Slide P) → List (ZipFile P) → List (ZipFile P)
  resolve_order ordered slides files =
      let (out, seen) = ordered_files ordered [] files in out ++ other_files slides seen
