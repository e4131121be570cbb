-- ===== src/Chunk/Segment/Valid.antt =====
-- What `validUnits` accepts.
use maestro_cms.Prelude.{
  ℕ, ◌≤◌, ◌<◌, ◌≡◌, ◌≢◌, ◌⊎◌, ◌↔◌, sym, refl, inl, true, false, List, [], ◌∷◌, map, arith, length,
}
use maestro_cms.Prelude.Int.{pos, pos_part, is_negative, pos-pos_part}
use maestro_cms.Text.{Bytes, byte_at}
use maestro_cms.Text.Utf8.{rune_start}
use maestro_cms.Chunk.Defs.{TextUnit}
use maestro_cms.Chunk.Cuts.Snap.{aligned_end}
use maestro_cms.Chunk.Hard.Ordered.{IsSpan, IsOrdered}
use maestro_cms.Chunk.Segment.{rune_aligned, unit_ok, units_ok, valid_units, to_region}

unit_ok-IsSpan :
    (text : Bytes) (prev : ℕ) (u : TextUnit)
    → unit_ok text prev u ≡ true
    → (prev ≤ pos_part u.start) × IsSpan text (length text) (to_region u)
unfolding unit_ok
unit_ok-IsSpan text prev u h =
    let aligned : (rune_aligned text (pos_part u.start) ≡ true)
        × (rune_aligned text (pos_part u.end) ≡ true) =
      ground arith in
    (
      ground arith,
      record {
        not_empty = ground arith;
        in_range = ground arith;
        start_stop = inl aligned.0;
        end_stop = inl aligned.1;
      },
    )

units_ok-IsOrdered :
    (text : Bytes) (prev : ℕ) (units : List TextUnit)
    → units_ok text prev units ≡ true
    → IsOrdered text (length text) prev (map to_region units)
unfolding units_ok
units_ok-IsOrdered text prev [] h = tt
units_ok-IsOrdered text prev (u ∷ units) h =
    let ok : (unit_ok text prev u ≡ true) × (units_ok text (pos_part u.end) units ≡ true) =
      ground arith in
    let (le, span) = unit_ok-IsSpan text prev u ok.0 in
    (le, span, units_ok-IsOrdered text (pos_part u.end) units ok.1)

-- The form in which `Split` uses it.
pub valid_units-IsOrdered :
    (text : Bytes) (units : List TextUnit)
    → valid_units text units ≡ true
    → IsOrdered text (length text) 0 (map to_region units)
unfolding valid_units
valid_units-IsOrdered text [] h = tt
valid_units-IsOrdered text (u ∷ units) h = units_ok-IsOrdered text 0 (u ∷ units) h

-- A byte offset at which a rune begins, or the end of the text.
abbrev pub IsRuneStop : Bytes → ℕ → Type 0
IsRuneStop text i = (i ≡ 0) ⊎ ((i ≡ length text) ⊎ (rune_start (byte_at text i) ≡ true))

-- The units are nonempty spans of the text from `prev` on, in ascending order and without overlap, and
-- both ends of each are rune boundaries.
abbrev pub AllSpans : Bytes → ℕ → List TextUnit → Type 0
AllSpans text prev [] = Unit
AllSpans text prev (u ∷ units) =
    (a b : ℕ) × (u.start ≡ pos a)
    × (u.end ≡ pos b)
    × (prev ≤ a)
    × (a < b)
    × (b ≤ length text)
    × IsRuneStop text a
    × IsRuneStop text b
    × AllSpans text b units

rune_aligned-IsRuneStop : (text : Bytes) (i : ℕ) → (rune_aligned text i ≡ true) ↔ IsRuneStop text i
unfolding rune_aligned
rune_aligned-IsRuneStop text i = ground arith

units_ok-AllSpans :
    (text : Bytes) (prev : ℕ) (units : List TextUnit)
    → units_ok text prev units ≡ true
    → AllSpans text prev units
unfolding units_ok unit_ok
units_ok-AllSpans text prev [] h = tt
units_ok-AllSpans text prev (u ∷ units) h =
    let rest : units_ok text (pos_part u.end) units ≡ true = ground arith in
    let start : is_negative u.start ≡ false = ground arith in
    let end : is_negative u.end ≡ false = ground arith in
    let aligned : (rune_aligned text (pos_part u.start) ≡ true)
        × (rune_aligned text (pos_part u.end) ≡ true) =
      ground arith in
    (
      pos_part u.start,
      pos_part u.end,
      sym (pos-pos_part u.start start),
      sym (pos-pos_part u.end end),
      ground arith,
      ground arith,
      ground arith,
      (rune_aligned-IsRuneStop text (pos_part u.start)).0 aligned.0,
      (rune_aligned-IsRuneStop text (pos_part u.end)).0 aligned.1,
      units_ok-AllSpans text (pos_part u.end) units rest,
    )

AllSpans-units_ok :
    (text : Bytes) (prev : ℕ) (units : List TextUnit)
    → AllSpans text prev units
    → units_ok text prev units ≡ true
unfolding units_ok unit_ok
AllSpans-units_ok text prev [] h = refl
AllSpans-units_ok text prev (u ∷ units) (a, b, ea, eb, order, less, fits, ra, rb, all) =
    let first = (rune_aligned-IsRuneStop text a).1 ra in
    let last = (rune_aligned-IsRuneStop text b).1 rb in
    let rest = AllSpans-units_ok text b units all in rw (ea, eb) (ground (arith, first, last, rest))

-- The check accepts a list of units exactly if it is not empty and its units are spans `[a, b)` of the
-- text with `0 <= a < b <= len(text)`, in ascending order and without overlap, and each end is 0, the
-- text's length, or the offset of a byte that begins a rune.
pub valid_units_iff :
    (text : Bytes) (units : List TextUnit)
    → (valid_units text units ≡ true) ↔ ((units ≢ []) × AllSpans text 0 units)
unfolding valid_units
valid_units_iff text [] = ground arith
valid_units_iff text (u ∷ units) = (
  λ h. ((λ e. cc), units_ok-AllSpans text 0 (u ∷ units) h),
  λ p. AllSpans-units_ok text 0 (u ∷ units) p.1,
)

-- The unit that replaces an invalid list is the whole text.
pub whole-IsSpan :
    (text : Bytes)
    → 0 < length text
    → IsSpan text (length text) (record { start = 0; end = length text })
unfolding rune_aligned
whole-IsSpan text h = record {
  not_empty = h;
  in_range = omega arith;
  start_stop = inl refl;
  end_stop = inl (aligned_end text);
}
