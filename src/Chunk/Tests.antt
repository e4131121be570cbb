-- ===== src/Chunk/Tests.antt =====
-- Runs of the chunker, and the theorems at concrete inputs.

use maestro_cms.Prelude.{
  ◌↔◌, ◌≢◌, ℕ, zero, suc, false, ◌+◌, ◌*◌, ◌/◌, ◌≤◌, ◌<◌, ◌≡◌, refl, inl, Bool, true, none, some,
  List, [], ◌∷◌, map, arith, length,
}
use maestro_cms.Prelude.Int.{pos}
use maestro_cms.Text.{Bytes, codes, index_byte, count_leading, bytes_eq}
use maestro_cms.Text.Utf8.{rune_size}
use maestro_cms.Text.Trim.{trim_space, trim_left}
use maestro_cms.Chunk.Defs.{Chunk, Config, TextUnit, unit, Out, default_estimate}
use maestro_cms.Chunk.Cuts.{find_boundary}
use maestro_cms.Chunk.Cuts.Bounds.{find_boundary_bounds}
use maestro_cms.Chunk.Cuts.Snap.{IsRuneText}
use maestro_cms.Chunk.Segment.{to_region, rune_aligned, valid_units}
use maestro_cms.Chunk.Segment.Valid.{valid_units_iff, AllSpans}
use maestro_cms.Chunk.Lines.{line_at, is_fence_open, fence_marker, atx_level}
use maestro_cms.Chunk.Headings.{headings, scan_line, append_start, units_from_starts}
use maestro_cms.Chunk.Headings.Kinds.{kinds, heading_starts}
use maestro_cms.Chunk.Headings.Outline.{IsLines, sections, headings-sections}
use maestro_cms.Chunk.Headings.Tiling.{headings-IsTiling}
use maestro_cms.Chunk.Pack.{grow_chunk, overlap_start}
use maestro_cms.Chunk.Pack.Grow.{IsGrown, grow_chunk-IsGrown}
use maestro_cms.Chunk.Pack.Overlap.{IsOverlap, overlap_start-IsOverlap}
use maestro_cms.Chunk.Run.{IsRun, Covered}
use maestro_cms.Chunk.Hard.{Float64}
use maestro_cms.Chunk.Hard.ProseLaws.{Splits}
use maestro_cms.Chunk.Hard.Fenced.{hard_split}
use maestro_cms.Chunk.Hard.Lines.{IsTiling}
use maestro_cms.Chunk.Hard.FencedLaws.{hard_split-Splits}
use maestro_cms.Chunk.Split.{split, boundaries_of, leading, trimmed_view}
use maestro_cms.Chunk.Split.Contract.{split_contract}
use maestro_cms.Chunk.Split.Coverage.{Tiles, split-Covered, split-Covered_paragraphs}

-- Exact fractions in place of `float64`.
abbrev fractions : Float64
fractions = record {
  F = ℕ × ℕ;
  of_int = λ n. (n, 1);
  to_int = λ q. q.0 / q.1;
  div = λ p q. (p.0 * q.1, p.1 * q.0);
  mul = λ p q. (p.0 * q.0, p.1 * q.1);
}

abbrev config : ℕ → ℕ → Bool → Config
config max_tokens overlap_tokens no_overlap = record {
  max_tokens = pos max_tokens;
  overlap_tokens = pos overlap_tokens;
  no_overlap = no_overlap;
  estimate = none;
  boundaries = none;
}

abbrev spans : List Chunk → List (ℕ × ℕ)
spans = map (λ c. (c.start_byte, c.end_byte))

abbrev prose_source : Bytes
prose_source = codes "  one two\n\nthree. four five six seven eight\n\nnine "

abbrev code_source : Bytes
code_source = codes "# a\none two\n```go\nx := 1\ny := 2\n```\nnine\n"

abbrev budget : Config
budget = config 3 2 true

abbrev three_words : Bytes
three_words = codes "a bc d"

abbrev padded : Bytes
padded = codes " a bc "

padded_runes : IsRuneText (trimmed_view padded)
unfolding rune_aligned trim_space trim_left rune_size
padded_runes zero h a = refl
padded_runes (suc zero) h a = refl
padded_runes (suc (suc zero)) h a = refl
padded_runes (suc (suc (suc zero))) h a = refl
padded_runes (suc (suc (suc (suc zero)))) h a = refl
padded_runes (suc (suc (suc (suc (suc n))))) h a = absurd (omega arith)

padded_inside : (leading padded ≤ 3) × (3 < leading padded + length (trim_space padded))
unfolding trim_space
padded_inside = (omega arith, omega arith)

abbrev by_headings : Config
by_headings = record budget { boundaries = some headings }

by_headings-Tiles : Tiles (boundaries_of by_headings) (trimmed_view padded)
unfolding boundaries_of
by_headings-Tiles = headings-IsTiling (trimmed_view padded)

headings-IsTiling_example :
    IsTiling code_source
      (length code_source)
      0
      (length code_source)
      (map to_region (headings code_source))
headings-IsTiling_example = headings-IsTiling code_source

headings-sections_example :
    (lines : List (ℕ × Bytes)) × IsLines code_source 0 lines
    × (headings code_source ≡ sections code_source (heading_starts (kinds none false lines)))
headings-sections_example = headings-sections code_source

abbrev two_units : List TextUnit
two_units = unit 0 2 ∷ unit 2 6 ∷ []

two_units-valid : valid_units three_words two_units ≡ true
unfolding valid_units rune_aligned
two_units-valid = refl

start_aligned : rune_aligned code_source 0 ≡ true
unfolding rune_aligned
start_aligned = refl

end_aligned : rune_aligned code_source 24 ≡ true
unfolding rune_aligned
end_aligned = refl

abbrev nothing : Out
nothing = record { chunks = []; idx = 0 }

two_headings :
    headings (codes "# a\nx\n## b\ny")
    ≡ record { start = pos 0; end = pos 6 } ∷ record { start = pos 6; end = pos 12 } ∷ []
unfolding headings line_at index_byte scan_line is_fence_open fence_marker count_leading atx_level
    bytes_eq trim_space append_start units_from_starts
two_headings = refl

-- Token counts of five units.
abbrev counts : List ℕ
counts = 2 ∷ 1 ∷ 1 ∷ 3 ∷ 1 ∷ []

split_contract_example :
    (chunks : List Chunk) × (split fractions budget prose_source ≡ some chunks)
    × IsRun prose_source (length prose_source) 0 (leading prose_source) (length prose_source) chunks
split_contract_example = split_contract fractions budget prose_source

split-Covered_paragraphs_example : Covered (split_contract fractions budget padded).0 3
split-Covered_paragraphs_example =
    split-Covered_paragraphs fractions budget padded (split_contract fractions budget padded).0 3
      refl padded_runes (split_contract fractions budget padded).1 padded_inside.0 padded_inside.1

split-Covered_example : Covered (split_contract fractions by_headings padded).0 3
split-Covered_example =
    split-Covered fractions by_headings padded (split_contract fractions by_headings padded).0 3
      by_headings-Tiles padded_runes (split_contract fractions by_headings padded).1 padded_inside.0
      padded_inside.1

grow_chunk-IsGrown_example : IsGrown counts 1 3 (grow_chunk counts 1 3).0 (grow_chunk counts 1 3).1
grow_chunk-IsGrown_example = grow_chunk-IsGrown counts 1 3 (omega arith) (omega arith)

overlap_start-IsOverlap_example : IsOverlap counts 0 2 1 (overlap_start counts 0 2 1)
overlap_start-IsOverlap_example = overlap_start-IsOverlap counts 0 2 1 (omega arith) (omega arith)

valid_units_iff_example :
    (valid_units three_words two_units ≡ true)
    ↔ ((two_units ≢ []) × AllSpans three_words 0 two_units)
valid_units_iff_example = valid_units_iff three_words two_units

find_boundary_bounds_example :
    (0 < find_boundary three_words 0 5) × (find_boundary three_words 0 5 ≤ 5)
find_boundary_bounds_example = find_boundary_bounds three_words 0 5 (omega arith) (omega arith)

hard_split-Splits_example :
    Splits code_source 0 24 nothing
      (hard_split fractions code_source default_estimate 4 2 0 24 nothing)
hard_split-Splits_example =
    hard_split-Splits fractions code_source default_estimate 4 2 (record { start = 0; end = 24 })
      nothing
      (
        omega arith,
        record {
          not_empty = omega arith;
          in_range = omega arith;
          start_stop = inl start_aligned;
          end_stop = inl end_aligned;
        },
      )
