-- ===== src/Chunk/Split.antt =====
-- chunk/chunk.go: `Split`.
pub mod Contract
pub mod Coverage
use maestro_cms.Prelude.{
  ℕ, zero, suc, ◌+◌, ◌-◌, Bool, true, false, Option, none, some, List, [], ◌∷◌, if◌then◌else◌,
  length, slice, map,
}
use maestro_cms.Prelude.Int.{pos_part}
use maestro_cms.Text.{Bytes}
use maestro_cms.Text.Trim.{trim_left, trim_space}
use maestro_cms.Chunk.Defs.{
  Region, TextUnit, unit, Chunk, Config, Out, Estimate, Boundaries, max_tokens_of,
  overlap_tokens_of, estimate_of,
}
use maestro_cms.Chunk.Segment.{valid_units, paragraphs, to_region}
use maestro_cms.Chunk.Hard.{Float64}
use maestro_cms.Chunk.Hard.Loop.{region_at, pack_loop, ◌>>=◌}
use maestro_cms.Chunk.Hard.Fenced.{tokens_of, hard_split}

unfoldable pub boundaries_of : Config → Boundaries
boundaries_of cfg = elim cfg.boundaries [ some f ↦ f | none ↦ paragraphs ]

-- The units of the segmenter, or one unit for the whole text where they are invalid.
unfoldable pub units_of : Config → Bytes → List TextUnit
units_of cfg text =
    let units = boundaries_of cfg text in
    if valid_units text units then units else unit 0 (length text) ∷ []

-- The shift of a chunk's span by the white space trimmed in front of the text.
abbrev pub shift : ℕ → Chunk → Chunk
shift off c = record c { start_byte = c.start_byte + off; end_byte = c.end_byte + off }

abbrev pub leading : Bytes → ℕ
leading source = length source - length (trim_left source)

-- `text := source[off : off+len(trimmed)]`
abbrev pub trimmed_view : Bytes → Bytes
trimmed_view source = slice source (leading source) (leading source + length (trim_space source))

module _ (float : Float64) (cfg : Config) where
  -- The chunks of the trimmed text.
  unfoldable pub split_text : Bytes → Option (List Chunk)
  split_text text =
      let est = estimate_of cfg in
      let regions = map to_region (units_of cfg text) in
      let oversize = λ (i : ℕ).
        let r = region_at regions i in
        hard_split float text est (max_tokens_of cfg) (overlap_tokens_of cfg) r.start r.end in
      pack_loop text regions (tokens_of text est regions) (max_tokens_of cfg)
        (overlap_tokens_of cfg) oversize (length regions + 1) 0 (record { chunks = []; idx = 0 })
      >>= λ out. some out.chunks

  -- The first argument is `trimmed`.
  unfoldable pub split_trimmed : Bytes → Bytes → Option (List Chunk)
  split_trimmed [] source = some []
  split_trimmed (b ∷ s) source =
      split_text (trimmed_view source) >>= λ chunks. some (map (shift (leading source)) chunks)

  -- `none` would stand for a loop that does not end.
  unfoldable pub split : Bytes → Option (List Chunk)
  split source = split_trimmed (trim_space source) source
