-- ===== src/Chunk/Split/Coverage.antt =====
-- No content is lost: with a segmenter whose units cover the text, the chunks cover it.
use maestro_cms.Prelude.{
  ℕ, ◌+◌, ◌-◌, ◌≤◌, ◌<◌, ◌≡◌, refl, sym, ap, ◌∙◌, inl, inr, none, some, List, map, arith,
  Bool-cases, length,
}
use maestro_cms.Text.{Bytes}
use maestro_cms.Text.Trim.{trim_space}
use maestro_cms.Chunk.Defs.{Chunk, Config, Boundaries}
use maestro_cms.Chunk.Segment.{valid_units, to_region}
use maestro_cms.Chunk.Segment.Valid.{whole-IsSpan}
use maestro_cms.Chunk.Segment.Paragraphs.{paragraphs-IsTiling}
use maestro_cms.Chunk.Cuts.Snap.{IsRuneText}
use maestro_cms.Chunk.Run.{Covered}
use maestro_cms.Chunk.Hard.{Float64}
use maestro_cms.Chunk.Hard.Lines.{IsTiling, IsTiling-covers}
use maestro_cms.Chunk.Hard.LoopLaws.{InRegion}
use maestro_cms.Chunk.Split.{boundaries_of, units_of, leading, trimmed_view, split}
use maestro_cms.Chunk.Split.Contract.{regions_of, split_cases, view_bounds}

-- The units of the segmenter lie end to end and cover the text.
abbrev pub Tiles : Boundaries → Bytes → Type 0
Tiles f text = IsTiling text (length text) 0 (length text) (map to_region (f text))

units_of-IsTiling :
    (cfg : Config) (text : Bytes)
    → 0 < length text
    → Tiles (boundaries_of cfg) text
    → IsTiling text (length text) 0 (length text) (regions_of cfg text)
unfolding units_of
units_of-IsTiling cfg text h t = elim (Bool-cases (valid_units text (boundaries_of cfg text))) [
  | inl ok ↦ rw ok t
  | inr bad ↦ rw bad (refl, whole-IsSpan text h, refl)
]

in_some_region :
    (cfg : Config) (text : Bytes) (p : ℕ)
    → Tiles (boundaries_of cfg) text
    → IsRuneText text
    → p < length text
    → InRegion text (regions_of cfg text) 0 p
in_some_region cfg text p t runes h =
    let tiled = units_of-IsTiling cfg text (omega arith) t in
    let (k, kl, low, high) =
      IsTiling-covers text (length text) 0 (length text) (regions_of cfg text) p tiled (omega arith)
        h in
    (k, omega arith, kl, runes, low, high)

some_eq {ℓ} : {A : Type ℓ} {a b : A} → some a ≡ some b → a ≡ b
some_eq e = cc

-- If the segmenter's units cover the trimmed text and that text is made of runes, every byte between
-- the leading and the trailing white space of the source is in a chunk.
pub split-Covered :
    (float : Float64) (cfg : Config) (source : Bytes) (chunks : List Chunk) (p : ℕ)
    → Tiles (boundaries_of cfg) (trimmed_view source)
    → IsRuneText (trimmed_view source)
    → split float cfg source ≡ some chunks
    → leading source ≤ p
    → p < leading source + length (trim_space source)
    → Covered chunks p
split-Covered float cfg source chunks p t runes e l h =
    let (cs, returns, cases) = split_cases float cfg source (trim_space source) refl in
    let same : chunks ≡ cs = some_eq (sym e ∙ returns) in
    elim cases [
      | inl (none_left, blank) ↦ absurd (omega (arith, ap length blank))
      | inr is ↦
          let at : p - leading source + leading source ≡ p = omega arith in
          let inside =
            in_some_region cfg (trimmed_view source) (p - leading source) t runes
              (omega (arith, view_bounds source)) in
          rw same (rw at at (is.1 (p - leading source) inside))
    ]

paragraphs-Tiles :
    (cfg : Config) (text : Bytes) → cfg.boundaries ≡ none → Tiles (boundaries_of cfg) text
unfolding boundaries_of
paragraphs-Tiles cfg text e = rw (e, boundaries_of) (paragraphs-IsTiling text)

-- With the default segmenter no byte of the trimmed text is lost, whatever the budgets and the
-- estimator, if the text is made of runes.
pub split-Covered_paragraphs :
    (float : Float64) (cfg : Config) (source : Bytes) (chunks : List Chunk) (p : ℕ)
    → cfg.boundaries ≡ none
    → IsRuneText (trimmed_view source)
    → split float cfg source ≡ some chunks
    → leading source ≤ p
    → p < leading source + length (trim_space source)
    → Covered chunks p
split-Covered_paragraphs float cfg source chunks p none_given runes e l h =
    split-Covered float cfg source chunks p (paragraphs-Tiles cfg (trimmed_view source) none_given)
      runes e l h
