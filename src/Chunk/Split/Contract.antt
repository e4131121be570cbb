-- ===== src/Chunk/Split/Contract.antt =====
-- `Split` returns, and every chunk keeps the contract of `Chunk`.
use Prim.Native.Nat.{zero-le}
use maestro_cms.Prelude.{
  ℕ, ◌+◌, ◌≤◌, ◌<◌, ◌≡◌, refl, sym, subst, ap, ◌∙◌, ◌⊎◌, inl, inr, some, List, [], ◌∷◌, map, arith,
  Bool-cases, length, length-map, length-slice, slice, slice-slice,
}
use maestro_cms.Text.{Bytes}
use maestro_cms.Text.Trim.Bounds.{length-trim_left, length-trim_space}
use maestro_cms.Text.Trim.{trim_space}
use maestro_cms.Chunk.Defs.{Region, Chunk, Config, max_tokens_of, overlap_tokens_of, estimate_of}
use maestro_cms.Chunk.Segment.{valid_units, to_region}
use maestro_cms.Chunk.Segment.Valid.{valid_units-IsOrdered, whole-IsSpan}
use maestro_cms.Chunk.Run.{IsRun, IsRun-upper, Covered}
use maestro_cms.Chunk.Hard.{Float64}
use maestro_cms.Chunk.Hard.Loop.{region_at, ◌>>=◌}
use maestro_cms.Chunk.Hard.LoopLaws.{InRegion, pack_loop-Appends}
use maestro_cms.Chunk.Hard.Ordered.{IsSpan-InText, IsOrdered, region_at-IsSpan}
use maestro_cms.Chunk.Hard.Fenced.{tokens_of}
use maestro_cms.Chunk.Hard.FencedLaws.{hard_split-Splits}
use maestro_cms.Chunk.Split.{
  boundaries_of, units_of, shift, leading, trimmed_view, split_text, split_trimmed, split,
}

abbrev pub regions_of : Config → Bytes → List Region
regions_of cfg text = map to_region (units_of cfg text)

units_of-IsOrdered :
    (cfg : Config) (text : Bytes)
    → 0 < length text
    → IsOrdered text (length text) 0 (regions_of cfg text)
unfolding units_of
units_of-IsOrdered cfg text h = elim (Bool-cases (valid_units text (boundaries_of cfg text))) [
  | inl ok ↦ rw ok (valid_units-IsOrdered text (boundaries_of cfg text) ok)
  | inr bad ↦ rw bad (zero-le, whole-IsSpan text h, tt)
]

-- The chunks of the trimmed text.
pub split_text_total :
    (float : Float64) (cfg : Config) (text : Bytes)
    → 0 < length text
    → (chunks : List Chunk) × (split_text float cfg text ≡ some chunks)
      × IsRun text (length text) 0 0 (length text) chunks
      × ((p : ℕ) → InRegion text (regions_of cfg text) 0 p → Covered chunks p)
unfolding split_text
split_text_total float cfg text h =
    let est = estimate_of cfg in
    let regions = regions_of cfg text in
    let ordered = units_of-IsOrdered cfg text h in
    let (out, returns, emits) =
      pack_loop-Appends text (length text) regions (tokens_of text est regions) (max_tokens_of cfg)
        (overlap_tokens_of cfg) ordered (length-map regions _) _
        (λ i o lt large.
          hard_split-Splits float text est (max_tokens_of cfg) (overlap_tokens_of cfg)
            (region_at regions i) o
            (IsSpan-InText text (length text) (region_at regions i) (omega arith)
              (region_at-IsSpan text (length text) 0 regions i ordered lt)))
        (length regions + 1) 0 0 (record { chunks = []; idx = 0 }) (omega arith) (omega arith)
        (omega arith) (λ _. omega arith) in
    (out.chunks, rw (returns, ◌>>=◌), rw emits.chunks_is emits.run, rw emits.chunks_is emits.covers)

-- Shifted back, the chunks of a view of the source are slices of the source.
IsRun-shift :
    (source : Bytes) (off n k lo hi : ℕ) (cs : List Chunk)
    → off + n ≤ length source
    → IsRun (slice source off (off + n)) n k lo hi cs
    → IsRun source (length source) k (lo + off) (hi + off) (map (shift off) cs)
IsRun-shift source off n k lo hi [] h r = omega arith
IsRun-shift source off n k lo hi (c ∷ cs) h (s, i, l, r) =
    let a : off + c.start_byte ≡ c.start_byte + off = omega arith in
    let b : off + c.end_byte ≡ c.end_byte + off = omega arith in
    let whole =
      slice-slice source off n c.start_byte c.end_byte (omega (arith, s.not_empty)) s.in_range in
    let later = IsRun-shift source off n (k + 1) (c.start_byte + 1) hi cs h r in
    let e : c.start_byte + 1 + off ≡ c.start_byte + off + 1 = omega arith in
    (
      record {
        text_is = s.text_is ∙ rw (← a, ← b) whole;
        not_empty = omega (arith, s.not_empty);
        in_range = omega (arith, s.in_range);
      },
      i,
      omega arith,
      rw e at later,
    )

Covered-shift :
    (off p : ℕ) (cs : List Chunk) → Covered cs p → Covered (map (shift off) cs) (p + off)
Covered-shift off p [] h = h
Covered-shift off p (c ∷ cs) (inl h) = inl (omega (arith, h), omega (arith, h))
Covered-shift off p (c ∷ cs) (inr h) = inr (Covered-shift off p cs h)

whole-IsRun :
    (source : Bytes) (off n : ℕ) (cs : List Chunk)
    → off + n ≤ length source
    → IsRun (slice source off (off + n)) n 0 0 n cs
    → IsRun source (length source) 0 off (length source) (map (shift off) cs)
whole-IsRun source off n cs h r =
    let e : 0 + off ≡ off = omega arith in
    IsRun-upper source (length source) 0 off (n + off) (length source) (map (shift off) cs)
      (omega arith) (rw e at (IsRun-shift source off n 0 0 n cs h r))

-- The view is the trimmed text's bytes of the source.
pub view_bounds :
    (source : Bytes)
    → (leading source + length (trim_space source) ≤ length source)
      × (length (trimmed_view source) ≡ length (trim_space source))
view_bounds source =
    let inside : leading source + length (trim_space source) ≤ length source =
      omega (arith, length-trim_left source, length-trim_space source) in
    (
      inside,
      omega (
        arith,
        length-slice source (leading source) (leading source + length (trim_space source))
            (omega arith) inside,
      ),
    )

-- What `Split` returns for a source that is not blank.
abbrev pub IsSplit : Config → Bytes → List Chunk → Type 0
IsSplit cfg source chunks =
    IsRun source (length source) 0 (leading source) (length source) chunks
    × ((p : ℕ)
        → InRegion (trimmed_view source) (regions_of cfg (trimmed_view source)) 0 p
        → Covered chunks (p + leading source))

split-blank :
    (float : Float64) (cfg : Config) (source : Bytes)
    → trim_space source ≡ []
    → split float cfg source ≡ some []
unfolding split split_trimmed
split-blank float cfg source e =
    subst (λ t. split_trimmed float cfg t source ≡ some []) (sym e) refl

split-shift :
    (float : Float64) (cfg : Config) (source s : Bytes) (b : ℕ) (chunks : List Chunk)
    → trim_space source ≡ b ∷ s
    → split_text float cfg (trimmed_view source) ≡ some chunks
    → split float cfg source ≡ some (map (shift (leading source)) chunks)
unfolding split split_trimmed
split-shift float cfg source s b chunks e returns =
    subst (λ t. split_trimmed float cfg t source ≡ some (map (shift (leading source)) chunks))
      (sym e) (rw (returns, ◌>>=◌))

pub split_cases :
    (float : Float64) (cfg : Config) (source trimmed : Bytes)
    → trim_space source ≡ trimmed
    → (chunks : List Chunk) × (split float cfg source ≡ some chunks)
      × (((chunks ≡ []) × (trimmed ≡ [])) ⊎ IsSplit cfg source chunks)
split_cases float cfg source [] e = ([], split-blank float cfg source e, inl (refl, refl))
split_cases float cfg source (b ∷ s) e =
    let text = trimmed_view source in
    let off = leading source in
    let (inside, len) = view_bounds source in
    let n : length text ≡ length (b ∷ s) = len ∙ ap length e in
    let (chunks, returns, run, covers) = split_text_total float cfg text (omega (arith, n)) in
    (
      map (shift off) chunks,
      split-shift float cfg source s b chunks e returns,
      inr (
        whole-IsRun source off (length (trim_space source)) chunks inside (rw len at run),
        λ p w. Covered-shift off p chunks (covers p w),
      ),
    )

-- `Split` returns for every source and configuration: nothing for a blank source, and else chunks
-- that are nonempty slices of the source, numbered from 0, whose starts ascend and lie behind the
-- leading white space.
pub split_contract :
    (float : Float64) (cfg : Config) (source : Bytes)
    → (chunks : List Chunk) × (split float cfg source ≡ some chunks)
      × IsRun source (length source) 0 (leading source) (length source) chunks
split_contract float cfg source =
    let (chunks, returns, cases) = split_cases float cfg source (trim_space source) refl in
    (
      chunks,
      returns,
      elim cases [
        | inl (none_left, blank) ↦ rw none_left (omega (arith, view_bounds source))
        | inr is ↦ is.0
      ],
    )
