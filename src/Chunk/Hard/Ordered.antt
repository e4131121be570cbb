-- ===== src/Chunk/Hard/Ordered.antt =====
-- Regions in ascending order without overlap, which cut no rune: what `validUnits` accepts, and what
-- `fencedGroups` and `splitLines` make of a span.
use maestro_cms.Prelude.{
  ℕ, zero, suc, ◌≤◌, ◌<◌, ◌≡◌, inl, inr, List, [], ◌∷◌, arith, length, lt-or-le,
}
use maestro_cms.Text.{Bytes}
use maestro_cms.Chunk.Cuts.Snap.{IsStop}
use maestro_cms.Chunk.Hard.Loop.{region_at}
use maestro_cms.Chunk.Defs.{Region}

-- A region that is not empty, ends at `lim` at the latest, and
-- has ends that do not cut a rune.
pub record IsSpan (text : Bytes) (lim : ℕ) (r : Region) : Type 0 where
  pub not_empty : r.start < r.end
  pub in_range : r.end ≤ lim
  pub start_stop : IsStop text r.start
  pub end_stop : IsStop text r.end

-- A span within the text.
abbrev pub InText : Bytes → Region → Type 0
InText text r = (r.end ≤ length text) × IsSpan text r.end r

pub IsSpan-InText :
    (text : Bytes) (lim : ℕ) (r : Region) → lim ≤ length text → IsSpan text lim r → InText text r
IsSpan-InText text lim r le span = (
  omega (arith, span.in_range),
  record {
    not_empty = span.not_empty;
    in_range = omega arith;
    start_stop = span.start_stop;
    end_stop = span.end_stop;
  },
)

abbrev pub IsOrdered : Bytes → ℕ → ℕ → List Region → Type 0
IsOrdered text lim prev_end [] = Unit
IsOrdered text lim prev_end (r ∷ rs) =
    (prev_end ≤ r.start) × IsSpan text lim r × IsOrdered text lim r.end rs

module _ (text : Bytes) (lim : ℕ) where
  pub region_at-IsSpan :
      (prev : ℕ) (rs : List Region) (i : ℕ)
      → IsOrdered text lim prev rs
      → i < length rs
      → IsSpan text lim (region_at rs i)
  region_at-IsSpan prev [] i o h = absurd (omega arith)
  region_at-IsSpan prev (r ∷ rs) zero o h = o.1
  region_at-IsSpan prev (r ∷ rs) (suc i) o h = region_at-IsSpan r.end rs i o.2 (omega arith)

  pub region_at-le :
      (prev : ℕ) (rs : List Region) (i : ℕ)
      → IsOrdered text lim prev rs
      → i < length rs
      → prev ≤ (region_at rs i).start
  region_at-le prev [] i o h = absurd (omega arith)
  region_at-le prev (r ∷ rs) zero o h = o.0
  region_at-le prev (r ∷ rs) (suc i) o h =
      omega (arith, region_at-le r.end rs i o.2 (omega arith), o.0, o.1.not_empty)

  -- An earlier region ends before a later one starts.
  pub region_at-lt :
      (prev : ℕ) (rs : List Region) (i j : ℕ)
      → IsOrdered text lim prev rs
      → i < j
      → j < length rs
      → (region_at rs i).end ≤ (region_at rs j).start
  region_at-lt prev [] i j o h k = absurd (omega arith)
  region_at-lt prev (r ∷ rs) i zero o h k = absurd (omega arith)
  region_at-lt prev (r ∷ rs) zero (suc j) o h k = region_at-le r.end rs j o.2 (omega arith)
  region_at-lt prev (r ∷ rs) (suc i) (suc j) o h k =
      region_at-lt r.end rs i j o.2 (omega arith) (omega arith)

  -- So starts and ends do not descend.
  pub region_at_mono :
      (prev : ℕ) (rs : List Region) (i j : ℕ)
      → IsOrdered text lim prev rs
      → i ≤ j
      → j < length rs
      → ((region_at rs i).start ≤ (region_at rs j).start)
        × ((region_at rs i).end ≤ (region_at rs j).end)
  region_at_mono prev rs i j o h k =
      let si = region_at-IsSpan prev rs i o (omega arith) in
      let sj = region_at-IsSpan prev rs j o k in
      elim (lt-or-le i j) [
        | inl lt ↦
            let apart = region_at-lt prev rs i j o lt k in
            (omega (arith, apart, si.not_empty), omega (arith, apart, sj.not_empty))
        | inr ge ↦ let same : i ≡ j = omega arith in rw same (omega arith, omega arith)
      ]
