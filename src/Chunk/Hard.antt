-- ===== src/Chunk/Hard.antt =====
-- chunk/chunk.go and chunk/codesplit.go: hard splits of a unit that exceeds the budget, and the
-- packing loop that `Split`, `splitFenced` and `splitLines` each write out.
pub mod Prose
pub mod ProseLaws
pub mod Loop
pub mod Ordered
pub mod LoopLaws
pub mod Fenced
pub mod Lines
pub mod FencedLaws
use maestro_cms.Prelude.{ℕ}

-- The `float64` arithmetic of `hardSplitProse`, which is a parameter: the conversions, `/` and `*`.
pub record Float64 : Type 1 where
  pub F : Type 0
  pub of_int : ℕ → F
  pub to_int : F → ℕ
  pub div : F → F → F
  pub mul : F → F → F
