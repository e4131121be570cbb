-- ===== src/Chunk/Defs.antt =====
-- chunk/chunk.go: `Unit`, `Chunk`, `Config`, the defaults and the default estimator.
use maestro_cms.Prelude.{
  ℕ, ◌+◌, ◌-◌, ◌/◌, Bool, Option, none, some, List, [], ◌∷◌, ◌++◌, if◌then◌else◌, slice,
}
use maestro_cms.Prelude.Int.{ℤ, pos, negsuc}
use maestro_cms.Text.{Bytes}
use maestro_cms.Text.Utf8.{rune_count}

abbrev pub default_max_tokens : ℕ
default_max_tokens = 512

abbrev pub default_overlap_tokens : ℕ
default_overlap_tokens = 64

abbrev pub approx_chars_per_token : ℕ
approx_chars_per_token = 4

-- A token count is taken to be nonnegative.
abbrev pub Estimate : Type 0
Estimate = Bytes → ℕ

-- `Unit`: a byte span of the text. A caller's `Boundaries` may return any integers.
pub record TextUnit : Type 0 where
  pub start : ℤ
  pub end : ℤ

abbrev pub unit : ℕ → ℕ → TextUnit
unit start end = record { start = pos start; end = pos end }

-- A region of the text, `[start, end)`: a valid unit, a line or a fenced block.
pub record Region : Type 0 where
  pub start : ℕ
  pub end : ℕ

abbrev pub Boundaries : Type 0
Boundaries = Bytes → List TextUnit

pub record Chunk : Type 0 where
  pub text : Bytes
  pub index : ℤ
  pub start_byte : ℕ
  pub end_byte : ℕ
  pub token_count : ℤ

-- `none` stands for a nil function.
pub record Config : Type 0 where
  pub max_tokens : ℤ
  pub overlap_tokens : ℤ
  pub no_overlap : Bool
  pub estimate : Option Estimate
  pub boundaries : Option Boundaries

-- `z`, or the default where `z <= 0`.
abbrev pub or_default : ℤ → ℕ → ℕ
or_default (pos ℕ.zero) d = d
or_default (pos (ℕ.suc n)) d = ℕ.suc n
or_default (negsuc n) d = d

unfoldable pub max_tokens_of : Config → ℕ
max_tokens_of c = or_default c.max_tokens default_max_tokens

unfoldable pub overlap_tokens_of : Config → ℕ
overlap_tokens_of c = if c.no_overlap then 0 else or_default c.overlap_tokens default_overlap_tokens

unfoldable pub default_estimate : Bytes → ℕ
default_estimate [] = 0
default_estimate (b ∷ s) =
    (rune_count (b ∷ s) + approx_chars_per_token - 1) / approx_chars_per_token

unfoldable pub estimate_of : Config → Estimate
estimate_of c = elim c.estimate [ some est ↦ est | none ↦ default_estimate ]

-- What the splitting functions write through `chunks *[]Chunk, idx *int`.
pub record Out : Type 0 where
  pub chunks : List Chunk
  pub idx : ℕ

unfoldable pub append_chunk : Bytes → ℕ → ℕ → ℕ → Out → Out
append_chunk text start end tok out =
    let c : Chunk = record {
      text = slice text start end;
      index = pos out.idx;
      start_byte = start;
      end_byte = end;
      token_count = pos tok;
    } in
    record { chunks = out.chunks ++ c ∷ []; idx = out.idx + 1 }
