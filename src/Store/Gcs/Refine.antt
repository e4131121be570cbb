-- ===== src/Store/Gcs/Refine.antt =====
-- The adapter's ranges agree with the in-memory store's.
use mathlib.Core.Option as Option
use maestro_cms.Prelude.{ℕ, ◌+◌, ◌<◌, ◌⊎◌, true, false, slice, ◌≤◌, ◌≡◌, Option, none, some, length}
use maestro_cms.Prelude.Int.{ℤ, pos, negsuc, max_int64}
use maestro_cms.Text.{Bytes}
use maestro_cms.Store.Memory.{range_end}
use maestro_cms.Store.Memory as Memory
use maestro_cms.Store.Gcs.{SdkError, SdkResult, sdk_ok, sdk_err}

-- `storage.ErrObjectNotExist`
abbrev pub not_exist : SdkError
not_exist = record { is_not_exist = true; code = none }

-- A `googleapi.Error` with the status of an unsatisfiable range.
abbrev pub out_of_range : SdkError
out_of_range = record { is_not_exist = false; code = some 416 }

-- A length whose last byte has an offset of the type int64.
abbrev pub FitsInt64 : ℕ → ℤ → Type 0
FitsInt64 offset (negsuc n) = Unit
FitsInt64 offset (pos n) = offset + n ≤ max_int64

-- What a range reader may return for the object's bytes.
abbrev pub RangeAnswer : ℕ → ℤ → Option Bytes → SdkResult (Bytes × ℕ) → Type 0
RangeAnswer offset wanted none r = r ≡ sdk_err not_exist
RangeAnswer offset wanted (some b) r =
    (offset < length b → r ≡ sdk_ok (slice b offset (range_end (length b) offset wanted), length b))
    × (length b ≤ offset
        → (r ≡ sdk_err out_of_range) ⊎ ((rc : Bytes) × (r ≡ sdk_ok (rc, length b))))
