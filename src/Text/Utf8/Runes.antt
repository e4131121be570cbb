-- ===== src/Text/Utf8/Runes.antt =====
-- The bytes of a rune behind its first are continuation bytes.
use maestro_cms.Prelude.{ℕ, zero, suc, ◌<◌, ◌≡◌, false, List, [], ◌∷◌, arith, get_or}
use maestro_cms.Text.Utf8.{rune_start, rune_size}

pub rune_size_tail :
    (s : List ℕ) (k : ℕ) → 0 < k → k < rune_size s → rune_start (get_or s k 0) ≡ false
unfolding rune_size
rune_size_tail [] k p h = absurd (omega arith)
rune_size_tail (b ∷ s) zero p h = absurd (omega arith)
rune_size_tail (b ∷ []) (suc k) p h = ground arith
rune_size_tail (b ∷ c ∷ []) (suc zero) p h = ground arith
rune_size_tail (b ∷ c ∷ d ∷ []) (suc zero) p h = ground arith
rune_size_tail (b ∷ c ∷ d ∷ e ∷ s) (suc zero) p h = ground arith
rune_size_tail (b ∷ c ∷ []) (suc (suc k)) p h = ground arith
rune_size_tail (b ∷ c ∷ d ∷ []) (suc (suc zero)) p h = ground arith
rune_size_tail (b ∷ c ∷ d ∷ e ∷ s) (suc (suc zero)) p h = ground arith
rune_size_tail (b ∷ c ∷ d ∷ []) (suc (suc (suc k))) p h = ground arith
rune_size_tail (b ∷ c ∷ d ∷ e ∷ s) (suc (suc (suc zero))) p h = ground arith
rune_size_tail (b ∷ c ∷ d ∷ e ∷ s) (suc (suc (suc (suc k)))) p h = ground arith
