-- ===== src/Text/Search.antt =====
-- What `strings.IndexByte` finds.
use maestro_cms.Prelude.{
  ℕ, suc, ◌<◌, ◌≡◌, inl, inr, some, [], ◌∷◌, arith, ◌==◌, Bool-cases, Option-cases, length, get_or,
}
use maestro_cms.Text.{Bytes, index_byte}

pub index_byte-some :
    (b : ℕ) (s : Bytes) {k : ℕ} → index_byte b s ≡ some k → (k < length s) × (get_or s k 0 ≡ b)
unfolding index_byte
index_byte-some b [] e = cc
index_byte-some b (c ∷ s) {k} e = elim (Bool-cases (c == b)) [
  | inl found ↦ ground (arith, found)
  | inr on ↦ elim (Option-cases (index_byte b s)) [
    | inl miss ↦ ground (arith, miss, on)
    | inr (m, hit) ↦
        let (lt, at) = index_byte-some b s hit in
        let here : k ≡ suc m = ground (arith, hit, on) in rw here (omega arith, at)
  ]
]
