-- ===== src/Text/Equal.antt =====
-- The equality test on strings decides equality.
use maestro_cms.Prelude.{◌≡◌, ◌≢◌, refl, inl, inr, true, false, ◌==◌, ==_iff, [], ◌∷◌, Bool-cases}
use maestro_cms.Text.{Bytes, bytes_eq}

pub bytes_eq→eq : (a b : Bytes) → bytes_eq a b ≡ true → a ≡ b
unfolding bytes_eq
bytes_eq→eq [] [] h = refl
bytes_eq→eq [] (y ∷ ys) h = cc
bytes_eq→eq (x ∷ xs) [] h = cc
bytes_eq→eq (x ∷ xs) (y ∷ ys) h = elim (Bool-cases (x == y)) [
  | inl same ↦
      let rest : bytes_eq xs ys ≡ true = rw same at h in
      let heads : x ≡ y = (==_iff x y).0 same in let tails : xs ≡ ys = bytes_eq→eq xs ys rest in cc
  | inr differ ↦ let no : false ≡ true = rw differ at h in cc
]

pub bytes_eq_refl : (a : Bytes) → bytes_eq a a ≡ true
unfolding bytes_eq
bytes_eq_refl [] = refl
bytes_eq_refl (x ∷ xs) =
    let same : (x == x) ≡ true = (==_iff x x).1 refl in rw same (bytes_eq_refl xs)

pub bytes_eq_ne : (a b : Bytes) → a ≢ b → bytes_eq a b ≡ false
bytes_eq_ne a b ne = elim (Bool-cases (bytes_eq a b)) [
  | inl same ↦ absurd (ne (bytes_eq→eq a b same))
  | inr differ ↦ differ
]
