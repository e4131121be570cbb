-- ===== src/Store/Memory/Ranges.antt =====
-- Ranged reads of the in-memory store against the whole object.
use maestro_cms.Prelude.{
  ℕ, zero, suc, ◌+◌, ◌-◌, ◌≤◌, ◌<◌, ◌≡◌, refl, ap, sym, ◌∙◌, inl, inr, [], ◌∷◌, ◌++◌, arith, length,
  length-drop, take-drop, drop-drop, ltb→le, if◌then◌else◌, take, drop, slice, Option-cases, leb,
  ltb, Bool-cases, leb→lt,
}
use maestro_cms.Prelude.Int.{ℤ, pos, negsuc}
use maestro_cms.Text.{Bytes}
use maestro_cms.Store.Defs.{range_not_satisfiable, ok, err}
use maestro_cms.Store.Memory.{Objects, object_at, get, range_end, range_of, get_range}

-- The part of `bytes` that a ranged read returns.
abbrev pub part_of : ℕ → ℤ → Bytes → Bytes
part_of offset (negsuc n) bytes = drop offset bytes
part_of offset (pos n) bytes = take n (drop offset bytes)

take_all : (xs : Bytes) (n : ℕ) → length xs ≤ n → take n xs ≡ xs
take_all [] zero h = refl
take_all [] (suc n) h = refl
take_all (x ∷ xs) zero h = absurd (omega arith)
take_all (x ∷ xs) (suc n) h = ap (◌∷◌ x) (take_all xs n (omega arith))

range_of-Part :
    (offset : ℕ) (n : ℤ) (bytes : Bytes)
    → offset < length bytes
    → slice bytes offset (range_end (length bytes) offset n) ≡ part_of offset n bytes
unfolding range_end
range_of-Part offset (negsuc n) bytes h =
    take_all (drop offset bytes) (length bytes - offset) (omega (arith, length-drop offset bytes))
range_of-Part offset (pos n) bytes h = elim (Bool-cases (ltb n (length bytes - offset))) [
  | inl short ↦ rw short (ap (λ m. take m (drop offset bytes)) (omega arith))
  | inr long ↦ rw long (
      take_all (drop offset bytes) (length bytes - offset) (omega (arith, length-drop offset bytes))
      ∙ sym (
          take_all (drop offset bytes) n
            (omega (arith, length-drop offset bytes, ltb→le _ _ long))))
]

module _ (Time : Type 0) where
  -- A ranged read of a stored object: at or behind the end it is `ErrRangeNotSatisfiable`, and else
  -- the bytes of `Get` from the offset on, at most `n` of them if `n` is not negative.
  pub get_range_lem :
      (key bytes : Bytes) (offset : ℕ) (n : ℤ) (s : Objects Time)
      → get Time key s ≡ ok bytes
      → get_range Time key (pos offset) n s ≡ (
          if leb (length bytes) offset
          then err range_not_satisfiable
          else ok (part_of offset n bytes))
  unfolding get get_range range_of
  get_range_lem key bytes offset n s e = elim (Option-cases (object_at Time key s)) [
    | inl missing ↦ absurd (ground arith)
    | inr (o, found) ↦
        let same : o.data_bytes ≡ bytes = ground arith in
        elim (Bool-cases (leb (length bytes) offset)) [
          | inl beyond ↦ ground arith
          | inr inside ↦ ground (arith, range_of-Part offset n bytes (leb→lt _ _ inside))
        ]
  ]

  -- Two ranged reads that meet give the object from the first offset on: `n` bytes from `offset`, and
  -- the rest from `offset + n`.
  pub get_range-split :
      (key bytes : Bytes) (offset n : ℕ) (s : Objects Time)
      → get Time key s ≡ ok bytes
      → offset + n < length bytes
      → (first rest : Bytes) × (get_range Time key (pos offset) (pos n) s ≡ ok first)
        × (get_range Time key (pos (offset + n)) (negsuc 0) s ≡ ok rest)
        × (drop offset bytes ≡ first ++ rest)
  get_range-split key bytes offset n s e h = (
    take n (drop offset bytes),
    drop (offset + n) bytes,
    get_range_lem key bytes offset (pos n) s e ∙ ground arith,
    get_range_lem key bytes (offset + n) (negsuc 0) s e ∙ ground arith,
    sym (
        ap (λ l. take n (drop offset bytes) ++ l) (sym (drop-drop n offset bytes))
        ∙ take-drop n (drop offset bytes)),
  )
