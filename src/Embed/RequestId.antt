-- ===== src/Embed/RequestId.antt =====
-- embed/embed.go: `requestID`, and that it tells positions apart.
use maestro_cms.Prelude.{
  ℕ, zero, suc, ◌+◌, ◌-◌, ◌*◌, ◌/◌, ◌%◌, ◌<◌, ◌≡◌, refl, sym, ap, ◌∙◌, inl, inr, [], ◌∷◌, ◌++◌,
  arith, ltb, Bool-cases, if◌then◌else◌,
}
use maestro_cms.Text.{Bytes}

-- `strconv.Itoa` of a number that is not negative, on fuel: the number itself is enough.
itoa_from : ℕ → ℕ → Bytes
itoa_from zero n = []
itoa_from (suc f) n =
    let more = itoa_from f (n / 10) ++ (b'0' + n % 10) ∷ [] in
    if ltb n 10 then (b'0' + n) ∷ [] else more

unfoldable pub itoa : ℕ → Bytes
unfolding itoa_from
itoa n = itoa_from (n + 1) n

unfoldable pub request_id : ℕ → Bytes
unfolding itoa
request_id at = b'i' ∷ b'n' ∷ b'-' ∷ itoa at

-- The number that decimal digits stand for.
value : ℕ → Bytes → ℕ
value acc [] = acc
value acc (c ∷ s) = value (acc * 10 + (c - b'0')) s

value-append :
    (acc : ℕ) (s : Bytes) (c : ℕ) → value acc (s ++ c ∷ []) ≡ value acc s * 10 + (c - b'0')
unfolding value
value-append acc [] c = refl
value-append acc (d ∷ s) c = value-append (acc * 10 + (d - b'0')) s c

value-itoa_from : (f n : ℕ) → n < f → value 0 (itoa_from f n) ≡ n
unfolding itoa_from
value-itoa_from zero n h = absurd (omega arith)
value-itoa_from (suc f) n h = elim (Bool-cases (ltb n 10)) [
  | inl digit ↦ rw digit (unfold value in omega arith)
  | inr more ↦ rw more (
      omega (
        arith,
        value-append 0 (itoa_from f (n / 10)) (b'0' + n % 10),
        value-itoa_from f (n / 10) (ground arith),
      ))
]

-- Different positions have different request ids.
pub request_id_injective : (m n : ℕ) → request_id m ≡ request_id n → m ≡ n
unfolding request_id itoa
request_id_injective m n e =
    let digits : itoa_from (m + 1) m ≡ itoa_from (n + 1) n = cc in
    sym (value-itoa_from (m + 1) m (omega arith))
    ∙ ap (value 0) digits
    ∙ value-itoa_from (n + 1) n (omega arith)
