-- ===== src/Embed/Batches/Limits.antt =====
-- What the batches hold: every item once and in order, within the limits.
use mathlib.Core.List.{append-nil, append_assoc}
use maestro_cms.Prelude.{
  ℕ, ◌+◌, ◌≤◌, ◌<◌, ◌≡◌, refl, sym, ap, ◌∙◌, ◌⊎◌, inl, inr, false, List, [], ◌∷◌, ◌++◌, arith,
  Bool-cases, length, length-append,
}
use maestro_cms.Prelude.Int.{add64, above64, add64_exact}
use maestro_cms.Embed.Defs.{IndexedInput}
use maestro_cms.Embed.Batches.{must_flush, pack_from, pack_batches}

abbrev pub concat : List (List IndexedInput) → List IndexedInput
concat [] = []
concat (b ∷ bs) = b ++ concat bs

abbrev pub token_sum : List IndexedInput → ℕ
token_sum [] = 0
token_sum (it ∷ items) = it.tokens + token_sum items

-- A batch that may be sent: not empty, and either one item or within both limits.
abbrev pub IsWithin : ℕ → ℕ → List IndexedInput → Type 0
IsWithin max_inputs max_tokens b =
    (0 < length b) × ((length b ≡ 1) ⊎ ((length b ≤ max_inputs) × (token_sum b ≤ max_tokens)))

abbrev pub AllWithin : ℕ → ℕ → List (List IndexedInput) → Type 0
AllWithin max_inputs max_tokens [] = Unit
AllWithin max_inputs max_tokens (b ∷ bs) =
    IsWithin max_inputs max_tokens b × AllWithin max_inputs max_tokens bs

concat-append :
    (bs : List (List IndexedInput)) (b : List IndexedInput) → concat (bs ++ b ∷ []) ≡ concat bs ++ b
concat-append [] b = append-nil b
concat-append (c ∷ bs) b =
    ap (λ t. c ++ t) (concat-append bs b) ∙ sym (append_assoc c (concat bs) b)

AllWithin-append :
    (m t : ℕ) (bs : List (List IndexedInput)) (b : List IndexedInput)
    → AllWithin m t bs
    → IsWithin m t b
    → AllWithin m t (bs ++ b ∷ [])
AllWithin-append m t [] b h w = (w, tt)
AllWithin-append m t (c ∷ bs) b h w = (h.0, AllWithin-append m t bs b h.1 w)

token_sum-append :
    (b : List IndexedInput) (it : IndexedInput) → token_sum (b ++ it ∷ []) ≡ token_sum b + it.tokens
token_sum-append [] it = omega arith
token_sum-append (c ∷ b) it = omega (arith, token_sum-append b it)

concat-pack_from :
    (m t : ℕ) (items : List IndexedInput) (batches : List (List IndexedInput))
    (cur : List IndexedInput) (cur_tok : ℕ)
    → concat (pack_from m t items batches cur cur_tok) ≡ concat batches ++ (cur ++ items)
unfolding pack_from
concat-pack_from m t [] batches [] cur_tok = sym (append-nil (concat batches))
concat-pack_from m t [] batches (c ∷ cur) cur_tok =
    concat-append batches (c ∷ cur) ∙ ap (λ l. concat batches ++ l) (sym (append-nil (c ∷ cur)))
concat-pack_from m t (it ∷ items) batches cur cur_tok =
    elim (Bool-cases (must_flush m t cur cur_tok it)) [
      | inl flush ↦ rw flush (
          concat-pack_from m t items (batches ++ cur ∷ []) (it ∷ []) it.tokens
          ∙ ap (λ l. l ++ (it ∷ items)) (concat-append batches cur)
          ∙ append_assoc (concat batches) cur (it ∷ items))
      | inr keep ↦ rw keep (
          concat-pack_from m t items batches (cur ++ it ∷ []) (add64 cur_tok it.tokens)
          ∙ ap (λ l. concat batches ++ l) (append_assoc cur (it ∷ []) items))
    ]

-- A sum that does not leave the 64 bits is compared as it is.
room_left : (a b t : ℕ) → a + b < 9223372036854775808 → above64 (add64 a b) t ≡ false → a + b ≤ t
unfolding above64
room_left a b t small h = ground (arith, add64_exact a b)

pack_from-AllWithin :
    (m t : ℕ) (items : List IndexedInput) (batches : List (List IndexedInput))
    (cur : List IndexedInput) (cur_tok : ℕ)
    → AllWithin m t batches
    → cur_tok ≡ token_sum cur
    → (cur ≡ []) ⊎ IsWithin m t cur
    → cur_tok + token_sum items < 9223372036854775808
    → AllWithin m t (pack_from m t items batches cur cur_tok)
unfolding pack_from
pack_from-AllWithin m t [] batches [] cur_tok h e w small = h
pack_from-AllWithin m t [] batches (c ∷ cur) cur_tok h e (inl w) small = cc
pack_from-AllWithin m t [] batches (c ∷ cur) cur_tok h e (inr w) small =
    AllWithin-append m t batches (c ∷ cur) h w
pack_from-AllWithin m t (it ∷ items) batches [] cur_tok h e w small =
    let sum = add64_exact cur_tok it.tokens (omega arith) in
    pack_from-AllWithin m t items batches (it ∷ []) (add64 cur_tok it.tokens) h
      (omega (arith, e, sum)) (inr (omega arith, inl refl)) (omega (arith, sum))
pack_from-AllWithin m t (it ∷ items) batches (c ∷ cur) cur_tok h e (inl w) small = cc
pack_from-AllWithin m t (it ∷ items) batches (c ∷ cur) cur_tok h e (inr w) small =
    let b = c ∷ cur in
    let exact = add64_exact cur_tok it.tokens (omega arith) in
    elim (Bool-cases (must_flush m t b cur_tok it)) [
      | inl flush ↦ rw flush (
          pack_from-AllWithin m t items (batches ++ b ∷ []) (it ∷ []) it.tokens
            (AllWithin-append m t batches b h w) (omega arith) (inr (omega arith, inl refl))
            (omega arith))
      | inr keep ↦
          let room : (length b < m) × (cur_tok + it.tokens ≤ t) =
            (ground arith, room_left cur_tok it.tokens t (omega arith) (ground arith)) in
          let len = length-append b (it ∷ []) in
          let sum = token_sum-append b it in
          rw keep (
            pack_from-AllWithin m t items batches (b ++ it ∷ []) (add64 cur_tok it.tokens) h
              (omega (arith, sum, e, exact))
              (inr
                (omega (arith, len), inr (omega (arith, len, room), omega (arith, sum, e, room))))
              (omega (arith, exact)))
    ]

pub concat-pack_batches :
    (items : List IndexedInput) (max_inputs max_tokens : ℕ)
    → concat (pack_batches items max_inputs max_tokens) ≡ items
unfolding pack_batches
concat-pack_batches items m t = concat-pack_from m t items [] [] 0

-- If the token counts of all items add up to less than 2^63, the batches hold all items in order and
-- nothing else, none is empty, and each is one item or keeps both the input limit and the token limit.
pub pack_batches_lem :
    (items : List IndexedInput) (max_inputs max_tokens : ℕ)
    → token_sum items < 9223372036854775808
    → (concat (pack_batches items max_inputs max_tokens) ≡ items)
      × AllWithin max_inputs max_tokens (pack_batches items max_inputs max_tokens)
unfolding pack_batches
pack_batches_lem items m t small = (
  concat-pack_from m t items [] [] 0,
  pack_from-AllWithin m t items [] [] 0 tt (omega arith) (inl refl) (omega arith),
)
