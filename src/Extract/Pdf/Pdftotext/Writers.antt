-- ===== src/Extract/Pdf/Pdftotext/Writers.antt =====
-- What the two bounded writers hold when the streams have been copied into them.
use mathlib.Core.List.{append_assoc, append-nil}
use maestro_cms.Prelude.{
  ℕ, ◌+◌, ◌-◌, ◌≤◌, ◌<◌, ◌≡◌, refl, sym, ap, ◌∙◌, ◌⊎◌, inl, inr, true, false, List, [], ◌∷◌, ◌++◌,
  arith, lt-or-le, length, take, length-append, take-nil, zero, suc,
}
use maestro_cms.Text.{Bytes}
use maestro_cms.Extract.Io.Source.{joined}
use maestro_cms.Extract.Pdf.Pdftotext.{
  CapWriter, cap_write, copy_stdout, TruncWriter, trunc_write, copy_stderr,
}

-- A writer that has not failed holds what was written, and no more than its limit.
pub record IsValid (w : CapWriter) : Type 0 where
  pub count : w.n ≡ length w.buf
  pub within : length w.buf ≤ w.limit
  pub open_still : w.exceeded ≡ false

-- The writer behind the pieces `ps`: it holds them all, or they are more than its limit and it failed.
abbrev pub Copied : List Bytes → CapWriter → CapWriter → Type 0
Copied ps w w' =
    ((length (w.buf ++ joined ps) ≤ w.limit)
      × (w'.exceeded ≡ false)
      × (w'.buf ≡ w.buf ++ joined ps))
    ⊎ ((w.limit < length (w.buf ++ joined ps)) × (w'.exceeded ≡ true) × (length w'.buf ≤ w.limit))

-- What a write leaves, for a writer that has not failed.
cap_write-fits :
    (p : Bytes) (w : CapWriter)
    → IsValid w
    → w.n + length p ≤ w.limit
    → cap_write p w ≡ ((length p, false), record w { buf = w.buf ++ p; n = w.n + length p })
unfolding cap_write
cap_write-fits p w valid h = ground (arith, valid.open_still)

cap_write-over :
    (p : Bytes) (w : CapWriter)
    → w.limit < w.n + length p
    → cap_write p w ≡ ((0, true), record w { exceeded = true; canceled = true })
unfolding cap_write
cap_write-over p w h = ground arith

pub copy_stdout-Copied :
    (ps : List Bytes) (w : CapWriter) → IsValid w → Copied ps w (copy_stdout ps w)
unfolding copy_stdout
copy_stdout-Copied [] w valid =
    let same = append-nil w.buf in inl (rw same valid.within, valid.open_still, sym same)
copy_stdout-Copied (p ∷ ps) w valid = elim (lt-or-le w.limit (w.n + length p)) [
  | inl over ↦ rw (cap_write-over p w over) (
      inr (
        omega (
          arith,
          over,
          valid.count,
          length-append w.buf (p ++ joined ps),
          length-append p (joined ps),
        ),
        refl,
        valid.within,
      ))
  | inr fits ↦
      let next = record w { buf = w.buf ++ p; n = w.n + length p } in
      let more = copy_stdout-Copied ps next (record {
        count = omega (arith, valid.count, length-append w.buf p);
        within = omega (arith, fits, valid.count, length-append w.buf p);
        open_still = valid.open_still;
      }) in
      rw (cap_write-fits p w valid fits, sym (append_assoc w.buf p (joined ps))) more
]

take-append :
    (n : ℕ) (xs ys : Bytes) → length xs ≤ n → take n (xs ++ ys) ≡ xs ++ take (n - length xs) ys
take-append n [] ys h = let same : n ≡ n - 0 = omega arith in ap (λ k. take k ys) same
take-append zero (x ∷ xs) ys h = absurd (omega arith)
take-append (suc n) (x ∷ xs) ys h =
    let rest = take-append n xs ys (omega arith) in
    let same : n - length xs ≡ suc n - suc (length xs) = omega arith in
    ap (λ l. x ∷ l) (rest ∙ ap (λ k. xs ++ take k ys) same)

take-take_append : (n : ℕ) (xs ys : Bytes) → take n (take n xs ++ ys) ≡ take n (xs ++ ys)
take-take_append zero xs ys = refl
take-take_append (suc n) [] ys = refl
take-take_append (suc n) (x ∷ xs) ys = ap (λ l. x ∷ l) (take-take_append n xs ys)

take_all : (n : ℕ) (xs : Bytes) → length xs ≤ n → take n xs ≡ xs
take_all n [] h = take-nil n
take_all zero (x ∷ xs) h = absurd (omega arith)
take_all (suc n) (x ∷ xs) h = ap (λ l. x ∷ l) (take_all n xs (omega arith))

length-take_le : (n : ℕ) (xs : Bytes) → length (take n xs) ≤ n
length-take_le zero xs = omega arith
length-take_le (suc n) [] = omega arith
length-take_le (suc n) (x ∷ xs) = omega (arith, length-take_le n xs)

trunc_write-buf :
    (p : Bytes) (w : TruncWriter)
    → length w.buf ≤ w.limit
    → (trunc_write p w).1 ≡ record w { buf = take w.limit (w.buf ++ p) }
unfolding trunc_write
trunc_write-buf p w h =
    let rem = w.limit - length w.buf in
    let cut = take-append w.limit w.buf p h in
    elim (lt-or-le 0 rem) [
      | inr full ↦
          let none_kept : take rem p ≡ [] = let z : rem ≡ 0 = omega arith in rw z refl in
          rw (cut, none_kept, append-nil w.buf) (ground arith)
      | inl left ↦ elim (lt-or-le rem (length p)) [
        | inl over ↦ rw cut (ground arith)
        | inr fits ↦ rw (cut, take_all rem p fits) (ground arith)
      ]
    ]

-- A truncating writer holds the first bytes of what was written, up to its limit.
pub copy_stderr_lem :
    (ps : List Bytes) (w : TruncWriter)
    → length w.buf ≤ w.limit
    → (copy_stderr ps w).buf ≡ take w.limit (w.buf ++ joined ps)
unfolding copy_stderr
copy_stderr_lem [] w h = sym (rw (append-nil w.buf) (take_all w.limit w.buf h))
copy_stderr_lem (p ∷ ps) w h =
    let step = trunc_write-buf p w h in
    let rest =
      copy_stderr_lem ps (record w { buf = take w.limit (w.buf ++ p) })
        (length-take_le w.limit (w.buf ++ p)) in
    ap (λ v. (copy_stderr ps v).buf) step
    ∙ (rest
        ∙ take-take_append w.limit (w.buf ++ p) (joined ps)
        ∙ ap (take w.limit) (append_assoc w.buf p (joined ps)))
