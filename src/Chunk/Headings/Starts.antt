-- ===== src/Chunk/Headings/Starts.antt =====
-- The starts that the loop of `Headings` collects are new, so that each is entered once.
use maestro_cms.Prelude.{
  ℕ, suc, ◌≤◌, ◌<◌, ◌≡◌, refl, sym, ap, ◌∙◌, inl, inr, Bool, true, false, ◌&&◌, List, [], ◌∷◌, ◌++◌,
  arith, if◌then◌else◌, Bool-cases,
}
use mathlib.Core.List.{append_assoc}
use maestro_cms.Text.{Bytes}
use maestro_cms.Chunk.Headings.{Scan, ends_in, append_start, scan_line}
use maestro_cms.Chunk.Headings.Kinds.{
  Kind, fence, code, atx, underline, blank, prose, is_prose, fence_of, collected, line_kind,
  underlined, heading_starts, scan_line-collected, scan_line-is_prose, scan_line-at,
  underline_behind,
}

-- The starts behind a line, where none of them is there already.
abbrev pub entered : Kind → ℕ → ℕ → List ℕ → List ℕ
entered atx at prev starts = starts ++ at ∷ []
entered underline at prev starts = starts ++ prev ∷ []
entered _ at prev starts = starts

abbrev pub AllBelow : ℕ → List ℕ → Type 0
AllBelow hi [] = Unit
AllBelow hi (s ∷ starts) = (s < hi) × AllBelow hi starts

AllBelow-widen : (lo hi : ℕ) (starts : List ℕ) → lo ≤ hi → AllBelow lo starts → AllBelow hi starts
AllBelow-widen lo hi [] le h = tt
AllBelow-widen lo hi (s ∷ starts) le (lt, h) = (omega arith, AllBelow-widen lo hi starts le h)

AllBelow-append :
    (hi s : ℕ) (starts : List ℕ) → AllBelow hi starts → s < hi → AllBelow hi (starts ++ s ∷ [])
AllBelow-append hi s [] h lt = (lt, tt)
AllBelow-append hi s (x ∷ starts) (first, h) lt = (first, AllBelow-append hi s starts h lt)

AllBelow-append_start :
    (hi : ℕ) (starts : List ℕ) → AllBelow hi starts → append_start starts hi ≡ starts ++ hi ∷ []
unfolding append_start
AllBelow-append_start hi starts h = rw (new hi starts h)
  where
    new : (hi : ℕ) (starts : List ℕ) → AllBelow hi starts → ends_in starts hi ≡ false
    new hi [] h = refl
    new hi (x ∷ []) h = ground arith
    new hi (x ∷ y ∷ xs) h = new hi (y ∷ xs) h.1

-- The starts are new, in the state at a line from `lo` on.
pub record IsNew (lo : ℕ) (sc : Scan) : Type 0 where
  pub below : AllBelow lo sc.starts
  pub pending : sc.prev_is_paragraph ≡ true → AllBelow sc.prev_line_start sc.starts
  pub prev_lt : sc.prev_is_paragraph ≡ true → sc.prev_line_start < lo

collected-entered :
    (k : Kind) (lo i : ℕ) (sc : Scan)
    → IsNew lo sc
    → lo ≤ i
    → (k ≡ underline → sc.prev_is_paragraph ≡ true)
    → collected k i sc ≡ entered k i sc.prev_line_start sc.starts
collected-entered atx lo i sc new le h =
    AllBelow-append_start i sc.starts (AllBelow-widen lo i sc.starts le new.below)
collected-entered underline lo i sc new le h =
    AllBelow-append_start sc.prev_line_start sc.starts (new.pending (h refl))
collected-entered fence lo i sc new le h = refl
collected-entered code lo i sc new le h = refl
collected-entered blank lo i sc new le h = refl
collected-entered prose lo i sc new le h = refl

abbrev pub pending_start : Bool → ℕ → List (ℕ × Kind) → List ℕ
pending_start behind prev ks = if underlined ks && behind then prev ∷ [] else []

pub pending_start-false : (at : ℕ) (ks : List (ℕ × Kind)) → pending_start false at ks ≡ []
pending_start-false at ks = elim (Bool-cases (underlined ks)) [ inl e ↦ rw e | inr e ↦ rw e ]

pub heading_starts-cons :
    (k : Kind) (at prev : ℕ) (behind : Bool) (starts : List ℕ) (ks : List (ℕ × Kind))
    → (k ≡ underline → behind ≡ true)
    → entered k at prev starts ++ (pending_start (is_prose k) at ks ++ heading_starts ks)
      ≡ starts ++ (pending_start behind prev ((at, k) ∷ ks) ++ heading_starts ((at, k) ∷ ks))
heading_starts-cons fence at prev behind starts ks h =
    ap (λ l. starts ++ (l ++ heading_starts ks)) (pending_start-false at ks)
heading_starts-cons code at prev behind starts ks h =
    ap (λ l. starts ++ (l ++ heading_starts ks)) (pending_start-false at ks)
heading_starts-cons blank at prev behind starts ks h =
    ap (λ l. starts ++ (l ++ heading_starts ks)) (pending_start-false at ks)
heading_starts-cons atx at prev behind starts ks h =
    ap (λ l. (starts ++ at ∷ []) ++ (l ++ heading_starts ks)) (pending_start-false at ks)
    ∙ append_assoc starts (at ∷ []) (heading_starts ks)
heading_starts-cons underline at prev behind starts ks h = rw (h refl) (
    ap (λ l. (starts ++ prev ∷ []) ++ (l ++ heading_starts ks)) (pending_start-false at ks)
    ∙ append_assoc starts (prev ∷ []) (heading_starts ks))
heading_starts-cons prose at prev behind starts ks h = elim (Bool-cases (underlined ks)) [
  | inl e ↦ rw e
  | inr e ↦ rw e
]

entered-AllBelow :
    (k : Kind) (lo at prev : ℕ) (starts : List ℕ)
    → AllBelow lo starts
    → lo ≤ at
    → (k ≡ underline → prev < lo)
    → AllBelow (suc at) (entered k at prev starts)
entered-AllBelow atx lo at prev starts h le lt =
    AllBelow-append (suc at) at starts (AllBelow-widen lo (suc at) starts (omega arith) h)
      (omega arith)
entered-AllBelow underline lo at prev starts h le lt =
    AllBelow-append (suc at) prev starts (AllBelow-widen lo (suc at) starts (omega arith) h)
      (omega (arith, lt refl))
entered-AllBelow fence lo at prev starts h le lt = AllBelow-widen lo (suc at) starts (omega arith) h
entered-AllBelow code lo at prev starts h le lt = AllBelow-widen lo (suc at) starts (omega arith) h
entered-AllBelow blank lo at prev starts h le lt = AllBelow-widen lo (suc at) starts (omega arith) h
entered-AllBelow prose lo at prev starts h le lt = AllBelow-widen lo (suc at) starts (omega arith) h

entered-prose :
    (k : Kind) (at prev : ℕ) (starts : List ℕ)
    → is_prose k ≡ true
    → entered k at prev starts ≡ starts
entered-prose prose at prev starts e = refl
entered-prose atx at prev starts e = cc
entered-prose underline at prev starts e = cc
entered-prose fence at prev starts e = refl
entered-prose code at prev starts e = refl
entered-prose blank at prev starts e = refl

-- A round leaves the starts new, and has entered those of the line's kind.
pub scan_line-IsNew :
    (lo at : ℕ) (line : Bytes) (sc : Scan)
    → IsNew lo sc
    → lo ≤ at
    → ((scan_line at line sc).starts
        ≡ entered (line_kind at line sc) at sc.prev_line_start sc.starts)
      × IsNew (suc at) (scan_line at line sc)
scan_line-IsNew lo at line sc new le =
    let k = line_kind at line sc in
    let behind = underline_behind (fence_of sc) sc.prev_is_paragraph line in
    let starts : (scan_line at line sc).starts ≡ entered k at sc.prev_line_start sc.starts =
      scan_line-collected at line sc ∙ collected-entered k lo at sc new le behind in
    let all : AllBelow (suc at) (entered k at sc.prev_line_start sc.starts) =
      entered-AllBelow k lo at sc.prev_line_start sc.starts new.below le
        (λ e. new.prev_lt (behind e)) in
    (
      starts,
      record {
        below = rw starts all;
        pending = λ e.
            let same =
              entered-prose k at sc.prev_line_start sc.starts
                (sym (scan_line-is_prose at line sc) ∙ e) in
            rw (scan_line-at at line sc, starts, same)
              (AllBelow-widen lo at sc.starts le new.below);
        prev_lt = λ e. rw (scan_line-at at line sc) (omega arith);
      },
    )
