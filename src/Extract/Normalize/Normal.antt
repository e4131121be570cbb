-- ===== src/Extract/Normalize/Normal.antt =====
-- What `NormalizeWhitespace` returns, and that it leaves its own results alone.
use mathlib.Core.List.{append_assoc, reverse-append, reverse-cons, reverse-reverse}
use maestro_cms.Prelude.{
  ℕ, ◌≡◌, ◌≢◌, refl, sym, ap, ◌∙◌, subst, ◌⊎◌, inl, inr, List, [], ◌∷◌, ◌++◌, reverse, arith,
}
use maestro_cms.Text.{Bytes}
use maestro_cms.Text.Trim.{space_len, last_space_len, trim_right, trim_space}
use maestro_cms.Text.Trim.Clean.{
  IsClean, trim_space_clean, trim_space-nil, trim_left_none, trim_right_none, trim_left-newline,
  trim_right-newline, space_len-line, last_space_len-line,
}
use maestro_cms.Extract.Normalize.{split_on, join_with, kept_lines, normalize_whitespace}
use maestro_cms.Extract.Normalize.Shape.{AllPlain, split_on-AllPlain, split_on-join_with}
use maestro_cms.Extract.Normalize.Lines.{join_with-split_on}
use maestro_cms.Extract.Normalize.Tidy.{Tidy, kept_lines-Tidy, kept_lines_same}

-- No white space at either end, and tidy lines.
pub record IsNormal (t : Bytes) : Type 0 where
  pub clean : IsClean t
  pub tidy : Tidy 0 (split_on b'\n' t)

abbrev join : List Bytes → Bytes
join ls = join_with b'\n' ls

Tidy-AllPlain : (n : ℕ) (ls : List Bytes) → Tidy n ls → AllPlain ls
Tidy-AllPlain n [] h = tt
Tidy-AllPlain n ([] ∷ ls) (e, h) = (tt, Tidy-AllPlain 1 ls h)
Tidy-AllPlain n ((c ∷ l) ∷ ls) (clean, plain, h) = (plain, Tidy-AllPlain 0 ls h)

-- A text that ends where its lines are joined by at most one newline more.
record Trimmed (c : ℕ) (l : Bytes) (ls : List Bytes) : Type 0 where
  pub rest : List Bytes
  pub tidy : Tidy 0 ((c ∷ l) ∷ rest)
  pub end : last_space_len (reverse (join ((c ∷ l) ∷ rest))) ≡ 0
  pub same :
      (join ((c ∷ l) ∷ ls) ≡ join ((c ∷ l) ∷ rest))
      ⊎ (join ((c ∷ l) ∷ ls) ≡ join ((c ∷ l) ∷ rest) ++ b'\n' ∷ [])

-- A line that is not blank begins the text with no white space.
join-start :
    (c : ℕ) (l : Bytes) (ls : List Bytes) → IsClean (c ∷ l) → space_len (join ((c ∷ l) ∷ ls)) ≡ 0
unfolding join_with
join-start c l [] clean = clean.start
join-start c l (m ∷ ls) clean = space_len-line (c ∷ l) (join (m ∷ ls)) (λ e. cc) clean.start

join_ne : (c : ℕ) (l : Bytes) (ls : List Bytes) → join ((c ∷ l) ∷ ls) ≢ []
unfolding join_with
join_ne c l [] e = cc
join_ne c l (m ∷ ls) e = cc

reverse_ne : (t : Bytes) → t ≢ [] → reverse t ≢ []
reverse_ne t ne e = ne (sym (reverse-reverse t) ∙ ap reverse e)

-- White space at the end of a text does not reach over a newline.
reverse-end :
    (a t : Bytes)
    → t ≢ []
    → last_space_len (reverse t) ≡ 0
    → last_space_len (reverse (a ++ b'\n' ∷ t)) ≡ 0
reverse-end a t ne h =
    let turned : reverse (a ++ b'\n' ∷ t) ≡ reverse t ++ b'\n' ∷ reverse a =
      reverse-append a (b'\n' ∷ t)
      ∙ ap (λ r. r ++ reverse a) (reverse-cons b'\n' t)
      ∙ append_assoc (reverse t) (b'\n' ∷ []) (reverse a) in
    ap last_space_len turned ∙ last_space_len-line (reverse t) (reverse a) (reverse_ne t ne) h

trim_end : (c : ℕ) (l : Bytes) (ls : List Bytes) → Tidy 0 ((c ∷ l) ∷ ls) → Trimmed c l ls
unfolding join_with
trim_end c l [] h = record { rest = []; tidy = h; end = h.0.end; same = inl refl }
trim_end c l ([] ∷ []) h = record {
  rest = [];
  tidy = (h.0, h.1, tt);
  end = h.0.end;
  same = inr refl;
}
trim_end c l ([] ∷ [] ∷ ls) h = absurd (omega (arith, h.2.1.0))
trim_end c l ([] ∷ (d ∷ m) ∷ ls) h =
    let on = trim_end d m ls h.2.1 in
    let last = join ((d ∷ m) ∷ on.rest) in
    record {
      rest = [] ∷ (d ∷ m) ∷ on.rest;
      tidy = (h.0, h.1, (refl, on.tidy));
      end =
          reverse-end (c ∷ l) (b'\n' ∷ last) (λ e. cc)
            (reverse-end [] last (join_ne d m on.rest) on.end);
      same = elim on.same [
        | inl e ↦ inl (ap (λ t. (c ∷ l) ++ b'\n' ∷ b'\n' ∷ t) e)
        | inr e ↦ inr (
            ap (λ t. (c ∷ l) ++ b'\n' ∷ b'\n' ∷ t) e
            ∙ sym (append_assoc (c ∷ l) (b'\n' ∷ b'\n' ∷ last) (b'\n' ∷ [])))
      ];
    }
trim_end c l ((d ∷ m) ∷ ls) h =
    let on = trim_end d m ls h.2 in
    let last = join ((d ∷ m) ∷ on.rest) in
    record {
      rest = (d ∷ m) ∷ on.rest;
      tidy = (h.0, h.1, on.tidy);
      end = reverse-end (c ∷ l) last (join_ne d m on.rest) on.end;
      same = elim on.same [
        | inl e ↦ inl (ap (λ t. (c ∷ l) ++ b'\n' ∷ t) e)
        | inr e ↦ inr (
            ap (λ t. (c ∷ l) ++ b'\n' ∷ t) e
            ∙ sym (append_assoc (c ∷ l) (b'\n' ∷ last) (b'\n' ∷ [])))
      ];
    }

-- A text of lines, some of which is not blank, and what trimming makes of it.
lines-IsNormal :
    (c : ℕ) (l : Bytes) (rest : List Bytes)
    → Tidy 0 ((c ∷ l) ∷ rest)
    → last_space_len (reverse (join ((c ∷ l) ∷ rest))) ≡ 0
    → IsNormal (join ((c ∷ l) ∷ rest))
lines-IsNormal c l rest tidy end =
    let plain = Tidy-AllPlain 0 ((c ∷ l) ∷ rest) tidy in
    record {
      clean = record { start = join-start c l rest tidy.0; end = end };
      tidy = subst (Tidy 0) (sym (split_on-join_with (c ∷ l) rest plain)) tidy;
    }

trim_right-IsNormal :
    (c : ℕ) (l : Bytes) (ls : List Bytes)
    → Tidy 0 ((c ∷ l) ∷ ls)
    → IsNormal (trim_right (join ((c ∷ l) ∷ ls)))
trim_right-IsNormal c l ls tidy =
    let cut = trim_end c l ls tidy in
    let t = join ((c ∷ l) ∷ cut.rest) in
    let trimmed : trim_right (join ((c ∷ l) ∷ ls)) ≡ t = elim cut.same [
      | inl e ↦ ap trim_right e ∙ trim_right_none t cut.end
      | inr e ↦ ap trim_right e ∙ trim_right-newline t cut.end
    ] in
    subst IsNormal (sym trimmed) (lines-IsNormal c l cut.rest cut.tidy cut.end)

nil-IsNormal : IsNormal []
unfolding split_on space_len last_space_len
nil-IsNormal = record { clean = record { start = refl; end = refl }; tidy = (refl, tt) }

trim_space-IsNormal : (ls : List Bytes) → Tidy 0 ls → IsNormal (trim_space (join ls))
unfolding trim_space join_with
trim_space-IsNormal [] h = subst IsNormal (sym trim_space-nil) nil-IsNormal
trim_space-IsNormal ([] ∷ []) h = subst IsNormal (sym trim_space-nil) nil-IsNormal
trim_space-IsNormal ([] ∷ [] ∷ ls) h = absurd (omega (arith, h.1.0))
trim_space-IsNormal ([] ∷ (c ∷ l) ∷ ls) (e, h) =
    subst (λ t. IsNormal (trim_right t))
      (sym (trim_left-newline (join ((c ∷ l) ∷ ls)) (join-start c l ls h.0)))
      (trim_right-IsNormal c l ls h)
trim_space-IsNormal ((c ∷ l) ∷ ls) h =
    subst (λ t. IsNormal (trim_right t))
      (sym (trim_left_none (join ((c ∷ l) ∷ ls)) (join-start c l ls h.0)))
      (trim_right-IsNormal c l ls h)

normalize_normal : (t : Bytes) → IsNormal t → normalize_whitespace t ≡ t
unfolding normalize_whitespace
normalize_normal t h =
    ap (λ ls. trim_space (join ls)) (kept_lines_same 0 (split_on b'\n' t) h.tidy)
    ∙ ap trim_space (join_with-split_on t)
    ∙ trim_space_clean t h.clean

-- Normalized text has no white space at its ends, and its lines have none at theirs; no two blank
-- lines follow each other. Normalizing it once more changes nothing.
pub normalize_whitespace-IsNormal :
    (s : Bytes)
    → IsNormal (normalize_whitespace s)
      × (normalize_whitespace (normalize_whitespace s) ≡ normalize_whitespace s)
unfolding normalize_whitespace
normalize_whitespace-IsNormal s =
    let normal =
      trim_space-IsNormal (kept_lines 0 (split_on b'\n' s))
        (kept_lines-Tidy 0 (split_on b'\n' s) (split_on-AllPlain s)) in
    (normal, normalize_normal (normalize_whitespace s) normal)
