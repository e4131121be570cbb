-- ===== src/Extract/Markdown/FrontMatter.antt =====
-- The front matter by lines: what `stripFrontMatter` finds with offsets.
use mathlib.Core.List.{append_assoc, append-nil}
use mathlib.Core.Option as Option
use maestro_cms.Prelude.{
  ℕ, zero, suc, ◌<◌, ◌≡◌, refl, sym, ap, ◌∙◌, inl, inr, true, false, Option, none, some, List, [],
  ◌∷◌, ◌++◌, arith, ◌||◌, ◌==◌, ==_iff, Bool-cases, Option-cases, if◌then◌else◌, length, take, drop,
  length-drop,
}
use maestro_cms.Text.{Bytes, index_byte}
use maestro_cms.Text.Equal.{bytes_eq→eq}
use maestro_cms.Text.Search.{index_byte-some}
use maestro_cms.Store.Memory.{has_prefix}
use maestro_cms.Extract.Normalize.{split_on, join_with}
use maestro_cms.Extract.Normalize.Lines.{split_on-cons, join_with-split_on}
use maestro_cms.Extract.Markdown.{
  trim_blanks, is_delimiter, body_after, strip_block, dashes, pluses, strip_front_matter,
}

-- The lines behind the first line that is the delimiter, as a text.
abbrev pub after_closing : Bytes → List Bytes → Option Bytes
after_closing delim [] = none
after_closing delim (l ∷ ls) =
    if is_delimiter delim l then some (join_with b'\n' ls) else after_closing delim ls

-- The body of a document with a front-matter block.
abbrev pub front_matter_body : List Bytes → Option Bytes
front_matter_body [] = none
front_matter_body (l ∷ ls) =
    if is_delimiter dashes l
    then after_closing dashes ls
    else if is_delimiter pluses l
    then after_closing pluses ls
    else none

split_on-none : (s : Bytes) → index_byte b'\n' s ≡ none → split_on b'\n' s ≡ s ∷ []
unfolding split_on index_byte
split_on-none [] h = refl
split_on-none (c ∷ s) h = elim (Bool-cases (c == b'\n')) [
  | inl newline ↦ absurd (ground (arith, newline, h))
  | inr plain ↦ elim (Option-cases (index_byte b'\n' s)) [
    | inl missing ↦ let ih = split_on-none s missing in rw (plain, ih) refl
    | inr (k, at) ↦ absurd (ground (arith, plain, h, at))
  ]
]

split_on-some :
    (s : Bytes) (n : ℕ)
    → index_byte b'\n' s ≡ some n
    → split_on b'\n' s ≡ take n s ∷ split_on b'\n' (drop (suc n) s)
unfolding split_on index_byte
split_on-some [] n h = absurd (ground (arith, h))
split_on-some (c ∷ s) n h = elim (Bool-cases (c == b'\n')) [
  | inl newline ↦ let here : n ≡ 0 = ground (arith, newline, h) in rw (newline, here) refl
  | inr plain ↦ elim (Option-cases (index_byte b'\n' s)) [
    | inl missing ↦ absurd (ground (arith, plain, h, missing))
    | inr (k, at) ↦
        let ih = split_on-some s k at in
        let there : n ≡ suc k = ground (arith, plain, h, at) in rw (plain, there, ih) refl
  ]
]

body_after-after_closing :
    (delim : Bytes) (fuel : ℕ) (rest : Bytes)
    → length rest < fuel
    → body_after delim fuel rest ≡ after_closing delim (split_on b'\n' rest)
unfolding body_after
body_after-after_closing delim zero rest h = absurd (omega arith)
body_after-after_closing delim (suc fuel) rest h = elim (Option-cases (index_byte b'\n' rest)) [
  | inl missing ↦
      let lines = split_on-none rest missing in unfold join_with in ground (arith, missing, lines)
  | inr (n, at) ↦
      let lines = split_on-some rest n at in
      let (short, here) = index_byte-some b'\n' rest at in
      let ih =
        body_after-after_closing delim fuel (drop (suc n) rest)
          (omega (arith, length-drop (suc n) rest)) in
      ground (arith, at, lines, ih, join_with-split_on (drop (suc n) rest))
]

abbrev rest_of : List Bytes → List Bytes
rest_of [] = []
rest_of (l ∷ ls) = ls

abbrev first_of : List Bytes → Bytes
first_of [] = []
first_of (l ∷ ls) = l

strip_block-lines :
    (delim s l : Bytes) (ls : List Bytes)
    → split_on b'\n' s ≡ l ∷ ls
    → strip_block delim s
      ≡ (if is_delimiter delim l then Option.get_or (after_closing delim ls) s else s)
unfolding strip_block
strip_block-lines delim s l ls e = elim (Option-cases (index_byte b'\n' s)) [
  | inl missing ↦
      let lines : s ∷ [] ≡ l ∷ ls = sym (split_on-none s missing) ∙ e in
      let none_left : ls ≡ [] = ap rest_of (sym lines) in ground (arith, missing, none_left)
  | inr (n, at) ↦
      let lines : take n s ∷ split_on b'\n' (drop (suc n) s) ≡ l ∷ ls =
        sym (split_on-some s n at) ∙ e in
      let first : l ≡ take n s = ap (first_of) (sym lines) in
      let others : ls ≡ split_on b'\n' (drop (suc n) s) = ap rest_of (sym lines) in
      let found =
        body_after-after_closing delim (suc (length (drop (suc n) s))) (drop (suc n) s)
          (omega arith) in
      let same : after_closing delim ls
          ≡ body_after delim (suc (length (drop (suc n) s))) (drop (suc n) s) =
        ap (after_closing delim) others ∙ sym found in
      rw (first, same) (ground (arith, at))
]

trim_blanks-prefix : (s : Bytes) → (post : Bytes) × (s ≡ trim_blanks s ++ post)
unfolding trim_blanks
trim_blanks-prefix [] = ([], refl)
trim_blanks-prefix (c ∷ s) = let (post, e) = trim_blanks-prefix s in go (trim_blanks s) post e
  where
    go :
        (t post : Bytes)
        → s ≡ t ++ post
        → (more : Bytes) × (c ∷ s
            ≡ elim t [
              | [] ↦ if c == b' ' || (c == b'\t' || c == b'\r') then [] else c ∷ []
              | d ∷ rest ↦ c ∷ d ∷ rest
            ]
              ++ more)
    go [] post e = elim (Bool-cases (c == b' ' || (c == b'\t' || c == b'\r'))) [
      | inl blank ↦ (c ∷ s, rw blank refl)
      | inr kept ↦ (post, rw kept (ap (λ t. c ∷ t) e))
    ]
    go (d ∷ rest) post e = (post, ap (λ t. c ∷ t) e)

has_prefix_append : (prefix t : Bytes) → has_prefix (prefix ++ t) prefix ≡ true
unfolding has_prefix
has_prefix_append [] [] = refl
has_prefix_append [] (x ∷ t) = refl
has_prefix_append (p ∷ prefix) t =
    let same : (p == p) ≡ true = (==_iff p p).1 refl in rw same (has_prefix_append prefix t)

join_with-cons : (l : Bytes) (ls : List Bytes) → (t : Bytes) × (join_with b'\n' (l ∷ ls) ≡ l ++ t)
unfolding join_with
join_with-cons l [] = ([], sym (append-nil l))
join_with-cons l (m ∷ ls) = (b'\n' ∷ join_with b'\n' (m ∷ ls), refl)

-- A document whose first line is the delimiter begins with it.
is_delimiter-has_prefix :
    (delim s l : Bytes) (ls : List Bytes)
    → split_on b'\n' s ≡ l ∷ ls
    → is_delimiter delim l ≡ true
    → has_prefix s delim ≡ true
is_delimiter-has_prefix delim s l ls e h =
    let (post, cut) = trim_blanks-prefix l in
    let (t, joined) = join_with-cons l ls in
    let whole : s ≡ delim ++ (post ++ t) =
      sym (join_with-split_on s)
      ∙ ap (join_with b'\n') e
      ∙ joined
      ∙ ap (λ x. x ++ t) (cut ∙ ap (λ x. x ++ post) (bytes_eq→eq (trim_blanks l) delim h))
      ∙ append_assoc delim post t in
    ap (λ x. has_prefix x delim) whole ∙ has_prefix_append delim (post ++ t)

not_both : (s : Bytes) → has_prefix s dashes ≡ true → has_prefix s pluses ≡ false
unfolding has_prefix
not_both [] h = refl
not_both (c ∷ s) h = ground arith

not_delimiter :
    (delim s l : Bytes) (ls : List Bytes)
    → split_on b'\n' s ≡ l ∷ ls
    → has_prefix s delim ≡ false
    → is_delimiter delim l ≡ false
not_delimiter delim s l ls e h = elim (Bool-cases (is_delimiter delim l)) [
  | inl is ↦ let has = is_delimiter-has_prefix delim s l ls e is in absurd (ground (arith, h, has))
  | inr is_not ↦ is_not
]

-- Stripping yields the body that the lines of the document give, where its first line is a delimiter,
-- up to trailing blanks, and a later line is the same delimiter; any other document is unchanged.
pub strip_front_matter-lines :
    (s : Bytes) → strip_front_matter s ≡ Option.get_or (front_matter_body (split_on b'\n' s)) s
unfolding strip_front_matter
strip_front_matter-lines s =
    let (l, ls, e) = split_on-cons s in
    rw e (elim (Bool-cases (has_prefix s dashes)) [
      | inl opens ↦
          let no_pluses = not_delimiter pluses s l ls e (not_both s opens) in
          let block = strip_block-lines dashes s l ls e in
          elim (Bool-cases (is_delimiter dashes l)) [
            | inl is ↦ rw (opens, is) (block ∙ rw is refl)
            | inr is_not ↦ rw (opens, is_not, no_pluses) (block ∙ rw is_not refl)
          ]
      | inr shut ↦
          let no_dashes = not_delimiter dashes s l ls e shut in
          elim (Bool-cases (has_prefix s pluses)) [
            | inl opens ↦
                let block = strip_block-lines pluses s l ls e in
                elim (Bool-cases (is_delimiter pluses l)) [
                  | inl is ↦ rw (shut, opens, no_dashes, is) (block ∙ rw is refl)
                  | inr is_not ↦ rw (shut, opens, no_dashes, is_not) (block ∙ rw is_not refl)
                ]
            | inr none_opens ↦
                let no_pluses = not_delimiter pluses s l ls e none_opens in
                rw (shut, none_opens, no_dashes, no_pluses) refl
          ]
    ])
