-- ===== src/Chunk/Run.antt =====
-- What a splitting function appends to `*chunks`: a run of slices of the text, numbered on from
-- `*idx`, with ascending starts, that covers the positions that it must.
use maestro_cms.Prelude.{
  ℕ, suc, ◌+◌, ◌≤◌, ◌<◌, ◌≡◌, refl, sym, ap, ◌∙◌, ◌⊎◌, inl, inr, Option, some, List, [], ◌∷◌, ◌++◌,
  arith, length, length-append, slice,
}
use mathlib.Core.List.{append-nil, append_assoc}
use maestro_cms.Prelude.Int.{pos}
use maestro_cms.Text.{Bytes}
use maestro_cms.Chunk.Defs.{Chunk, Out, append_chunk}

-- The contract of `Chunk`: a nonempty slice of the text, which ends at `lim` at the latest.
pub record IsSlice (text : Bytes) (lim : ℕ) (c : Chunk) : Type 0 where
  pub text_is : c.text ≡ slice text c.start_byte c.end_byte
  pub not_empty : c.start_byte < c.end_byte
  pub in_range : c.end_byte ≤ lim

-- The chunks are numbered from `k`, and start in ascending order from `lo` on and below `hi`.
abbrev pub IsRun : Bytes → ℕ → ℕ → ℕ → ℕ → List Chunk → Type 0
IsRun text lim k lo hi [] = lo ≤ hi
IsRun text lim k lo hi (c ∷ cs) =
    IsSlice text lim c
    × (c.index ≡ pos k)
    × (lo ≤ c.start_byte)
    × IsRun text lim (k + 1) (c.start_byte + 1) hi cs

abbrev pub Covered : List Chunk → ℕ → Type 0
Covered [] p = ⊥
Covered (c ∷ cs) p = ((c.start_byte ≤ p) × (p < c.end_byte)) ⊎ Covered cs p

pub Covered-left : (xs ys : List Chunk) (p : ℕ) → Covered xs p → Covered (xs ++ ys) p
Covered-left [] ys p h = absurd h
Covered-left (x ∷ xs) ys p (inl h) = inl h
Covered-left (x ∷ xs) ys p (inr h) = inr (Covered-left xs ys p h)

pub Covered-right : (xs ys : List Chunk) (p : ℕ) → Covered ys p → Covered (xs ++ ys) p
Covered-right [] ys p h = h
Covered-right (x ∷ xs) ys p h = inr (Covered-right xs ys p h)

module _ (text : Bytes) (lim : ℕ) where
  pub IsRun-lower :
      (k : ℕ) (lo lo' hi : ℕ) (cs : List Chunk)
      → lo ≤ lo'
      → IsRun text lim k lo' hi cs
      → IsRun text lim k lo hi cs
  IsRun-lower k lo lo' hi [] h r = omega arith
  IsRun-lower k lo lo' hi (c ∷ cs) h (s, i, l, r) = (s, i, omega arith, r)

  pub IsRun-upper :
      (k lo hi hi' : ℕ) (cs : List Chunk)
      → hi ≤ hi'
      → IsRun text lim k lo hi cs
      → IsRun text lim k lo hi' cs
  IsRun-upper k lo hi hi' [] h r = omega arith
  IsRun-upper k lo hi hi' (c ∷ cs) h (s, i, l, r) =
      (s, i, l, IsRun-upper (k + 1) (c.start_byte + 1) hi hi' cs h r)

  IsRun-append :
      (k lo mid hi : ℕ) (xs ys : List Chunk)
      → IsRun text lim k lo mid xs
      → IsRun text lim (k + length xs) mid hi ys
      → IsRun text lim k lo hi (xs ++ ys)
  IsRun-append k lo mid hi [] ys h r =
      let e : k + 0 ≡ k = omega arith in IsRun-lower k lo mid hi ys h (rw e at r)
  IsRun-append k lo mid hi (c ∷ cs) ys (s, i, l, h) r =
      let e : k + suc (length cs) ≡ k + 1 + length cs = omega arith in
      (s, i, l, IsRun-append (k + 1) (c.start_byte + 1) mid hi cs ys h (rw e at r))

pub IsRun-lim :
    (text : Bytes) (lim lim' k lo hi : ℕ) (cs : List Chunk)
    → lim ≤ lim'
    → IsRun text lim k lo hi cs
    → IsRun text lim' k lo hi cs
IsRun-lim text lim lim' k lo hi [] h r = r
IsRun-lim text lim lim' k lo hi (c ∷ cs) h (s, i, l, r) =
    let s' : IsSlice text lim' c = record {
      text_is = s.text_is;
      not_empty = s.not_empty;
      in_range = omega (arith, s.in_range);
    } in
    (s', i, l, IsRun-lim text lim lim' (k + 1) (c.start_byte + 1) hi cs h r)

-- `out'` is `out` with such a run appended, which covers every position that is wanted.
pub record Emits (text : Bytes) (lim lo hi : ℕ) (Wanted : ℕ → Type 0) (out out' : Out)
    : Type 0 where
  pub more : List Chunk
  pub chunks_is : out'.chunks ≡ out.chunks ++ more
  pub idx_is : out'.idx ≡ out.idx + length more
  pub run : IsRun text lim out.idx lo hi more
  pub covers : (p : ℕ) → Wanted p → Covered more p

-- The function returns, with such a run appended.
abbrev pub Appends : Bytes → ℕ → ℕ → ℕ → (ℕ → Type 0) → Out → Option Out → Type 0
Appends text lim lo hi Wanted out m =
    (out' : Out) × (m ≡ some out') × Emits text lim lo hi Wanted out out'

module _ (text : Bytes) (lim : ℕ) where
  pub Emits-refl :
      (lo hi : ℕ) (Wanted : ℕ → Type 0) (out : Out)
      → lo ≤ hi
      → ((p : ℕ) → ¬ Wanted p)
      → Emits text lim lo hi Wanted out out
  Emits-refl lo hi Wanted out h none_wanted = record {
    more = [];
    chunks_is = sym (append-nil out.chunks);
    idx_is = omega arith;
    run = h;
    covers = λ p w. absurd (none_wanted p w);
  }

  pub Emits-trans :
      {lo mid hi : ℕ} {W V U : ℕ → Type 0} {out out' out'' : Out}
      → Emits text lim lo mid W out out'
      → Emits text lim mid hi V out' out''
      → ((p : ℕ) → U p → W p ⊎ V p)
      → Emits text lim lo hi U out out''
  Emits-trans {lo} {mid} {hi} {W} {V} {U} {out} a b split = record {
    more = a.more ++ b.more;
    chunks_is =
        b.chunks_is ∙ ap (λ cs. cs ++ b.more) a.chunks_is ∙ append_assoc out.chunks a.more b.more;
    idx_is = omega (arith, a.idx_is, b.idx_is, length-append a.more b.more);
    run = IsRun-append text lim out.idx lo mid hi a.more b.more a.run (rw a.idx_is at b.run);
    covers = λ p u. join p (split p u);
  }
    where
      join : (p : ℕ) → W p ⊎ V p → Covered (a.more ++ b.more) p
      join p (inl w) = Covered-left a.more b.more p (a.covers p w)
      join p (inr v) = Covered-right a.more b.more p (b.covers p v)

  pub Emits-lower :
      {lo lo' hi : ℕ} {W : ℕ → Type 0} {out out' : Out}
      → lo ≤ lo'
      → Emits text lim lo' hi W out out'
      → Emits text lim lo hi W out out'
  Emits-lower {lo} {lo'} {hi} {W} {out} h a = record {
    more = a.more;
    chunks_is = a.chunks_is;
    idx_is = a.idx_is;
    run = IsRun-lower text lim out.idx lo lo' hi a.more h a.run;
    covers = a.covers;
  }

  -- A run may be said to end later, and to cover less.
  pub Emits-upper :
      {lo hi hi' : ℕ} {W V : ℕ → Type 0} {out out' : Out}
      → hi ≤ hi'
      → ((p : ℕ) → V p → W p)
      → Emits text lim lo hi W out out'
      → Emits text lim lo hi' V out out'
  Emits-upper {lo} {hi} {hi'} {W} {V} {out} {out'} h weaken a =
      Emits-trans a (Emits-refl hi hi' (λ _. ⊥) out' h (λ p w. w)) (λ p v. inl (weaken p v))

  pub append_chunk-Emits :
      (lo s e tok : ℕ) (out : Out)
      → lo ≤ s
      → s < e
      → e ≤ lim
      → Emits text lim lo (s + 1) (λ p. (s ≤ p) × (p < e)) out (append_chunk text s e tok out)
  unfolding append_chunk
  append_chunk-Emits lo s e tok out h lt le =
      let c : Chunk = record {
        text = slice text s e;
        index = pos out.idx;
        start_byte = s;
        end_byte = e;
        token_count = pos tok;
      } in
      record {
        more = c ∷ [];
        chunks_is = refl;
        idx_is = omega arith;
        run = (record { text_is = refl; not_empty = lt; in_range = le }, refl, h, omega arith);
        covers = λ p w. inl w;
      }

pub Emits-lim :
    {text : Bytes} {lim lim' lo hi : ℕ} {W : ℕ → Type 0} {out out' : Out}
    → lim ≤ lim'
    → Emits text lim lo hi W out out'
    → Emits text lim' lo hi W out out'
Emits-lim {text} {lim} {lim'} {lo} {hi} {W} {out} h a = record {
  more = a.more;
  chunks_is = a.chunks_is;
  idx_is = a.idx_is;
  run = IsRun-lim text lim lim' out.idx lo hi a.more h a.run;
  covers = a.covers;
}
