-- ===== src/Extract/Io/Total.antt =====
-- A source is read to its end, through the bounded reader, in whatever pieces it comes.
use mathlib.Core.List.{append_assoc}
use maestro_cms.Prelude.{
  ℕ, zero, suc, ◌-◌, ◌≤◌, ◌<◌, ◌≡◌, ◌≢◌, refl, ap, sym, ◌∙◌, ◌⊎◌, inl, inr, Option, none, some,
  List, [], ◌∷◌, ◌++◌, arith, leb, leb→lt, Bool-cases, lt-or-le, length, length-append, take, drop,
  length-drop, take-drop,
}
use maestro_cms.Prelude.Int.{ℤ, pos, max_int64}
use maestro_cms.Text.{Bytes}
use maestro_cms.Extract.Io.{
  IoError, eof, decompressed_too_large, slice_panic, source_too_large, interrupted, other, Reader,
  bounded_read, after_read, read_loop,
}
use maestro_cms.Extract.Io.Source.{Source, joined, source_read, reads_left, background}
use maestro_cms.Extract.Io.Limit.{
  after_read-error, read_loop-step, cut, bounded_read-over, bounded_read-within, reading,
  reading_alive,
}

-- What `io.ReadAll` makes of the error at the end of a source.
abbrev pub ending : IoError → Option IoError
ending eof = none
ending decompressed_too_large = some decompressed_too_large
ending slice_panic = some slice_panic
ending (source_too_large n) = some (source_too_large n)
ending (interrupted c) = some (interrupted c)
ending (other n) = some (other n)

pub after_read-end :
    {W : Type 0} (e : IoError) (acc : Bytes) (w : W) (on : Option ((Bytes × Option IoError) × W))
    → after_read (some e) acc w on ≡ some ((acc, ending e), w)
after_read-end eof acc w on = refl
after_read-end decompressed_too_large acc w on = refl
after_read-end slice_panic acc w on = refl
after_read-end (source_too_large n) acc w on = refl
after_read-end (interrupted c) acc w on = refl
after_read-end (other n) acc w on = refl

-- A read of a source that has a piece left.
pub source_read-piece :
    (n : ℕ) (p : Bytes) (ps : List Bytes) (end : IoError)
    → 0 < n
    → (b : Bytes) × (ps' : List Bytes) × (source_read n (record { pieces = p ∷ ps; end = end })
        ≡ (b, none, record { pieces = ps'; end = end }))
      × (b ++ joined ps' ≡ joined (p ∷ ps))
      × (reads_left ps' < reads_left (p ∷ ps))
unfolding source_read
source_read-piece n p ps end h = elim (Bool-cases (leb (length p) n)) [
  | inl fits ↦ (p, ps, rw fits refl, refl, omega arith)
  | inr long ↦ (
    take n p,
    drop n p ∷ ps,
    rw long refl,
    sym (append_assoc (take n p) (drop n p) (joined ps)) ∙ ap (λ l. l ++ joined ps) (take-drop n p),
    omega (arith, length-drop n p, leb→lt _ _ long),
  )
]

pub source_read-end :
    (n : ℕ) (end : IoError)
    → source_read n (record { pieces = []; end = end })
      ≡ ([], some end, record { pieces = []; end = end })
unfolding source_read
source_read-end n end = refl

-- A bounded read, for what the reader below it returns.
bounded_over :
    {W : Type 0} (error : IoError) (r : Reader W) (n remaining : ℕ) (w w' : W) (b : Bytes)
    (e : Option IoError)
    → r (cut n remaining) w ≡ (b, e, w')
    → remaining < max_int64
    → remaining < length b
    → (z : ℤ) × (bounded_read error r n (w, pos remaining) ≡ (b, some error, (w', z)))
bounded_over error r n remaining w w' b e h small over =
    let (z, q) = bounded_read-over error r n remaining w small (rw h over) in (z, q ∙ rw h refl)

bounded_within :
    {W : Type 0} (error : IoError) (r : Reader W) (n remaining : ℕ) (w w' : W) (b : Bytes)
    (e : Option IoError)
    → r (cut n remaining) w ≡ (b, e, w')
    → remaining < max_int64
    → length b ≤ remaining
    → bounded_read error r n (w, pos remaining) ≡ (b, e, (w', pos (remaining - length b)))
bounded_within error r n remaining w w' b e h small within =
    bounded_read-within error r n remaining w small (rw h within) ∙ rw h refl

module _ (room : ℕ → ℕ) (room_left : (n : ℕ) → 0 < room n) (error : IoError)
    (not_eof : error ≢ eof) where
  -- What the loop comes to, with the bytes `rest` to come and `remaining` allowed.
  abbrev pub ReadsTo :
      IoError → Bytes → Bytes → ℕ → Option ((Bytes × Option IoError) × (Source × ℤ)) → Type 0
  ReadsTo end acc rest remaining m =
      (bytes : Bytes) × (e : Option IoError) × (w : Source × ℤ) × (m ≡ some ((bytes, e), w))
      × ((length rest ≤ remaining) × (bytes ≡ acc ++ rest) × (e ≡ ending end)
          ⊎ (remaining < length rest) × (e ≡ some error))

  pub source_loop :
      (f : ℕ) (acc : Bytes) (ps : List Bytes) (end : IoError) (remaining : ℕ)
      → remaining < max_int64
      → reads_left ps < f
      → ReadsTo end acc (joined ps) remaining (
          read_loop room
            (reading room background source_read error not_eof)
            f
            acc
            (record { pieces = ps; end = end }, pos remaining))
  source_loop zero acc ps end remaining small h = absurd (omega arith)
  source_loop (suc f) acc [] end remaining small h =
      let src : Source = record { pieces = []; end = end } in
      let n = cut (room (length acc)) remaining in
      let at_end = source_read-end n end in
      let e =
        bounded_within error source_read (room (length acc)) remaining src src [] (some end) at_end
          small (omega arith) in
      let step =
        read_loop-step room (reading room background source_read error not_eof) f acc [] _ _ _ (
          reading_alive room background source_read error not_eof src remaining (room (length acc))
            refl
          ∙ e) in
      (
        acc ++ [],
        ending end,
        _,
        step ∙ after_read-end end (acc ++ []) _ _,
        inl (omega arith, refl, refl),
      )
  source_loop (suc f) acc (p ∷ ps) end remaining small h =
      let src : Source = record { pieces = p ∷ ps; end = end } in
      let n = cut (room (length acc)) remaining in
      let (b, ps', reads, same, fewer) =
        source_read-piece n p ps end (ground (arith, room_left (length acc))) in
      let alive =
        reading_alive room background source_read error not_eof src remaining (room (length acc))
          refl in
      elim (lt-or-le remaining (length b)) [
        | inl over ↦
            let (z, e) =
              bounded_over error source_read (room (length acc)) remaining src _ b none reads small
                over in
            let step =
              read_loop-step room (reading room background source_read error not_eof) f acc b _ _ _
                (alive ∙ e) in
            (
              acc ++ b,
              some error,
              _,
              step ∙ after_read-error error (acc ++ b) _ _ not_eof,
              inr (omega (arith, over, ap length same, length-append b (joined ps')), refl),
            )
        | inr within ↦
            let e =
              bounded_within error source_read (room (length acc)) remaining src _ b none reads
                small within in
            let step =
              read_loop-step room (reading room background source_read error not_eof) f acc b _ _ _
                (alive ∙ e) in
            let (bytes, err, w, returns, cases) =
              source_loop f (acc ++ b) ps' end (remaining - length b) (omega arith)
                (omega (arith, fewer)) in
            (
              bytes,
              err,
              w,
              step ∙ returns,
              elim cases [
                | inl (le, all, ends) ↦ inl (
                  omega (arith, le, within, ap length same, length-append b (joined ps')),
                  all ∙ append_assoc acc b (joined ps') ∙ ap (λ l. acc ++ l) same,
                  ends,
                )
                | inr (lt, failed) ↦ inr (
                  omega (arith, lt, within, ap length same, length-append b (joined ps')),
                  failed,
                )
              ],
            )
      ]
