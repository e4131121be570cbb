-- ===== src/Extract/Io/Limit.antt =====
-- Reading through the limit reader.

use maestro_cms.Prelude.{
  ℕ, zero, suc, ◌+◌, ◌-◌, ◌≤◌, ◌<◌, ◌≡◌, ◌≢◌, refl, ◌⊎◌, lt-or-le, Option-cases, ap, sym, ◌∙◌, inl,
  inr, Option, none, some, [], ◌++◌, arith, ltb, if◌then◌else◌, length, length-append,
}
use maestro_cms.Prelude.Int.{ℤ, pos, max_int64}
use maestro_cms.Text.{Bytes}
use maestro_cms.Extract.Io.{
  ContextError, IoError, eof, decompressed_too_large, slice_panic, source_too_large, interrupted,
  other, Reader, Context, minus, bounded_read, ctx_read, beside, after_read, read_loop,
}

-- `io.ReadAll` returned no error: it went on, or the read was the last.
pub after_read-ok :
    {W : Type 0} (e : Option IoError) (acc bytes : Bytes) (w w' : W)
    (on : Option ((Bytes × Option IoError) × W))
    → after_read e acc w on ≡ some ((bytes, none), w')
    → ((e ≡ none) × (on ≡ some ((bytes, none), w'))) ⊎ ((e ≡ some eof) × (bytes ≡ acc))
after_read-ok none acc bytes w w' on h = inl (refl, h)
after_read-ok (some eof) acc bytes w w' on h = inr (refl, cc)
after_read-ok (some decompressed_too_large) acc bytes w w' on h = cc
after_read-ok (some slice_panic) acc bytes w w' on h = cc
after_read-ok (some (source_too_large n)) acc bytes w w' on h = cc
after_read-ok (some (interrupted c)) acc bytes w w' on h = cc
after_read-ok (some (other n)) acc bytes w w' on h = cc

pub after_read-error :
    {W : Type 0} (e : IoError) (acc : Bytes) (w : W) (on : Option ((Bytes × Option IoError) × W))
    → e ≢ eof
    → after_read (some e) acc w on ≡ some ((acc, some e), w)
after_read-error eof acc w on h = absurd (h refl)
after_read-error decompressed_too_large acc w on h = refl
after_read-error slice_panic acc w on h = refl
after_read-error (source_too_large n) acc w on h = refl
after_read-error (interrupted c) acc w on h = refl
after_read-error (other n) acc w on h = refl

pub read_loop-step :
    {W : Type 0} (room : ℕ → ℕ) (r : Reader W) (f : ℕ) (acc b : Bytes) (w w' : W)
    (e : Option IoError)
    → r (room (length acc)) w ≡ (b, e, w')
    → read_loop room r (suc f) acc w ≡ after_read e (acc ++ b) w' (read_loop room r f (acc ++ b) w')
unfolding read_loop
read_loop-step room r f acc b w w' e h = rw h refl

-- The size of the buffer that the bounded reader passes on.
abbrev pub cut : ℕ → ℕ → ℕ
cut n remaining = if ltb (remaining + 1) n then remaining + 1 else n

module _ {W : Type 0} (error : IoError) (r : Reader W) (n remaining : ℕ) (w : W) where
  -- The panic, for the largest int64.
  bounded_read-panic :
      max_int64 ≤ remaining
      → bounded_read error r n (w, pos remaining) ≡ ([], some slice_panic, (w, pos remaining))
  unfolding bounded_read
  bounded_read-panic h = ground arith

  pub bounded_read-over :
      remaining < max_int64
      → remaining < length (r (cut n remaining) w).0
      → (z : ℤ) × (bounded_read error r n (w, pos remaining)
          ≡ ((r (cut n remaining) w).0, some error, ((r (cut n remaining) w).2, z)))
  unfolding bounded_read
  bounded_read-over small h = (minus remaining (length (r (cut n remaining) w).0), ground arith)

  pub bounded_read-within :
      remaining < max_int64
      → length (r (cut n remaining) w).0 ≤ remaining
      → bounded_read error r n (w, pos remaining) ≡ (
        (r (cut n remaining) w).0,
        (r (cut n remaining) w).1,
        ((r (cut n remaining) w).2, pos (remaining - length (r (cut n remaining) w).0)),
      )
  unfolding bounded_read
  bounded_read-within small h = ground arith

module _ {W : Type 0} (room : ℕ → ℕ) (ctx : Context W) (r : Reader W) (error : IoError)
    (not_eof : error ≢ eof) where
  unfoldable pub reading : Reader (W × ℤ)
  reading = ctx_read (beside ctx) (bounded_read error r)

  reading_done :
      (w : W) (remaining n : ℕ) (c : ContextError)
      → (ctx w).0 ≡ some c
      → reading n (w, pos remaining) ≡ ([], some (interrupted c), ((ctx w).1, pos remaining))
  unfolding reading ctx_read beside
  reading_done w remaining n c done = ground (arith, done)

  pub reading_alive :
      (w : W) (remaining n : ℕ)
      → (ctx w).0 ≡ none
      → reading n (w, pos remaining) ≡ bounded_read error r n ((ctx w).1, pos remaining)
  unfolding reading ctx_read beside
  reading_alive w remaining n alive = ground (arith, alive)

  -- Whatever the reader and the context do.
  pub bounded_loop-le :
      (f : ℕ) (acc bytes : Bytes) (w : W) (remaining : ℕ) (s' : W × ℤ)
      → read_loop room reading f acc (w, pos remaining) ≡ some ((bytes, none), s')
      → length bytes ≤ length acc + remaining
  unfolding reading
  bounded_loop-le zero acc bytes w remaining s' h = absurd (unfold read_loop in cc)
  bounded_loop-le (suc f) acc bytes w remaining s' h = elim (Option-cases (ctx w).0) [
    | inr (c, done) ↦
        let step =
          read_loop-step room reading f acc [] (w, pos remaining) _ (some (interrupted c))
            (reading_done w remaining (room (length acc)) c done) in
        cc (step, h)
    | inl alive ↦
        let n = room (length acc) in
        let got = r (cut n remaining) (ctx w).1 in
        let b = got.0 in
        let reads = reading_alive w remaining n alive in
        elim (lt-or-le remaining max_int64) [
          | inr huge ↦
              let e = bounded_read-panic error r n remaining (ctx w).1 huge in
              let step =
                read_loop-step room reading f acc [] (w, pos remaining) _ (some slice_panic)
                  (reads ∙ e) in
              cc (step, h)
          | inl small ↦ elim (lt-or-le remaining (length b)) [
            | inl over ↦
                let (z, e) = bounded_read-over error r n remaining (ctx w).1 small over in
                let step =
                  read_loop-step room reading f acc b (w, pos remaining) _ (some error)
                    (reads ∙ e) in
                cc (
                  step,
                  after_read-error error (acc ++ b) (got.2, z)
                      (read_loop room reading f (acc ++ b) (got.2, z)) not_eof,
                  h,
                )
            | inr within ↦
                let e = bounded_read-within error r n remaining (ctx w).1 small within in
                let step =
                  read_loop-step room reading f acc b (w, pos remaining) _ got.1 (reads ∙ e) in
                elim (after_read-ok got.1 (acc ++ b) bytes (got.2, pos (remaining - length b)) s' _
                  (sym step ∙ h)) [
                    | inl (on, rest) ↦ omega (
                      arith,
                      bounded_loop-le f (acc ++ b) bytes got.2 (remaining - length b) s' rest,
                      length-append acc b,
                      within,
                    )
                    | inr (last, all) ↦ omega (arith, ap length all, length-append acc b, within)
                  ]
          ]
        ]
  ]
