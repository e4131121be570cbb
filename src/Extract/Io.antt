-- ===== src/Extract/Io.antt =====
-- Readers and the context, and the wrappers of extract/extract.go: `ctxReader`, `limitReader` and
-- `ReadAll`. A reader is what a call of `Read` with a buffer of a size does to the world `W`.
pub mod Source
pub mod Limit
pub mod Total
use maestro_cms.Prelude.{
  ℕ, zero, suc, ◌+◌, ◌-◌, Bool, Option, none, some, List, [], ◌∷◌, ◌++◌, ltb, leb, if◌then◌else◌,
  length,
}
use maestro_cms.Prelude.Int.{ℤ, pos, negsuc, is_negative, max_int64}
use maestro_cms.Text.{Bytes}

pub data ContextError : Type 0 where
  canceled deadline_exceeded : ContextError

-- The errors of a `Read`; `other` is an error of the caller's reader. `slice_panic` is no error that a
-- `Read` returns: it stands for the run-time panic of a slice out of range, which nothing recovers, and
-- so does every error that the callers make of it.
pub data IoError : Type 0 where
  eof decompressed_too_large slice_panic : IoError
  source_too_large : ℕ → IoError
  interrupted : ContextError → IoError
  other : ℕ → IoError

-- The bytes read, the error or nil, and the world behind the call.
abbrev pub Reader : Type 0 → Type 0
Reader W = ℕ → W → Bytes × Option IoError × W

-- `ctx.Err()`
abbrev pub Context : Type 0 → Type 0
Context W = W → Option ContextError × W

-- `remaining - n` on int64
abbrev pub minus : ℕ → ℕ → ℤ
minus r n = if leb n r then pos (r - n) else negsuc (n - r - 1)

module _ {W : Type 0} where
  -- What is common to `limitReader` and the two `cappedReader`s, with the error that each returns. The
  -- field `remaining` stands beside the world. With `remaining` the largest int64, `remaining + 1` is
  -- negative, and the slice of the buffer panics.
  unfoldable pub bounded_read : IoError → Reader W → Reader (W × ℤ)
  bounded_read error r n (w, negsuc k) = ([], some error, (w, negsuc k))
  bounded_read error r n (w, pos remaining) =
      let (b, e, w') = r (if ltb (remaining + 1) n then remaining + 1 else n) w in
      let left = minus remaining (length b) in
      let read : Bytes × Option IoError × (W × ℤ) =
        (b, (if is_negative left then some error else e), (w', left)) in
      if leb max_int64 remaining then ([], some slice_panic, (w, pos remaining)) else read

  -- `limitReader.Read`
  unfoldable pub limit_read : ℕ → Reader W → Reader (W × ℤ)
  unfolding bounded_read
  limit_read limit r = bounded_read (source_too_large limit) r

  -- `ctxReader.Read`
  unfoldable pub ctx_read : Context W → Reader W → Reader W
  ctx_read ctx r n w =
      let (c, w') = ctx w in elim c [ some e ↦ ([], some (interrupted e), w') | none ↦ r n w' ]

  -- A context that also passes the field of a limit reader.
  unfoldable pub beside : Context W → Context (W × ℤ)
  beside ctx (w, z) = let (c, w') = ctx w in (c, (w', z))

  -- What `io.ReadAll` returns behind a read that returned `e`; the argument `on` goes on.
  abbrev pub after_read :
      Option IoError
      → Bytes
      → W
      → Option ((Bytes × Option IoError) × W)
      → Option ((Bytes × Option IoError) × W)
  after_read none acc w on = on
  after_read (some eof) acc w on = some ((acc, none), w)
  after_read (some decompressed_too_large) acc w on = some ((acc, some decompressed_too_large), w)
  after_read (some slice_panic) acc w on = some ((acc, some slice_panic), w)
  after_read (some (source_too_large n)) acc w on = some ((acc, some (source_too_large n)), w)
  after_read (some (interrupted c)) acc w on = some ((acc, some (interrupted c)), w)
  after_read (some (other n)) acc w on = some ((acc, some (other n)), w)

  -- `io.ReadAll`, on fuel, since a reader may go on for ever; `room n` is the size of the buffer behind
  -- the first `n` bytes.
  unfoldable pub read_loop :
      (ℕ → ℕ) → Reader W → ℕ → Bytes → W → Option ((Bytes × Option IoError) × W)
  read_loop room r zero acc w = none
  read_loop room r (suc f) acc w =
      let (b, e, w') = r (room (length acc)) w in
      after_read e (acc ++ b) w' (read_loop room r f (acc ++ b) w')
