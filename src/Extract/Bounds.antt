-- ===== src/Extract/Bounds.antt =====
-- `ReadAll` behind the registry's limit.
use maestro_cms.Prelude.{
  ℕ, ◌≤◌, ◌<◌, ◌≡◌, ◌≢◌, ap, ◌∙◌, ◌⊎◌, inl, inr, Option, none, some, [], arith, length,
  Option-cases, ltb, if◌then◌else◌,
}
use maestro_cms.Prelude.Int.{ℤ, pos, max_int64}
use maestro_cms.Text.{Bytes}
use maestro_cms.Extract.Io.{
  IoError, eof, source_too_large, decompressed_too_large, slice_panic, interrupted, other, Reader,
  limit_read, bounded_read, ctx_read, beside, read_loop,
}
use maestro_cms.Extract.Io.Limit.{bounded_loop-le, reading}
use maestro_cms.Extract.Io.Source.{Source, whole, source_read, reads_left, background}
use maestro_cms.Extract.Io.Total.{ending, source_loop}
use maestro_cms.Extract.Defs.{Result, ok, err, read_failed, Env, read_all, wrapped}

-- The environment in which `Registry.Extract` calls an extractor.
abbrev pub behind_limit : {W : Type 0} → Env W → Env (W × ℤ)
behind_limit env = record { ctx = beside env.ctx; room = env.room; fuel = env.fuel }

too_large-ne-eof : (n : ℕ) → source_too_large n ≢ eof
too_large-ne-eof n e = cc

wrapped-ok :
    {W : Type 0} (m : Option ((Bytes × Option IoError) × W)) (bytes : Bytes) (w : W)
    → wrapped m ≡ some (ok bytes, w)
    → m ≡ some ((bytes, none), w)
wrapped-ok none bytes w h = cc
wrapped-ok (some ((b, none), w')) bytes w h = cc
wrapped-ok (some ((b, some e), w')) bytes w h = cc

-- Whatever the caller's reader and the context do, what `ReadAll` returns behind the registry's limit
-- has at most as many bytes as the limit.
pub read_all-le-limit :
    {W : Type 0} (env : Env W) (r : Reader W) (limit : ℕ) (w : W) (bytes : Bytes) (s : W × ℤ)
    → read_all (behind_limit env) (limit_read limit r) (w, pos limit) ≡ some (ok bytes, s)
    → length bytes ≤ limit
unfolding read_all limit_read reading beside
read_all-le-limit env r limit w bytes s h = elim (Option-cases (env.ctx w).0) [
  | inr (c, done) ↦ absurd (ground (arith, done, h))
  | inl alive ↦
      let loop =
        read_loop env.room (ctx_read (beside env.ctx) (bounded_read (source_too_large limit) r))
          env.fuel [] ((env.ctx w).1, pos limit) in
      let returned : wrapped loop ≡ some (ok bytes, s) = ground (arith, alive, h) in
      omega (
        arith,
        bounded_loop-le env.room env.ctx r (source_too_large limit) (too_large-ne-eof limit)
            env.fuel [] bytes (env.ctx w).1 limit s (wrapped-ok loop bytes s returned),
      )
]

-- What reading a source behind a limit comes to.
abbrev pub read_result : ℕ → Bytes → IoError → Result Bytes
read_result limit bytes end =
    if ltb limit (length bytes)
    then err (read_failed (source_too_large limit))
    else elim (ending end) [ none ↦ ok bytes | some e ↦ err (read_failed e) ]

wrapped_result :
    {W : Type 0} (limit : ℕ) (rest bytes : Bytes) (end : IoError) (e : Option IoError) (w : W)
    → (length rest ≤ limit) × (bytes ≡ rest) × (e ≡ ending end)
      ⊎ (limit < length rest) × (e ≡ some (source_too_large limit))
    → wrapped (some ((bytes, e), w)) ≡ some (read_result limit rest end, w)
wrapped_result limit rest bytes end e w (inr (over, failed)) = rw failed (ground (arith, over))
wrapped_result limit rest bytes eof e w (inl (le, all, ends)) =
    rw ends (rw all (ground (arith, le)))
wrapped_result limit rest bytes decompressed_too_large e w (inl (le, all, ends)) =
    rw ends (ground (arith, le))
wrapped_result limit rest bytes slice_panic e w (inl (le, all, ends)) = rw ends (ground (arith, le))
wrapped_result limit rest bytes (source_too_large n) e w (inl (le, all, ends)) =
    rw ends (ground (arith, le))
wrapped_result limit rest bytes (interrupted c) e w (inl (le, all, ends)) =
    rw ends (ground (arith, le))
wrapped_result limit rest bytes (other n) e w (inl (le, all, ends)) = rw ends (ground (arith, le))

-- With fuel for the pieces of a source, a context that is not done and a limit below the largest int64,
-- `ReadAll` behind the registry's limit returns: a source of more bytes than the limit is `ErrSourceTooLarge`, and of any other it has
-- all bytes or the source's error, in whatever pieces and buffers they come.
pub read_all_source :
    (room : ℕ → ℕ) (fuel limit : ℕ) (src : Source)
    → limit < max_int64
    → ((n : ℕ) → 0 < room n)
    → reads_left src.pieces < fuel
    → (s : Source × ℤ) × (read_all
          (behind_limit (record { ctx = background; room = room; fuel = fuel }))
          (limit_read limit source_read)
          (src, pos limit)
        ≡ some (read_result limit (whole src) src.end, s))
unfolding read_all limit_read reading beside
read_all_source room fuel limit src small room_left enough =
    let (bytes, e, s, returns, cases) =
      source_loop room room_left (source_too_large limit) (too_large-ne-eof limit) fuel []
        src.pieces src.end limit small enough in
    (s, ap wrapped returns ∙ wrapped_result limit (whole src) bytes src.end e s cases)
