-- ===== src/Extract/Pdf/Pdftotext.antt =====
-- extract/pdf/pdftotext/pdftotext.go: the engine that runs `pdftotext`. The process is the parameter
-- `Ran`: what it writes, how it ends, and what the contexts say behind it.
pub mod Writers
pub mod Pages
use maestro_cms.Prelude.{
  ℕ, ◌+◌, ◌-◌, Bool, true, false, ◌||◌, Option, none, some, List, [], ◌∷◌, ◌++◌, ltb, leb,
  if◌then◌else◌, length, take,
}
use maestro_cms.Prelude.Int.{ℤ, pos, negsuc}
use maestro_cms.Text.{Bytes, bytes_eq, codes}
use maestro_cms.Text.Trim.{trim_space}
use maestro_cms.Extract.Io.{ContextError}
use maestro_cms.Extract.Defs.{
  engine_unavailable, output_too_large, context_done, malformed_source, timed_out, exited,
  exec_failed, Result, ok, err,
}
use maestro_cms.Extract.Normalize.{split_on}
use maestro_cms.Extract.Pdf.{media_type, Page}

-- `Engine`
pub record Config : Type 0 where
  pub binary : Bytes
  pub timeout : ℤ
  pub max_output : ℤ

-- `bin`, `to` and `maxOut`
unfoldable pub bin : Config → Bytes
bin e = if bytes_eq e.binary [] then codes "pdftotext" else e.binary

abbrev pub or_default : ℕ → ℤ → ℕ
or_default d (negsuc n) = d
or_default d (pos n) = if leb n 0 then d else n

-- The timeout in nanoseconds.
unfoldable pub timeout_of : Config → ℕ
timeout_of e = or_default 30000000000 e.timeout

unfoldable pub max_out : Config → ℕ
max_out e = or_default 67108864 e.max_output

abbrev pub stderr_cap_bytes : ℕ
stderr_cap_bytes = 65536

-- `capWriter`; `canceled` is whether it called `cancel`.
pub record CapWriter : Type 0 where
  pub buf : Bytes
  pub n : ℕ
  pub limit : ℕ
  pub exceeded : Bool
  pub canceled : Bool

-- `capWriter.Write`, with the count that it returns and whether it returns an error.
unfoldable pub cap_write : Bytes → CapWriter → (ℕ × Bool) × CapWriter
cap_write p w =
    if w.exceeded || ltb w.limit (w.n + length p)
    then ((0, true), record w { exceeded = true; canceled = true })
    else ((length p, false), record w { buf = w.buf ++ p; n = w.n + length p })

-- `truncWriter`
pub record TruncWriter : Type 0 where
  pub buf : Bytes
  pub limit : ℕ

-- `truncWriter.Write`
unfoldable pub trunc_write : Bytes → TruncWriter → ℕ × TruncWriter
trunc_write p w =
    let rem = w.limit - length w.buf in
    let kept = if leb (length p) rem then p else take rem p in
    (length p, if ltb 0 rem then record w { buf = w.buf ++ kept } else w)

-- The copying of a stream into a writer. A write that fails ends the copying of stdout.
unfoldable pub copy_stdout : List Bytes → CapWriter → CapWriter
copy_stdout [] w = w
copy_stdout (p ∷ ps) w =
    let (r, w') = cap_write p w in let on = copy_stdout ps w' in if r.1 then w' else on

unfoldable pub copy_stderr : List Bytes → TruncWriter → TruncWriter
copy_stderr [] w = w
copy_stderr (p ∷ ps) w = copy_stderr ps (trunc_write p w).1

-- The error of `cmd.Run`: an `exec.ExitError` with its code, or another.
pub data RunError : Type 0 where
  exit_error : ℕ → RunError
  not_run : ℕ → RunError

-- A run of the process: what it writes in pieces, its error, and `ctx.Err()` and `cctx.Err()` behind it.
pub record Ran : Type 0 where
  pub stdout : List Bytes
  pub stderr : List Bytes
  pub run_error : Option RunError
  pub ctx_error : Option ContextError
  pub child_error : Option ContextError

-- `pages` of the blocks, from the number of the first.
unfoldable pub numbered : ℕ → List Bytes → List Page
numbered i [] = []
numbered i (blk ∷ blocks) = record { number = pos (i + 1); text = blk } ∷ numbered (i + 1) blocks

-- `blocks` without a last block that is empty.
unfoldable pub drop_last_empty : List Bytes → List Bytes
drop_last_empty [] = []
drop_last_empty (b ∷ []) = if bytes_eq b [] then [] else b ∷ []
drop_last_empty (b ∷ c ∷ blocks) = b ∷ drop_last_empty (c ∷ blocks)

-- `splitPages`
unfoldable pub split_pages : Bytes → List Page
split_pages out = if bytes_eq out [] then [] else numbered 0 (drop_last_empty (split_on 12 out))

-- What `Pages` returns for `runErr`.
unfoldable pub run_result : Bytes → Bytes → Option RunError → Result (List Page)
run_result out diagnostics none = ok (split_pages out)
run_result out diagnostics (some (exit_error code)) =
    err (malformed_source media_type (exited code (trim_space diagnostics)))
run_result out diagnostics (some (not_run code)) = err (exec_failed code)

-- `Pages`: `found` is whether `exec.LookPath` finds the binary, and `run` the process under the
-- timeout, with its input.
unfoldable pub pages :
    Config → (Bytes → Bool) → (Bytes → ℕ → Bytes → Ran) → Bytes → Result (List Page)
pages e found run input =
    let ran = run (bin e) (timeout_of e) input in
    let stdout =
      copy_stdout ran.stdout
        (record { buf = []; n = 0; limit = max_out e; exceeded = false; canceled = false }) in
    let stderr = copy_stderr ran.stderr (record { buf = []; limit = stderr_cap_bytes }) in
    let timely : Result (List Page) = elim ran.child_error [
      | some c ↦ err (malformed_source media_type timed_out)
      | none ↦ run_result stdout.buf stderr.buf ran.run_error
    ] in
    let undisturbed : Result (List Page) = elim ran.ctx_error [
      | some c ↦ err (context_done c)
      | none ↦ timely
    ] in
    let within : Result (List Page) =
      if stdout.exceeded then err (output_too_large (max_out e)) else undisturbed in
    if found (bin e) then within else err (engine_unavailable (bin e))
