-- ===== src/Extract/Pdf/Purego.antt =====
-- extract/pdf/purego/purego.go: the engine on a parser in this process. The parser is the parameter
-- `Parsed`; the race of its goroutine with the context and the timer is a relation.
pub mod Race
use maestro_cms.Prelude.{
  ℕ, zero, suc, ◌+◌, ◌≡◌, Bool, true, false, Option, none, some, List, [], ◌∷◌, if◌then◌else◌,
}
use maestro_cms.Prelude.Int.{ℤ, pos, negsuc}
use maestro_cms.Text.{Bytes, bytes_eq}
use maestro_cms.Extract.Io.{ContextError, Context}
use maestro_cms.Extract.Defs.{
  ExtractError, context_done, malformed_source, parser_failed, parser_panic, timed_out, Result, ok,
  err,
}
use maestro_cms.Extract.Pdf.{media_type, Page}

-- `DefaultTimeout` in nanoseconds, and `timeout`.
unfoldable pub timeout_of : ℤ → ℕ
timeout_of (negsuc n) = 30000000000
timeout_of (pos zero) = 30000000000
timeout_of (pos (suc n)) = suc n

-- What the parser does on a page: `page.V.IsNull()`, an error of `GetPlainText`, its text, a panic.
pub data PageView : Type 0 where
  null_page unreadable panics : PageView
  plain : Bytes → PageView

-- What `dslipak.NewReader` does on the input; a reader is its pages.
pub data Parsed : Type 0 where
  refused : ℕ → Parsed
  panics_at_once : Parsed
  readable : List PageView → Parsed

abbrev pub panic_error : ExtractError
panic_error = malformed_source media_type parser_panic

-- `timeoutErr`
abbrev pub timeout_error : ExtractError
timeout_error = malformed_source media_type timed_out

module _ {W : Type 0} where
  -- The loop of `extractPages` from page `i`, with `pages`.
  unfoldable pub page_loop : Context W → ℕ → List PageView → W → Result (List Page) × W
  page_loop ctx i [] w = (ok [], w)
  page_loop ctx i (view ∷ views) w =
      let (c, w') = ctx w in
      let rest = page_loop ctx (i + 1) views w' in
      elim c [
        | some e ↦ (err (context_done e), w')
        | none ↦ elim view [
          | null_page ↦ rest
          | unreadable ↦ rest
          | panics ↦ (err panic_error, w')
          | plain text ↦ if bytes_eq text [] then rest else elim rest.0 [
            | err e ↦ rest
            | ok pages ↦ (ok (record { number = pos i; text = text } ∷ pages), rest.1)
          ]
        ]
      ]

  -- `extractPages`
  unfoldable pub extract_pages : Context W → Parsed → W → Result (List Page) × W
  extract_pages ctx (refused code) w = (err (malformed_source media_type (parser_failed code)), w)
  extract_pages ctx panics_at_once w = (err panic_error, w)
  extract_pages ctx (readable views) w = page_loop ctx 1 views w

-- What is ready at a moment: the worker's result, `ctx.Err()`, and whether the timer fired.
pub record Moment : Type 0 where
  pub result : Option (Result (List Page))
  pub ctx_error : Option ContextError
  pub timer_fired : Bool

-- The checks behind the first case of the `select`.
unfoldable pub recheck : Moment → Result (List Page) → Result (List Page)
recheck later res = elim later.ctx_error [
  | some c ↦ err (context_done c)
  | none ↦ if later.timer_fired then err timeout_error else res
]

-- The `select` of `Pages` at a moment, with a later one for the checks: each case that is ready may be
-- taken.
pub data Selects (now later : Moment) : Result (List Page) → Type 0 where
  takes_result :
      (res : Result (List Page)) → now.result ≡ some res → Selects now later (recheck later res)
  takes_done :
      (c : ContextError) → now.ctx_error ≡ some c → Selects now later (err (context_done c))
  takes_timer : now.timer_fired ≡ true → Selects now later (err timeout_error)

-- `Pages`: the context at the start, and the `select`.
pub data Returns (start : Option ContextError) (now later : Moment)
    : Result (List Page) → Type 0 where
  done_before : (c : ContextError) → start ≡ some c → Returns start now later (err (context_done c))
  raced : {r : Result (List Page)} → start ≡ none → Selects now later r → Returns start now later r
