-- ===== src/Extract/Pdf/Purego/Race.antt =====
-- What the race of the parser with the context and the timer can return, and that it returns.
use maestro_cms.Prelude.{
  ◌≡◌, refl, ◌⊎◌, inl, inr, true, false, Option, none, some, List, arith, Option-cases, Bool-cases,
}
use maestro_cms.Extract.Io.{ContextError}
use maestro_cms.Extract.Defs.{Result, ok, err}
use maestro_cms.Extract.Pdf.{Page}
use maestro_cms.Extract.Pdf.Purego.{
  Moment, recheck, Selects, takes_result, takes_done, takes_timer, Returns, done_before, raced,
}

Selects-in_time :
    (now later : Moment) (r : Result (List Page)) (ps : List Page)
    → Selects now later r
    → r ≡ ok ps
    → (now.result ≡ some (ok ps)) × (later.ctx_error ≡ none) × (later.timer_fired ≡ false)
unfolding recheck
Selects-in_time now later r ps (takes_result res ready) h = elim (Option-cases later.ctx_error) [
  | inr (c, done) ↦ absurd (ground (arith, h, done))
  | inl going ↦ elim (Bool-cases later.timer_fired) [
    | inl fired ↦ absurd (ground (arith, h, going, fired))
    | inr timely ↦ (ground (arith, h, going, timely, ready), going, timely)
  ]
]
Selects-in_time now later r ps (takes_done c done) h = absurd (ground (arith, h))
Selects-in_time now later r ps (takes_timer fired) h = absurd (ground (arith, h))

-- Pages are returned only if they are the worker's, and neither the context was done nor the timer had
-- fired at the checks behind it; a call that finds the context done at the start returns none.
pub Returns-in_time :
    (start : Option ContextError) (now later : Moment) (ps : List Page)
    → Returns start now later (ok ps)
    → (start ≡ none)
      × (now.result ≡ some (ok ps))
      × (later.ctx_error ≡ none)
      × (later.timer_fired ≡ false)
Returns-in_time start now later ps ret = go (ok ps) ret refl
  where
    go :
        (r : Result (List Page))
        → Returns start now later r
        → r ≡ ok ps
        → (start ≡ none)
          × (now.result ≡ some (ok ps))
          × (later.ctx_error ≡ none)
          × (later.timer_fired ≡ false)
    go r (done_before c h) e = absurd (ground (arith, e))
    go r (raced h s) e = let (a, b, c) = Selects-in_time now later r ps s e in (h, a, b, c)

-- `Pages` returns as soon as the worker has a result, the context is done or the timer has fired: a
-- parser that hangs does not keep it. With the worker's result, and nothing else ready up to the checks,
-- it returns that result.
pub Returns-at_all :
    (start : Option ContextError) (now later : Moment)
    → ((res : Result (List Page)) × (now.result ≡ some res))
      ⊎ (((c : ContextError) × (now.ctx_error ≡ some c)) ⊎ (now.timer_fired ≡ true))
    → (r : Result (List Page)) × Returns start now later r
Returns-at_all start now later ready = elim (Option-cases start) [
  | inr (c, done) ↦ (err _, done_before c done)
  | inl going ↦ elim ready [
    | inl (res, h) ↦ (recheck later res, raced going (takes_result res h))
    | inr (inl (c, h)) ↦ (err _, raced going (takes_done c h))
    | inr (inr h) ↦ (err _, raced going (takes_timer h))
  ]
]
