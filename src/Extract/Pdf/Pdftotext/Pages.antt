-- ===== src/Extract/Pdf/Pdftotext/Pages.antt =====
-- `Pages` by what the process writes, and its output of pages that end with a form feed.
use maestro_cms.Prelude.{
  ℕ, ◌≤◌, ◌≡◌, ◌≢◌, refl, ap, inl, inr, Bool, true, false, none, some, List, [], ◌∷◌, ◌++◌, arith,
  ltb, if◌then◌else◌, length, take,
}
use maestro_cms.Text.{Bytes, bytes_eq}
use maestro_cms.Extract.Io.Source.{joined}
use maestro_cms.Extract.Defs.{
  output_too_large, context_done, malformed_source, timed_out, Result, ok, err,
}
use maestro_cms.Extract.Normalize.{split_on}
use maestro_cms.Extract.Pdf.{media_type, Page}
use maestro_cms.Extract.Pdf.Pdftotext.{
  Config, bin, timeout_of, max_out, stderr_cap_bytes, Ran, numbered, drop_last_empty, split_pages,
  run_result, pages,
}
use maestro_cms.Extract.Pdf.Pdftotext.Writers.{copy_stdout-Copied, copy_stderr_lem}

-- What a run within the output cap comes to.
abbrev pub ended : Ran → Result (List Page)
ended ran = elim ran.ctx_error [
  | some c ↦ err (context_done c)
  | none ↦ elim ran.child_error [
    | some c ↦ err (malformed_source media_type timed_out)
    | none ↦
        run_result (joined ran.stdout) (take stderr_cap_bytes (joined ran.stderr)) ran.run_error
  ]
]

-- `Pages` where the binary is found: output past the cap is `ErrOutputTooLarge` whatever else the run
-- came to; else a canceled context goes before the engine's timeout, that before the error of the run,
-- and a run without error is the pages of all its output. The diagnostics are the first 64 KiB.
pub pages_lem :
    (e : Config) (found : Bytes → Bool) (run : Bytes → ℕ → Bytes → Ran) (input : Bytes)
    → found (bin e) ≡ true
    → let ran = run (bin e) (timeout_of e) input in
      pages e found run input ≡ (
        if ltb (max_out e) (length (joined ran.stdout))
        then err (output_too_large (max_out e))
        else ended ran)
unfolding pages
pages_lem e found run input h =
    let ran = run (bin e) (timeout_of e) input in
    let copied =
      copy_stdout-Copied ran.stdout
        (record { buf = []; n = 0; limit = max_out e; exceeded = false; canceled = false })
        (record { count = refl; within = omega arith; open_still = refl }) in
    let diagnostics =
      copy_stderr_lem ran.stderr (record { buf = []; limit = stderr_cap_bytes }) (omega arith) in
    elim copied [
      | inl (fits, open_still, holds) ↦ ground (arith, h, fits, open_still, holds, diagnostics)
      | inr (over, failed, within) ↦ ground (arith, h, over, failed)
    ]

-- No byte of the text is `b`.
abbrev pub IsWithout : ℕ → Bytes → Type 0
IsWithout b [] = Unit
IsWithout b (c ∷ s) = (c ≢ b) × IsWithout b s

abbrev pub AllWithout : ℕ → List Bytes → Type 0
AllWithout b [] = Unit
AllWithout b (t ∷ texts) = IsWithout b t × AllWithout b texts

-- Each text with a form feed behind it.
abbrev pub printed : List Bytes → Bytes
printed [] = []
printed (t ∷ texts) = t ++ 12 ∷ printed texts

split_on-printed :
    (texts : List Bytes) → AllWithout 12 texts → split_on 12 (printed texts) ≡ texts ++ [] ∷ []
unfolding split_on
split_on-printed [] h = refl
split_on-printed ([] ∷ texts) h = let ih = split_on-printed texts h.1 in ground (arith, ih)
split_on-printed ((c ∷ t) ∷ texts) h =
    let ih = split_on-printed (t ∷ texts) (h.0.1, h.1) in ground (arith, ih, h.0.0)

drop_last_empty-snoc : (texts : List Bytes) → drop_last_empty (texts ++ [] ∷ []) ≡ texts
unfolding drop_last_empty bytes_eq
drop_last_empty-snoc [] = refl
drop_last_empty-snoc (t ∷ []) = refl
drop_last_empty-snoc (t ∷ u ∷ texts) = ap (λ l. t ∷ l) (drop_last_empty-snoc (u ∷ texts))

split_pages-printed :
    (texts : List Bytes) → AllWithout 12 texts → split_pages (printed texts) ≡ numbered 0 texts
unfolding split_pages numbered bytes_eq
split_pages-printed [] h = refl
split_pages-printed (t ∷ texts) h = ground (
  arith,
  split_on-printed (t ∷ texts) h,
  drop_last_empty-snoc (t ∷ texts),
  printed_something t (printed texts),
)
  where
    printed_something : (t rest : Bytes) → bytes_eq (t ++ 12 ∷ rest) [] ≡ false
    printed_something [] rest = refl
    printed_something (c ∷ t) rest = refl

-- A run that exits well in time and writes texts without a form feed, each with a form feed behind
-- it, in any pieces and within the cap: `Pages` yields the texts, numbered from 1, blank ones included.
pub pages-printed :
    (e : Config) (found : Bytes → Bool) (run : Bytes → ℕ → Bytes → Ran) (input : Bytes)
    (texts : List Bytes)
    → found (bin e) ≡ true
    → AllWithout 12 texts
    → joined (run (bin e) (timeout_of e) input).stdout ≡ printed texts
    → length (printed texts) ≤ max_out e
    → (run (bin e) (timeout_of e) input).run_error ≡ none
    → (run (bin e) (timeout_of e) input).ctx_error ≡ none
    → (run (bin e) (timeout_of e) input).child_error ≡ none
    → pages e found run input ≡ ok (numbered 0 texts)
unfolding run_result
pages-printed e found run input texts h plain out short well going timely =
    let split = split_pages-printed texts plain in
    let r = pages_lem e found run input h in
    ground (arith, r, out, short, well, going, timely, split)
