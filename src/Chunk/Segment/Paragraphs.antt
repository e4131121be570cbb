-- ===== src/Chunk/Segment/Paragraphs.antt =====
-- `Paragraphs` ends, and its units lie end to end and cover the text.
use maestro_cms.Prelude.{
  ℕ, zero, suc, ◌+◌, ◌-◌, ◌≤◌, ◌<◌, ◌≡◌, refl, sym, ap, ◌∙◌, ◌⊎◌, inl, inr, Bool, false, ◌&&◌, some,
  List, [], ◌∷◌, ◌++◌, map, arith, leb, ◌==◌, ==_iff, Bool-cases, Option-cases, leb→le, leb→lt,
  length, drop, get_or, get_or-drop, length-drop, drop-drop,
}
use mathlib.Core.List.{map-append}
use maestro_cms.Text.{Bytes}
use maestro_cms.Chunk.Defs.{Region, TextUnit, unit}
use maestro_cms.Chunk.Cuts.Snap.{IsStop, aligned_end}
use maestro_cms.Chunk.Hard.Lines.{IsTiling, IsTiling-append}
use maestro_cms.Chunk.Hard.Ordered.{IsSpan}
use maestro_cms.Chunk.Segment.{
  rune_aligned, newline_run, blank_scan, next_blank_line, paragraphs_from, or_empty, paragraphs,
  to_region,
}

-- A run of newlines takes bytes of the text, the last of which is a newline.
record IsNewlineRun (s : Bytes) (count bytes : ℕ) : Type 0 where
  in_range : bytes ≤ length s
  last : ((count ≡ 0) × (bytes ≡ 0)) ⊎ ((0 < bytes) × (get_or s (bytes - 1) 0 ≡ b'\n'))

abbrev Run : Bytes → ℕ × ℕ → Type 0
Run s r = IsNewlineRun s r.0 r.1

Run-newline : (c : ℕ) (s : Bytes) (r : ℕ × ℕ) → c ≡ b'\n' → Run s r → Run (c ∷ s) (r.0 + 1, r.1 + 1)
Run-newline c s r e h = record {
  in_range = omega (arith, h.in_range);
  last = inr (
    omega arith,
    elim h.last [
      | inl none_left ↦ let at : r.1 + 1 - 1 ≡ 0 = omega (arith, none_left.1) in rw at e
      | inr some_left ↦
          let at : r.1 + 1 - 1 ≡ suc (r.1 - 1) = omega (arith, some_left.0) in rw at some_left.1
    ],
  );
}

Run-return : (c : ℕ) (s : Bytes) (r : ℕ × ℕ) → 0 < r.0 → Run s r → Run (c ∷ s) (r.0, r.1 + 1)
Run-return c s r p h = record {
  in_range = omega (arith, h.in_range);
  last = elim h.last [
    | inl none_left ↦ absurd (omega (arith, none_left.0))
    | inr some_left ↦
        let at : r.1 + 1 - 1 ≡ suc (r.1 - 1) = omega (arith, some_left.0) in
        inr (omega arith, rw at some_left.1)
  ];
}

Run-none : (s : Bytes) → Run s (0, 0)
Run-none s = record { in_range = omega arith; last = inl (refl, refl) }

newline_run-Run : (s : Bytes) → Run s (newline_run s)
unfolding newline_run
newline_run-Run [] = Run-none []
newline_run-Run (c ∷ []) = elim (Bool-cases (c == b'\n')) [
  | inl nl ↦ rw nl (Run-newline c [] (0, 0) ((==_iff _ _).0 nl) (Run-none []))
  | inr other ↦ rw other (Run-none (c ∷ []))
]
newline_run-Run (c ∷ d ∷ s) = elim (Bool-cases (c == b'\n')) [
  | inl nl ↦
      rw (nl, newline_run)
        (Run-newline c (d ∷ s) (newline_run (d ∷ s)) ((==_iff _ _).0 nl) (newline_run-Run (d ∷ s)))
  | inr other ↦ elim (Bool-cases (c == b'\r' && d == b'\n')) [
    | inl crlf ↦
        let nl : d ≡ b'\n' = ground arith in
        let two : (newline_run s).1 + 1 + 1 ≡ (newline_run s).1 + 2 = omega arith in
        rw (other, crlf, newline_run)
          (rw two at (
            Run-return c (d ∷ s) ((newline_run s).0 + 1, (newline_run s).1 + 1) (omega arith)
              (Run-newline d s (newline_run s) nl (newline_run-Run s))))
    | inr stop ↦ rw (other, stop, newline_run) (Run-none (c ∷ d ∷ s))
  ]
]

drop-cons :
    (text : Bytes) (i : ℕ) {c : ℕ} {s : Bytes}
    → drop i text ≡ c ∷ s
    → (i < length text) × (drop (i + 1) text ≡ s)
drop-cons text i e =
    (omega (arith, length-drop i text, ap length e), sym (drop-drop 1 i text) ∙ ap (drop 1) e)

-- A separator ends behind a newline, further on in the text.
blank_scan-some :
    (text : Bytes) (i : ℕ) (cr : Bool) (s : Bytes) {sep e : ℕ}
    → drop i text ≡ s
    → blank_scan i cr s ≡ some (sep, e)
    → (i < e) × (e ≤ length text) × IsStop text e
unfolding blank_scan
blank_scan-some text i cr [] at h = cc
blank_scan-some text i cr (c ∷ s) {sep} {e} at h =
    let r = newline_run (c ∷ s) in
    let (lt, next) = drop-cons text i at in
    elim (Bool-cases (c == b'\n' && leb 2 r.0)) [
      | inr on ↦
          let (l, u, stop) =
            blank_scan-some text (i + 1) (c == b'\r') s next (rw (on, blank_scan) at h) in
          (omega arith, u, stop)
      | inl found ↦
          let run = newline_run-Run (c ∷ s) in
          let many : 2 ≤ r.0 = ground arith in
          let here : e ≡ i + r.1 = ground (arith, rw (found, blank_scan) at h) in
          let len = ap length at in
          let inside = run.in_range in
          let newline : (0 < r.1) × (get_or (c ∷ s) (r.1 - 1) 0 ≡ b'\n') = elim run.last [
            | inl none_left ↦ absurd (omega (arith, none_left.0))
            | inr some_left ↦ some_left
          ] in
          let back : i + r.1 - 1 ≡ i + (r.1 - 1) = omega (arith, newline.0) in
          let byte =
            sym (get_or-drop i text (r.1 - 1) 0) ∙ ap (λ t. get_or t (r.1 - 1) 0) at ∙ newline.1 in
          rw here (
            omega (arith, newline.0),
            omega (arith, len, inside, length-drop i text),
            inr (omega (arith, newline.0), rw back byte),
          )
    ]

pub start-IsStop : (text : Bytes) → IsStop text 0
unfolding rune_aligned
start-IsStop text = inl refl

abbrev regions_of : List TextUnit → List Region
regions_of units = map to_region units

unit-IsTiling :
    (text : Bytes) (lim a b c : ℕ) (units : List TextUnit)
    → IsTiling text lim a b (regions_of units)
    → IsSpan text lim (record { start = b; end = c })
    → IsTiling text lim a c (regions_of (units ++ unit b c ∷ []))
unit-IsTiling text lim a b c units t s =
    rw map-append (IsTiling-append text lim a b c (regions_of units) t s)

paragraphs_from_total :
    (text : Bytes) (f start : ℕ) (units : List TextUnit)
    → start ≤ length text
    → IsStop text start
    → length text - start < f
    → IsTiling text (length text) 0 start (regions_of units)
    → (us : List TextUnit) × (paragraphs_from f text start units ≡ some us)
      × IsTiling text (length text) 0 (length text) (regions_of us)
unfolding paragraphs_from next_blank_line
paragraphs_from_total text zero start units le stop h t = absurd (omega arith)
paragraphs_from_total text (suc f) start units le stop h t =
    elim (Bool-cases (leb (length text) start)) [
      | inl over ↦
          let same : start ≡ length text = omega (arith, leb→le _ _ over) in
          (units, rw over, rw same at t)
      | inr on ↦
          let more = leb→lt _ _ on in
          elim (Option-cases (next_blank_line text start)) [
            | inl last ↦ (
              units ++ unit start (length text) ∷ [],
              rw (on, last, paragraphs_from),
              unit-IsTiling text (length text) 0 start (length text) units t (record {
                not_empty = more;
                in_range = omega arith;
                start_stop = stop;
                end_stop = inl (aligned_end text);
              }),
            )
            | inr ((sep, run_end), found) ↦
                let (lt, inside, stop') =
                  blank_scan-some text start false (drop start text) refl found in
                let (us, rest, tiled) =
                  paragraphs_from_total text f run_end (units ++ unit start run_end ∷ []) inside
                    stop' (omega arith)
                    (unit-IsTiling text (length text) 0 start run_end units t (record {
                      not_empty = lt;
                      in_range = inside;
                      start_stop = stop;
                      end_stop = stop';
                    })) in
                (us, rw (on, found, paragraphs_from) rest, tiled)
          ]
    ]

-- The units of `Paragraphs` are nonempty spans that lie end to end from the start of the text to its
-- end: no byte is left out, and none belongs to two units.
pub paragraphs-IsTiling :
    (text : Bytes) → IsTiling text (length text) 0 (length text) (map to_region (paragraphs text))
unfolding paragraphs or_empty
paragraphs-IsTiling text =
    let (us, returns, tiled) =
      paragraphs_from_total text (length text + 1) 0 [] (omega arith) (start-IsStop text)
        (omega arith) refl in
    rw returns tiled
