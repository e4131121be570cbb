-- ===== src/Chunk/Hard/Lines.antt =====
-- Lines and fenced groups tile their span, and the scans for them end.
use mathlib.Core.List.{map-append}
use maestro_cms.Prelude.{
  ℕ, zero, suc, ◌+◌, ◌-◌, ◌≤◌, ◌<◌, ◌≡◌, refl, sym, ◌∙◌, inl, inr, Bool, true, false, some, List,
  [], ◌∷◌, ◌++◌, map, arith, leb, Bool-cases, Option-cases, lt-or-le, leb→le, leb→lt, length, slice,
  drop, get_or-drop, get_or-take, length-slice,
}
use maestro_cms.Text.{Bytes, byte_at, index_byte}
use maestro_cms.Text.Search.{index_byte-some}
use maestro_cms.Chunk.Lines.{line_at, fence_marker, is_fence_open, closes_fence}
use maestro_cms.Chunk.Cuts.Snap.{IsStop}
use maestro_cms.Chunk.Hard.Loop.{region_at, ◌>>=◌}
use maestro_cms.Chunk.Defs.{Region}
use maestro_cms.Chunk.Hard.Ordered.{IsSpan, IsOrdered}
use maestro_cms.Chunk.Hard.Fenced.{CodeSpan, fence_scan, fence_end, group_scan, line_scan}

-- A position where a line of the span `[.., end)` may start.
pub record IsLineStart (text : Bytes) (end i : ℕ) : Type 0 where
  pub within : i ≤ end
  pub stop : IsStop text i

slice-byte_at :
    (text : Bytes) (i end k : ℕ) → k < end - i → byte_at (slice text i end) k ≡ byte_at text (i + k)
slice-byte_at text i end k h = get_or-take (end - i) (drop i text) k 0 h ∙ get_or-drop i text k 0

module _ (text : Bytes) (end : ℕ) (end_le : end ≤ length text) (end_stop : IsStop text end) where
  -- The next line starts further on, at the end or behind a newline.
  pub line_at-next :
      (i : ℕ) → i < end → (i < (line_at text i end).1) × IsLineStart text end (line_at text i end).1
  unfolding line_at
  line_at-next i lt = elim (Option-cases (index_byte b'\n' (slice text i end))) [
    | inl last ↦ rw (last, line_at) (lt, record { within = omega arith; stop = end_stop })
    | inr (nl, found) ↦
        let (nl_lt, at) = index_byte-some b'\n' (slice text i end) found in
        let inside : nl < end - i = omega (arith, length-slice text i end (omega arith) end_le) in
        let back : i + nl + 1 - 1 ≡ i + nl = omega arith in
        rw (found, line_at)
          (
            omega arith,
            record {
              within = omega arith;
              stop = inr (omega arith, rw back (sym (slice-byte_at text i end nl inside) ∙ at));
            },
          )
  ]

  line_at-le : (i : ℕ) → i < end → (line_at text i end).1 ≤ end
  line_at-le i lt = (line_at-next i lt).1.within

  pub fence_scan_total :
      (f i : ℕ)
      → IsLineStart text end i
      → end - i < f
      → (b : Bool) × (fence_scan f text i end ≡ some b)
  unfolding fence_scan
  fence_scan_total zero i s h = absurd (omega arith)
  fence_scan_total (suc f) i s h = elim (Bool-cases (leb end i)) [
    | inl over ↦ (false, rw over)
    | inr on ↦
        let (more, s') = line_at-next i (leb→lt _ _ on) in
        let (b, rest) = fence_scan_total f (line_at text i end).1 s' (omega arith) in
        elim (Bool-cases (is_fence_open (line_at text i end).0)) [
          | inl open_line ↦ (true, rw (on, open_line))
          | inr other ↦ (b, rw (on, other) rest)
        ]
  ]

  fence_end_total :
      (f ch n i : ℕ)
      → IsLineStart text end i
      → end - i < f
      → (k : ℕ) × (fence_end f text ch n i end ≡ some k) × (i ≤ k) × IsLineStart text end k
  unfolding fence_end
  fence_end_total zero ch n i s h = absurd (omega arith)
  fence_end_total (suc f) ch n i s h = elim (Bool-cases (leb end i)) [
    | inl over ↦ (i, rw over, omega arith, s)
    | inr on ↦
        let (more, s') = line_at-next i (leb→lt _ _ on) in
        let (k, rest, le, s'') = fence_end_total f ch n (line_at text i end).1 s' (omega arith) in
        elim (Bool-cases (closes_fence ch n (line_at text i end).0)) [
          | inl close ↦ ((line_at text i end).1, rw (on, close), omega arith, s')
          | inr other ↦ (k, rw (on, other) rest, omega arith, s'')
        ]
  ]

-- The regions lie end to end from `a` to `b`.
abbrev pub IsTiling : Bytes → ℕ → ℕ → ℕ → List Region → Type 0
IsTiling text lim a b [] = a ≡ b
IsTiling text lim a b (r ∷ rs) = (r.start ≡ a) × IsSpan text lim r × IsTiling text lim r.end b rs

module _ (text : Bytes) (lim : ℕ) where
  pub IsTiling-IsOrdered :
      (a b prev : ℕ) (rs : List Region)
      → IsTiling text lim a b rs
      → prev ≤ a
      → IsOrdered text lim prev rs
  IsTiling-IsOrdered a b prev [] t h = tt
  IsTiling-IsOrdered a b prev (r ∷ rs) (e, s, t) h =
      (omega (arith, e), s, IsTiling-IsOrdered r.end b r.end rs t (omega arith))

  pub IsTiling-append :
      (a b c : ℕ) (rs : List Region)
      → IsTiling text lim a b rs
      → IsSpan text lim (record { start = b; end = c })
      → IsTiling text lim a c (rs ++ (record { start = b; end = c }) ∷ [])
  IsTiling-append a b c [] e s = (sym e, s, refl)
  IsTiling-append a b c (r ∷ rs) (e, q, t) s = (e, q, IsTiling-append r.end b c rs t s)

  -- Every position lies in one of the regions.
  pub IsTiling-covers :
      (a b : ℕ) (rs : List Region) (p : ℕ)
      → IsTiling text lim a b rs
      → a ≤ p
      → p < b
      → (k : ℕ) × (k < length rs) × ((region_at rs k).start ≤ p) × (p < (region_at rs k).end)
  IsTiling-covers a b [] p e l h = absurd (omega (arith, e))
  IsTiling-covers a b (r ∷ rs) p (e, s, t) l h = elim (lt-or-le p r.end) [
    | inl here ↦ (0, omega arith, omega (arith, e), here)
    | inr there ↦
        let (k, kl, low, high) = IsTiling-covers r.end b rs p t there h in
        (suc k, omega arith, low, high)
  ]

module _ (text : Bytes) (end : ℕ) (end_le : end ≤ length text) (end_stop : IsStop text end) where
  line-IsSpan :
      (i k : ℕ)
      → IsLineStart text end i
      → i < k
      → IsLineStart text end k
      → IsSpan text end (record { start = i; end = k })
  line-IsSpan i k s lt s' = record {
    not_empty = lt;
    in_range = s'.within;
    start_stop = s.stop;
    end_stop = s'.stop;
  }

  -- The lines of a span tile it.
  pub line_scan_total :
      (f a i : ℕ) (lines : List Region)
      → IsLineStart text end i
      → end - i < f
      → IsTiling text end a i lines
      → (rs : List Region) × (line_scan f text i end lines ≡ some rs) × IsTiling text end a end rs
  unfolding line_scan
  line_scan_total zero a i lines s h t = absurd (omega arith)
  line_scan_total (suc f) a i lines s h t = elim (Bool-cases (leb end i)) [
    | inl over ↦
        let same : i ≡ end = omega (arith, s.within, leb→le _ _ over) in
        (lines, rw over, rw same at t)
    | inr on ↦
        let next = (line_at text i end).1 in
        let (more, s') = line_at-next text end end_le end_stop i (leb→lt _ _ on) in
        let (rs, rest, tiled) =
          line_scan_total f a next (lines ++ (record { start = i; end = next }) ∷ []) s'
            (omega arith)
            (IsTiling-append text end a i next lines t (line-IsSpan i next s more s')) in
        (rs, rw on rest, tiled)
  ]

  abbrev regions_of : List CodeSpan → List Region
  regions_of groups = map (λ g. g.region) groups

  group-IsTiling :
      (a i k : ℕ) (fence : Bool) (groups : List CodeSpan)
      → IsTiling text end a i (regions_of groups)
      → IsLineStart text end i
      → i < k
      → IsLineStart text end k
      → (let g : CodeSpan = record { region = record { start = i; end = k }; fence = fence } in
          IsTiling text end a k (regions_of (groups ++ g ∷ [])))
  group-IsTiling a i k fence groups t s lt s' =
      rw map-append (IsTiling-append text end a i k (regions_of groups) t (line-IsSpan i k s lt s'))

  -- The lines and fenced blocks of a span tile it.
  pub group_scan_total :
      (f a i : ℕ) (groups : List CodeSpan)
      → IsLineStart text end i
      → end - i < f
      → IsTiling text end a i (regions_of groups)
      → (gs : List CodeSpan) × (group_scan f text i end groups ≡ some gs)
        × IsTiling text end a end (regions_of gs)
  unfolding group_scan
  group_scan_total zero a i groups s h t = absurd (omega arith)
  group_scan_total (suc f) a i groups s h t = elim (Bool-cases (leb end i)) [
    | inl over ↦
        let same : i ≡ end = omega (arith, s.within, leb→le _ _ over) in
        (groups, rw over, rw same at t)
    | inr on ↦
        let next = (line_at text i end).1 in
        let line = (line_at text i end).0 in
        let (more, s') = line_at-next text end end_le end_stop i (leb→lt _ _ on) in
        elim (Option-cases (fence_marker line)) [
          | inl plain ↦
              let g : CodeSpan = record {
                region = record { start = i; end = next };
                fence = false;
              } in
              let (gs, rest, tiled) =
                group_scan_total f a next (groups ++ g ∷ []) s' (omega arith)
                  (group-IsTiling a i next false groups t s more s') in
              (gs, rw (on, plain) rest, tiled)
          | inr (m, opens) ↦
              let (k, ends, le, s'') =
                fence_end_total text end end_le end_stop (end - next + 1) m.ch m.n next s'
                  (omega arith) in
              let g : CodeSpan = record { region = record { start = i; end = k }; fence = true } in
              let (gs, rest, tiled) =
                group_scan_total f a k (groups ++ g ∷ []) s'' (omega (arith, s''.within))
                  (group-IsTiling a i k true groups t s (omega arith) s'') in
              (gs, rw (on, opens, ends, ◌>>=◌) rest, tiled)
        ]
  ]
