-- ===== src/Chunk/Cuts/Snap.antt =====
-- Where the two snapping functions land: on rune boundaries, behind the start and within the span.
use maestro_cms.Prelude.{
  ℕ, zero, suc, ◌+◌, ◌-◌, ◌≤◌, ◌<◌, ◌≡◌, ◌∙◌, ◌⊎◌, inl, inr, true, [], ◌∷◌, arith, ltb, Bool-cases,
  lt-or-le, ltb→lt, length, drop, length-drop, get_or, min,
}
use maestro_cms.Text.{Bytes, byte_at}
use maestro_cms.Text.Utf8.{rune_size, rune_size_bounds}
use maestro_cms.Text.Utf8.Runes.{rune_size_tail}
use maestro_cms.Chunk.Segment.{rune_aligned}
use maestro_cms.Chunk.Cuts.{snap_back, snap_end, snap_forward, snap_start}

snap_back_bounds :
    (text : Bytes) (start n : ℕ)
    → (start ≤ snap_back text start n) × (snap_back text start n ≤ start + n)
unfolding snap_back
snap_back_bounds text start zero = omega arith
snap_back_bounds text start (suc n) = ground (arith, snap_back_bounds text start n)

snap_back-rune_aligned :
    (text : Bytes) (start n : ℕ)
    → start < snap_back text start n
    → start + n ≤ length text
    → rune_aligned text (snap_back text start n) ≡ true
unfolding snap_back rune_aligned
snap_back-rune_aligned text start zero h k = absurd (omega arith)
snap_back-rune_aligned text start (suc n) h k = ground (arith, snap_back-rune_aligned text start n)

snap_forward_bounds :
    (text : Bytes) (n idx : ℕ)
    → (idx ≤ snap_forward text n idx) × (snap_forward text n idx ≤ idx + n)
unfolding snap_forward
snap_forward_bounds text zero idx = omega arith
snap_forward_bounds text (suc n) idx = ground (arith, snap_forward_bounds text n (idx + 1))

snap_forward_aligned :
    (text : Bytes) (n idx : ℕ)
    → idx + n ≡ length text
    → rune_aligned text (snap_forward text n idx) ≡ true
unfolding snap_forward rune_aligned
snap_forward_aligned text zero idx e = ground arith
snap_forward_aligned text (suc n) idx e = ground (arith, snap_forward_aligned text n (idx + 1))

snap_forward-le :
    (text : Bytes) (n idx e : ℕ)
    → 0 < idx
    → idx ≤ e
    → idx + n ≡ length text
    → rune_aligned text e ≡ true
    → snap_forward text n idx ≤ e
unfolding snap_forward rune_aligned
snap_forward-le text zero idx e p h k a = h
snap_forward-le text (suc n) idx e p h k a = elim (lt-or-le idx e) [
  | inl lt ↦ ground (arith, snap_forward-le text n (idx + 1) e)
  | inr le ↦ let same : e ≡ idx = omega arith in ground (arith, rw same at a)
]

rune_size-drop : (text : Bytes) (start : ℕ) → start < length text → 0 < rune_size (drop start text)
rune_size-drop text start h = go (drop start text) (length-drop start text)
  where
    go : (s : Bytes) → length s ≡ length text - start → 0 < rune_size s
    go [] e = absurd (omega arith)
    go (b ∷ s) e = (rune_size_bounds b s).0

-- The chunk ends behind its start and within the text.
pub snap_end_bounds :
    (text : Bytes) (start ideal_end : ℕ)
    → start < length text
    → (start < snap_end text start ideal_end) × (snap_end text start ideal_end ≤ length text)
unfolding snap_end
snap_end_bounds text start ideal_end h = ground (
  arith,
  snap_back_bounds text start (min ideal_end (length text) - start),
  rune_size-drop text start h,
)

-- Past the start no byte is skipped backwards, and a rune boundary behind it stays in reach.
pub snap_start_bounds :
    (text : Bytes) (idx : ℕ)
    → idx ≤ length text
    → (idx ≤ snap_start text idx) × (snap_start text idx ≤ length text)
unfolding snap_start
snap_start_bounds text idx h = ground (arith, snap_forward_bounds text (length text - idx) idx)

pub snap_start-le :
    (text : Bytes) (idx e : ℕ)
    → idx ≤ e
    → e ≤ length text
    → rune_aligned text e ≡ true
    → snap_start text idx ≤ e
unfolding snap_start
snap_start-le text idx e h k a = ground (arith, snap_forward-le text (length text - idx) idx e)

pub snap_start-rune_aligned :
    (text : Bytes) (idx : ℕ) → rune_aligned text (snap_start text idx) ≡ true
unfolding snap_start rune_aligned
snap_start-rune_aligned text idx = ground (arith, snap_forward_aligned text (length text - idx) idx)

byte_at-drop :
    (start : ℕ) (text : Bytes) (k : ℕ) → get_or (drop start text) k 0 ≡ byte_at text (start + k)
byte_at-drop zero text k = let e : 0 + k ≡ k = omega arith in rw e
byte_at-drop (suc start) [] zero = ground arith
byte_at-drop (suc start) [] (suc k) = ground arith
byte_at-drop (suc start) (b ∷ text) k =
    let e : suc start + k ≡ suc (start + k) = omega arith in rw e (byte_at-drop start text k)

-- The rune at `start` ends at a later rune boundary at the latest.
rune_size-le :
    (text : Bytes) (start end : ℕ)
    → start < end
    → end ≤ length text
    → rune_aligned text end ≡ true
    → min (start + rune_size (drop start text)) (length text) ≤ end
unfolding rune_aligned
rune_size-le text start end lt le a = elim (lt-or-le end (start + rune_size (drop start text))) [
  | inr within ↦ omega arith
  | inl beyond ↦
      let tail = rune_size_tail (drop start text) (end - start) (omega arith) (omega arith) in
      let at = byte_at-drop start text (end - start) in
      let e : start + (end - start) ≡ end = omega arith in ground (arith, rw (at, e) at tail)
]

-- A rune boundary, or the position behind a newline.
abbrev pub IsStop : Bytes → ℕ → Type 0
IsStop text e = (rune_aligned text e ≡ true) ⊎ ((0 < e) × (byte_at text (e - 1) ≡ b'\n'))

newline-rune_aligned : (text : Bytes) (e : ℕ) → byte_at text e ≡ b'\n' → rune_aligned text e ≡ true
unfolding rune_aligned
newline-rune_aligned text e h = ground (arith, h)

-- A newline is a rune of one byte.
rune_size-newline : (s : Bytes) → get_or s 0 0 ≡ b'\n' → rune_size s ≤ 1
unfolding rune_size
rune_size-newline [] h = omega arith
rune_size-newline (b ∷ s) h = rw h (omega arith)

rune_size-le-stop :
    (text : Bytes) (start end : ℕ)
    → start < end
    → end ≤ length text
    → IsStop text end
    → min (start + rune_size (drop start text)) (length text) ≤ end
rune_size-le-stop text start end lt le (inl a) = rune_size-le text start end lt le a
rune_size-le-stop text start end lt le (inr (p, nl)) = elim (lt-or-le start (end - 1)) [
  | inl before ↦ omega (
    arith,
    rune_size-le text start (end - 1) before (omega arith) (newline-rune_aligned text (end - 1) nl),
  )
  | inr at ↦
      let same : start ≡ end - 1 = omega arith in
      let here : start + 0 ≡ end - 1 = omega arith in
      let one = rune_size-newline (drop start text) (byte_at-drop start text 0 ∙ rw here nl) in
      omega (arith, one)
]

-- `snapEndToRuneBoundary` does not leave a span of the text that holds the ideal end, if the span
-- ends at a rune boundary or behind a newline.
pub snap_end-le :
    (text : Bytes) (start ideal_end end : ℕ)
    → start < end
    → end ≤ length text
    → IsStop text end
    → ideal_end ≤ end
    → snap_end text start ideal_end ≤ end
unfolding snap_end
snap_end-le text start ideal_end end lt le a h = ground (
  arith,
  snap_back_bounds text start (min ideal_end (length text) - start),
  rune_size-le-stop text start end lt le a,
)

-- Nor does the start of a chunk.
pub snap_start-le-stop :
    (text : Bytes) (idx e : ℕ) → idx < e → e ≤ length text → IsStop text e → snap_start text idx ≤ e
snap_start-le-stop text idx e lt le (inl a) = snap_start-le text idx e (omega arith) le a
snap_start-le-stop text idx e lt le (inr (p, nl)) = omega (
  arith,
  snap_start-le text idx (e - 1) (omega arith) (omega arith) (newline-rune_aligned text (e - 1) nl),
)

pub aligned_end : (text : Bytes) → rune_aligned text (length text) ≡ true
unfolding rune_aligned
aligned_end text = ground arith

-- Every rune that starts on a boundary ends on one, as in every valid UTF-8 text.
abbrev pub IsRuneText : Bytes → Type 0
IsRuneText text =
    (at : ℕ)
    → at < length text
    → rune_aligned text at ≡ true
    → rune_aligned text (at + rune_size (drop at text)) ≡ true

pub snap_end-rune_aligned :
    (text : Bytes) (start ideal_end : ℕ)
    → IsRuneText text
    → start < length text
    → rune_aligned text start ≡ true
    → rune_aligned text (snap_end text start ideal_end) ≡ true
unfolding snap_end
snap_end-rune_aligned text start ideal_end runes lt a =
    let n = min ideal_end (length text) - start in
    elim (Bool-cases (ltb start (snap_back text start n))) [
      | inl back ↦ rw back (
          snap_back-rune_aligned text start n (ltb→lt _ _ back)
            (omega (arith, ltb→lt _ _ back, snap_back_bounds text start n)))
      | inr rune ↦ rw rune (elim (lt-or-le (length text) (start + rune_size (drop start text))) [
        | inl beyond ↦
            let e : min (start + rune_size (drop start text)) (length text) ≡ length text =
              omega arith in
            rw e (aligned_end text)
        | inr within ↦
            let e : min (start + rune_size (drop start text)) (length text)
                ≡ start + rune_size (drop start text) =
              omega arith in
            rw e (runes start lt a)
      ])
    ]

-- So the position behind a newline is a rune boundary.
pub stop-rune_aligned :
    (text : Bytes) (e : ℕ)
    → IsRuneText text
    → e ≤ length text
    → IsStop text e
    → rune_aligned text e ≡ true
stop-rune_aligned text e runes le (inl a) = a
stop-rune_aligned text e runes le (inr (p, nl)) =
    let here : e - 1 + 0 ≡ e - 1 = omega arith in
    let one = rune_size-newline (drop (e - 1) text) (byte_at-drop (e - 1) text 0 ∙ rw here nl) in
    let some_byte = rune_size-drop text (e - 1) (omega arith) in
    let next : e - 1 + rune_size (drop (e - 1) text) ≡ e = omega (arith, one, some_byte) in
    rw next at (runes (e - 1) (omega arith) (newline-rune_aligned text (e - 1) nl))
