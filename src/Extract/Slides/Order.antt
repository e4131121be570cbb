-- ===== src/Extract/Slides/Order.antt =====
-- The order of the slides: by number in the archive, and none lost or doubled in the deck.
use mathlib.Core.List.{Perm}
use mathlib.Core.List.Perm
use maestro_cms.Prelude.{
  ◌≡◌, refl, sym, ap, ◌∙◌, subst, inl, inr, true, false, ◌||◌, not, some, List, [], ◌∷◌, ◌++◌,
  arith, Bool-cases, Option-cases,
}
use maestro_cms.Prelude.Int.{ℤ, pos, negsuc}
use maestro_cms.Text.{Bytes, bytes_eq}
use maestro_cms.Text.Equal.{bytes_eq→eq, bytes_eq_refl}
use maestro_cms.Extract.Ooxml.{ZipFile}
use maestro_cms.Extract.Slides.{
  is_slide_part, int_lt, is_seen, Slide, slides_of, insert_slide, sort_slides, sorted_slides,
  file_at, ordered_files, other_files, resolve_order,
}

int_lt_asymm : (a b : ℤ) → int_lt a b ≡ true → int_lt b a ≡ false
int_lt_asymm (pos a) (pos b) h = ground arith
int_lt_asymm (pos a) (negsuc b) h = cc
int_lt_asymm (negsuc a) (pos b) h = refl
int_lt_asymm (negsuc a) (negsuc b) h = ground arith

is_seen-head : (name : Bytes) (seen : List Bytes) → is_seen name (name ∷ seen) ≡ true
unfolding is_seen
is_seen-head name seen = rw (bytes_eq_refl name) refl

module _ {P : Type 0} where
  -- No slide has a lower number than the one before it.
  abbrev pub IsAscending : List (Slide P) → Type 0
  IsAscending [] = Unit
  IsAscending (x ∷ []) = Unit
  IsAscending (x ∷ y ∷ l) = (int_lt y.num x.num ≡ false) × IsAscending (y ∷ l)

  insert_slide-IsAscending :
      (x : Slide P) (l : List (Slide P)) → IsAscending l → IsAscending (insert_slide x l)
  unfolding insert_slide
  insert_slide-IsAscending x [] h = tt
  insert_slide-IsAscending x (y ∷ l) h = elim (Bool-cases (int_lt y.num x.num)) [
    | inl behind_y ↦ rw behind_y (behind y l h (int_lt_asymm y.num x.num behind_y))
    | inr here ↦ rw here (here, h)
  ]
    where
      behind :
          (z : Slide P) (m : List (Slide P))
          → IsAscending (z ∷ m)
          → int_lt x.num z.num ≡ false
          → IsAscending (z ∷ insert_slide x m)
      behind z [] a o = (o, tt)
      behind z (u ∷ m) a o = elim (Bool-cases (int_lt u.num x.num)) [
        | inl later ↦ rw later (a.0, behind u m a.1 (int_lt_asymm u.num x.num later))
        | inr first ↦ rw first (o, (first, a.1))
      ]

  insert_slide-Perm : (x : Slide P) (l : List (Slide P)) → Perm (insert_slide x l) (x ∷ l)
  unfolding insert_slide
  insert_slide-Perm x [] = Perm.refl (x ∷ [])
  insert_slide-Perm x (y ∷ l) = elim (Bool-cases (int_lt y.num x.num)) [
    | inl later ↦ rw later (Perm.trans (Perm.cons y (insert_slide-Perm x l)) (Perm.swap x y l))
    | inr first ↦ rw first (Perm.refl (x ∷ y ∷ l))
  ]

  sort_slides_lem : (l : List (Slide P)) → IsAscending (sort_slides l) × Perm (sort_slides l) l
  unfolding sort_slides
  sort_slides_lem [] = (tt, Perm.refl [])
  sort_slides_lem (x ∷ l) =
      let (asc, perm) = sort_slides_lem l in
      (
        insert_slide-IsAscending x (sort_slides l) asc,
        Perm.trans (insert_slide-Perm x (sort_slides l)) (Perm.cons x perm),
      )

  -- The slides in filename order are the archive's slide parts with a number, ascending by it.
  pub sorted_slides_lem :
      (files : List (ZipFile P))
      → IsAscending (sorted_slides files) × Perm (sorted_slides files) (slides_of files)
  unfolding sorted_slides
  sorted_slides_lem files = sort_slides_lem (slides_of files)

  -- The names seen behind the files.
  abbrev pub seen_behind : List Bytes → List (ZipFile P) → List Bytes
  seen_behind seen [] = seen
  seen_behind seen (f ∷ fs) = seen_behind (f.name ∷ seen) fs

  -- No file has a name that was seen, or that an earlier one has.
  abbrev pub IsFresh : List Bytes → List (ZipFile P) → Type 0
  IsFresh seen [] = Unit
  IsFresh seen (f ∷ fs) = (is_seen f.name seen ≡ false) × IsFresh (f.name ∷ seen) fs

  -- Each slide's name was seen.
  abbrev pub AllSeen : List Bytes → List (Slide P) → Type 0
  AllSeen seen [] = Unit
  AllSeen seen (s ∷ slides) = (is_seen s.file.name seen ≡ true) × AllSeen seen slides

  is_seen-seen_behind :
      (name : Bytes) (seen : List Bytes) (fs : List (ZipFile P))
      → is_seen name seen ≡ true
      → is_seen name (seen_behind seen fs) ≡ true
  unfolding is_seen
  is_seen-seen_behind name seen [] h = h
  is_seen-seen_behind name seen (f ∷ fs) h =
      is_seen-seen_behind name (f.name ∷ seen) fs (ground (arith, h))

  IsFresh-append :
      (seen : List Bytes) (a b : List (ZipFile P))
      → IsFresh seen a
      → IsFresh (seen_behind seen a) b
      → IsFresh seen (a ++ b)
  IsFresh-append seen [] b ha hb = hb
  IsFresh-append seen (f ∷ a) b ha hb = (ha.0, IsFresh-append (f.name ∷ seen) a b ha.1 hb)

  seen_behind-append :
      (seen : List Bytes) (a b : List (ZipFile P))
      → seen_behind seen (a ++ b) ≡ seen_behind (seen_behind seen a) b
  seen_behind-append seen [] b = refl
  seen_behind-append seen (f ∷ a) b = seen_behind-append (f.name ∷ seen) a b

  file_at-name :
      (name : Bytes) (files : List (ZipFile P)) (f : ZipFile P)
      → file_at name files ≡ some f
      → f.name ≡ name
  unfolding file_at
  file_at-name name [] f h = cc
  file_at-name name (g ∷ files) f h = elim (Option-cases (file_at name files)) [
    | inr (later, found) ↦ file_at-name name files f (ground (arith, h, found))
    | inl missing ↦ elim (Bool-cases (bytes_eq g.name name)) [
      | inl same ↦
          let here : g ≡ f = ground (arith, h, missing, same) in
          ap (λ z. z.name) (sym here) ∙ bytes_eq→eq g.name name same
      | inr differ ↦ absurd (ground (arith, h, missing, differ))
    ]
  ]

  -- The first loop: no name twice, and `seen` is what its files make it.
  ordered_files_lem :
      (ordered seen : List Bytes) (files : List (ZipFile P))
      → let r = ordered_files ordered seen files in IsFresh seen r.0 × (r.1 ≡ seen_behind seen r.0)
  unfolding ordered_files
  ordered_files_lem [] seen files = (tt, refl)
  ordered_files_lem (name ∷ ordered) seen files =
      let passed = ordered_files_lem ordered seen files in
      let taken = ordered_files_lem ordered (name ∷ seen) files in
      elim (Bool-cases (not (is_slide_part name) || is_seen name seen)) [
        | inl skipped ↦ rw skipped passed
        | inr wanted ↦ elim (Option-cases (file_at name files)) [
          | inl missing ↦ rw (wanted, missing) passed
          | inr (f, found) ↦
              let same = file_at-name name files f found in
              let unseen : is_seen name seen ≡ false = ground (arith, wanted) in
              rw (wanted, found, same) ((unseen, taken.0), taken.1)
        ]
      ]

  other_files-known :
      (s : Slide P) (slides : List (Slide P)) (seen : List Bytes)
      → is_seen s.file.name seen ≡ true
      → other_files (s ∷ slides) seen ≡ other_files slides seen
  unfolding other_files
  other_files-known s slides seen h = ground (arith, h)

  other_files-unknown :
      (s : Slide P) (slides : List (Slide P)) (seen : List Bytes)
      → is_seen s.file.name seen ≡ false
      → other_files (s ∷ slides) seen ≡ s.file ∷ other_files slides (s.file.name ∷ seen)
  unfolding other_files
  other_files-unknown s slides seen h = ground (arith, h)

  -- The second loop: no name twice, and each slide's name is seen behind it.
  abbrev Completes : List (Slide P) → List Bytes → List (ZipFile P) → Type 0
  Completes slides seen l = IsFresh seen l × AllSeen (seen_behind seen l) slides

  other_files_lem :
      (slides : List (Slide P)) (seen : List Bytes)
      → Completes slides seen (other_files slides seen)
  other_files_lem [] seen = unfold other_files in (tt, tt)
  other_files_lem (s ∷ slides) seen =
      let name = s.file.name in
      elim (Bool-cases (is_seen name seen)) [
        | inl known ↦
            let (fresh, all) = other_files_lem slides seen in
            subst (Completes (s ∷ slides) seen) (sym (other_files-known s slides seen known))
              (fresh, (is_seen-seen_behind name seen (other_files slides seen) known, all))
        | inr unknown ↦
            let (fresh, all) = other_files_lem slides (name ∷ seen) in
            subst (Completes (s ∷ slides) seen) (sym (other_files-unknown s slides seen unknown)) (
              (unknown, fresh),
              (
                is_seen-seen_behind name (name ∷ seen) (other_files slides (name ∷ seen))
                    (is_seen-head name seen),
                all,
              ),
            )
      ]

  -- In the order of a deck no part stands twice, and each slide part in filename order stands there,
  -- whatever the presentation names.
  pub resolve_order_lem :
      (ordered : List Bytes) (slides : List (Slide P)) (files : List (ZipFile P))
      → IsFresh [] (resolve_order ordered slides files)
        × AllSeen (seen_behind [] (resolve_order ordered slides files)) slides
  unfolding resolve_order
  resolve_order_lem ordered slides files =
      let (fresh, seen_eq) = ordered_files_lem ordered [] files in
      let out = (ordered_files ordered [] files).0 in
      let (others, all) = other_files_lem slides (seen_behind [] out) in
      let total = out ++ other_files slides (seen_behind [] out) in
      let split = seen_behind-append [] out (other_files slides (seen_behind [] out)) in
      let full : Completes slides [] total = (
        IsFresh-append [] out (other_files slides (seen_behind [] out)) fresh others,
        subst (λ l. AllSeen l slides) (sym split) all,
      ) in
      subst (λ l. Completes slides [] (out ++ other_files slides l)) (sym seen_eq) full
