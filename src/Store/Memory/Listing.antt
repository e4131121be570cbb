-- ===== src/Store/Memory/Listing.antt =====
-- `List` of the in-memory store: which objects, and in which order.
use mathlib.Core.List.{Perm, append-nil, append_assoc}
use mathlib.Core.List.Perm
use maestro_cms.Prelude.{
  ◌≡◌, refl, ap, sym, ◌∙◌, ◌⊎◌, inl, inr, true, false, Option, none, List, [], ◌∷◌, ◌++◌, arith,
  Bool-cases, lt-or-le, subst, take, length, if◌then◌else◌,
}
use maestro_cms.Text.{Bytes, bytes_eq}
use maestro_cms.Store.Defs.{ObjectInfo}
use maestro_cms.Store.Memory.{
  MemObject, Objects, has_prefix, bytes_lt, infos_with, insert_info, sort_infos, call_each, list,
}

-- The order of strings is total: the inverse of `b < a` is that `a` is `b` or before it.
pub bytes_lt_connected : (a b : Bytes) → bytes_lt a b ≡ false → (bytes_lt b a ≡ true) ⊎ (a ≡ b)
unfolding bytes_lt
bytes_lt_connected [] [] h = inr refl
bytes_lt_connected [] (y ∷ b) h = cc
bytes_lt_connected (x ∷ a) [] h = inl refl
bytes_lt_connected (x ∷ a) (y ∷ b) h = elim (lt-or-le x y) [
  | inl less ↦ absurd (ground arith)
  | inr le ↦ elim (lt-or-le y x) [
    | inl more ↦ inl (ground arith)
    | inr ge ↦
        let same : x ≡ y = omega arith in
        let rest : bytes_lt a b ≡ false = ground arith in
        elim (bytes_lt_connected a b rest) [ inl later ↦ inl (ground arith) | inr equal ↦ inr (cc) ]
  ]
]

-- The keys do not descend: no later neighbour is before an earlier one.
abbrev pub IsAscending : (Time : Type 0) → List (ObjectInfo Time) → Type 0
IsAscending Time [] = Unit
IsAscending Time (x ∷ []) = Unit
IsAscending Time (x ∷ y ∷ infos) =
    ((bytes_lt x.key y.key ≡ true) ⊎ (x.key ≡ y.key)) × IsAscending Time (y ∷ infos)

module _ (Time : Type 0) where
  -- `x` may stand before the list.
  abbrev pub Before : ObjectInfo Time → List (ObjectInfo Time) → Type 0
  Before x [] = Unit
  Before x (y ∷ infos) = (bytes_lt x.key y.key ≡ true) ⊎ (x.key ≡ y.key)

  IsAscending-cons :
      (x : ObjectInfo Time) (l : List (ObjectInfo Time))
      → Before x l
      → IsAscending Time l
      → IsAscending Time (x ∷ l)
  IsAscending-cons x [] b h = tt
  IsAscending-cons x (y ∷ l) b h = (b, h)

  IsAscending-tail :
      (x : ObjectInfo Time) (l : List (ObjectInfo Time))
      → IsAscending Time (x ∷ l)
      → Before x l × IsAscending Time l
  IsAscending-tail x [] h = (tt, tt)
  IsAscending-tail x (y ∷ l) h = h

  Before-insert_info :
      (y x : ObjectInfo Time) (l : List (ObjectInfo Time))
      → (bytes_lt y.key x.key ≡ true) ⊎ (y.key ≡ x.key)
      → Before y l
      → Before y (insert_info Time x l)
  unfolding insert_info
  Before-insert_info y x [] h b = h
  Before-insert_info y x (z ∷ l) h b = elim (Bool-cases (bytes_lt x.key z.key)) [
    | inl first ↦ rw first h
    | inr later ↦ rw later b
  ]

  insert_info-IsAscending :
      (x : ObjectInfo Time) (l : List (ObjectInfo Time))
      → IsAscending Time l
      → IsAscending Time (insert_info Time x l)
  unfolding insert_info
  insert_info-IsAscending x [] h = tt
  insert_info-IsAscending x (y ∷ l) h = elim (Bool-cases (bytes_lt x.key y.key)) [
    | inl first ↦ rw first (inl first, h)
    | inr later ↦
        let (b, t) = IsAscending-tail y l h in
        let order : (bytes_lt y.key x.key ≡ true) ⊎ (y.key ≡ x.key) =
          elim (bytes_lt_connected x.key y.key later) [ inl lt ↦ inl lt | inr e ↦ inr (sym e) ] in
        rw later (
          IsAscending-cons y (insert_info Time x l) (Before-insert_info y x l order b)
            (insert_info-IsAscending x l t))
  ]

  insert_info-Perm :
      (x : ObjectInfo Time) (l : List (ObjectInfo Time)) → Perm (insert_info Time x l) (x ∷ l)
  unfolding insert_info
  insert_info-Perm x [] = Perm.refl (x ∷ [])
  insert_info-Perm x (y ∷ l) = elim (Bool-cases (bytes_lt x.key y.key)) [
    | inl first ↦ rw first (Perm.refl (x ∷ y ∷ l))
    | inr later ↦ rw later (Perm.trans (Perm.cons y (insert_info-Perm x l)) (Perm.swap x y l))
  ]

  pub sort_infos_lem :
      (l : List (ObjectInfo Time))
      → IsAscending Time (sort_infos Time l) × Perm (sort_infos Time l) l
  unfolding sort_infos
  sort_infos_lem [] = (tt, Perm.refl [])
  sort_infos_lem (x ∷ l) =
      let (asc, perm) = sort_infos_lem l in
      (
        insert_info-IsAscending x (sort_infos Time l) asc,
        Perm.trans (insert_info-Perm x (sort_infos Time l)) (Perm.cons x perm),
      )

  -- A callback that notes what it is called with.
  abbrev pub note :
      {E : Type 0} → ObjectInfo Time → List (ObjectInfo Time) → Option E × List (ObjectInfo Time)
  note info seen = (none, seen ++ info ∷ [])

  call_each-note :
      {E : Type 0} (infos seen : List (ObjectInfo Time))
      → call_each Time (note {E = E}) infos seen ≡ (none, seen ++ infos)
  unfolding call_each
  call_each-note [] seen = ap (λ l. (none, l)) (sym (append-nil seen))
  call_each-note (info ∷ infos) seen =
      call_each-note infos (seen ++ info ∷ [])
      ∙ ap (λ l. (none, l)) (append_assoc seen (info ∷ []) infos)

  abbrev pub info_of : Bytes × MemObject Time → ObjectInfo Time
  info_of (k, o) = record { key = k; size = length o.data_bytes; created = o.created }

  -- The objects whose key begins with the bytes of the prefix, described without the code's loop.
  abbrev pub under : Bytes → Objects Time → List (ObjectInfo Time)
  under prefix [] = []
  under prefix (entry ∷ objects) =
      let rest = under prefix objects in
      if bytes_eq (take (length prefix) entry.0) prefix then info_of entry ∷ rest else rest

  has_prefix_lem :
      (k prefix : Bytes) → has_prefix k prefix ≡ bytes_eq (take (length prefix) k) prefix
  unfolding has_prefix bytes_eq
  has_prefix_lem [] [] = refl
  has_prefix_lem (b ∷ k) [] = refl
  has_prefix_lem [] (p ∷ prefix) = refl
  has_prefix_lem (b ∷ k) (p ∷ prefix) = ground (arith, has_prefix_lem k prefix)

  infos_with-under :
      (prefix : Bytes) (objects : Objects Time)
      → infos_with Time prefix objects ≡ under prefix objects
  unfolding infos_with
  infos_with-under prefix [] = refl
  infos_with-under prefix ((k, o) ∷ objects) =
      rw (has_prefix_lem k prefix, infos_with-under prefix objects)

  -- `List` with a callback that does not fail calls it once for each object of the map whose key
  -- begins with the bytes of the prefix, in ascending order of the keys, and returns no error.
  pub list_lem :
      {E : Type 0} (prefix : Bytes) (objects : Objects Time)
      → (infos : List (ObjectInfo Time)) × (list Time prefix (note {E = E}) objects []
          ≡ (none, infos))
        × IsAscending Time infos
        × Perm infos (under prefix objects)
  unfolding list
  list_lem prefix objects =
      let infos = sort_infos Time (infos_with Time prefix objects) in
      let (asc, perm) = sort_infos_lem (infos_with Time prefix objects) in
      let same = infos_with-under prefix objects in
      (infos, call_each-note infos [], asc, subst (λ l. Perm infos l) same perm)
