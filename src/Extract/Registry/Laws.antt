-- ===== src/Extract/Registry/Laws.antt =====
-- Registration and lookup, and the order of the supported types.
use mathlib.Core.List.{Perm}
use mathlib.Core.List.Perm
use maestro_cms.Prelude.{
  ◌≡◌, ◌≢◌, refl, sym, ap, ◌∙◌, ◌⊎◌, inl, inr, true, false, Option, none, some, List, [], ◌∷◌,
  Bool-cases, Option-cases, arith, map,
}
use maestro_cms.Text.{Bytes, bytes_eq}
use maestro_cms.Text.Equal.{bytes_eq_ne, bytes_eq_refl}
use maestro_cms.Store.Memory.{bytes_lt}
use maestro_cms.Store.Memory.Listing.{bytes_lt_connected}
use maestro_cms.Extract.Registry.{
  registered, Extractor, Registry, canonical_media_type, extractor_at, register, get_extractor,
  insert_type, sort_types, supported_media_types,
}

-- Each type is at or behind the one before it.
abbrev pub IsAscending : List Bytes → Type 0
IsAscending [] = Unit
IsAscending (x ∷ []) = Unit
IsAscending (x ∷ y ∷ l) = ((bytes_lt x y ≡ true) ⊎ (x ≡ y)) × IsAscending (y ∷ l)

insert_type-Perm : (x : Bytes) (l : List Bytes) → Perm (insert_type x l) (x ∷ l)
unfolding insert_type
insert_type-Perm x [] = Perm.refl (x ∷ [])
insert_type-Perm x (y ∷ l) = elim (Bool-cases (bytes_lt x y)) [
  | inl first ↦ rw first (Perm.refl (x ∷ y ∷ l))
  | inr later ↦ rw later (Perm.trans (Perm.cons y (insert_type-Perm x l)) (Perm.swap x y l))
]

insert_type-IsAscending :
    (x : Bytes) (l : List Bytes) → IsAscending l → IsAscending (insert_type x l)
unfolding insert_type
insert_type-IsAscending x [] h = tt
insert_type-IsAscending x (y ∷ l) h = elim (Bool-cases (bytes_lt x y)) [
  | inl first ↦ rw first (inl first, h)
  | inr later ↦
      rw later (
        behind y l h
          (elim (bytes_lt_connected x y later) [ inl lt ↦ inl lt | inr e ↦ inr (sym e) ]))
]
  where
    behind :
        (z : Bytes) (m : List Bytes)
        → IsAscending (z ∷ m)
        → (bytes_lt z x ≡ true) ⊎ (z ≡ x)
        → IsAscending (z ∷ insert_type x m)
    behind z [] a o = (o, tt)
    behind z (u ∷ m) a o = elim (Bool-cases (bytes_lt x u)) [
      | inl first ↦ rw first (o, (inl first, a.1))
      | inr later ↦ rw later (
        a.0,
        behind u m a.1
            (elim (bytes_lt_connected x u later) [ inl lt ↦ inl lt | inr e ↦ inr (sym e) ]),
      )
    ]

sort_types_lem : (l : List Bytes) → IsAscending (sort_types l) × Perm (sort_types l) l
unfolding sort_types
sort_types_lem [] = (tt, Perm.refl [])
sort_types_lem (x ∷ l) =
    let (asc, perm) = sort_types_lem l in
    (
      insert_type-IsAscending x (sort_types l) asc,
      Perm.trans (insert_type-Perm x (sort_types l)) (Perm.cons x perm),
    )

module _ (parse : Bytes → Option Bytes) (W : Type 0) where
  -- A call of `Register` that does not panic is of a new key, which it puts first.
  register_inv :
      (mt : Bytes) (e : Option (Extractor parse W)) (r r' : Registry parse W)
      → register parse W mt e r ≡ registered r'
      → (key : Bytes) × (given : Extractor parse W) × (e ≡ some given)
        × (parse mt ≡ some key)
        × (extractor_at parse W key r.extractors ≡ none)
        × (r' ≡ record r { extractors = (key, given) ∷ r.extractors })
  unfolding register canonical_media_type
  register_inv mt none r r' h = cc
  register_inv mt (some e) r r' h = elim (Option-cases (parse mt)) [
    | inl bad ↦ absurd (ground (arith, bad, h))
    | inr (key, good) ↦ elim (Option-cases (extractor_at parse W key r.extractors)) [
      | inr (dup, found) ↦ absurd (ground (arith, good, found, h))
      | inl fresh ↦ (key, e, refl, good, fresh, ground (arith, good, fresh, h))
    ]
  ]

  -- After a call of `Register` that does not panic, `Get` yields the extractor for the media type, which
  -- had none, and is unchanged for a media type that does not have the same canonical form.
  pub register-get_extractor :
      (mt other : Bytes) (e : Extractor parse W) (r r' : Registry parse W)
      → parse other ≢ parse mt
      → register parse W mt (some e) r ≡ registered r'
      → (get_extractor parse W mt r ≡ none)
        × (get_extractor parse W mt r' ≡ some e)
        × (get_extractor parse W other r' ≡ get_extractor parse W other r)
  unfolding get_extractor canonical_media_type extractor_at
  register-get_extractor mt other e r r' ne h =
      let (key, given, e_eq, good, fresh, r_eq) = register_inv mt (some e) r r' h in
      (
        ground (arith, good, fresh),
        rw r_eq (ground (arith, good, e_eq, bytes_eq_refl key)),
        rw r_eq (elim (Option-cases (parse other)) [
          | inl bad ↦ ground (arith, bad)
          | inr (k, found) ↦
              let differ : bytes_eq key k ≡ false =
                bytes_eq_ne key k (λ same. ne (found ∙ ap some (sym same) ∙ sym good)) in
              ground (arith, found, differ)
        ]),
      )

  -- The supported media types are the keys of the registered extractors, ascending.
  pub supported_media_types_lem :
      (r : Registry parse W)
      → IsAscending (supported_media_types parse W r)
        × Perm (supported_media_types parse W r) (map (λ entry. entry.0) r.extractors)
  unfolding supported_media_types
  supported_media_types_lem r = sort_types_lem (map (λ entry. entry.0) r.extractors)
