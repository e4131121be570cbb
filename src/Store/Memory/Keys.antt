-- ===== src/Store/Memory/Keys.antt =====
-- What a key of the map holds after an assignment and after a deletion.
use maestro_cms.Prelude.{◌≡◌, ◌≢◌, refl, sym, ◌∙◌, inl, inr, false, none, some, [], ◌∷◌, Bool-cases}
use maestro_cms.Text.{Bytes, bytes_eq}
use maestro_cms.Text.Equal.{bytes_eq→eq, bytes_eq_refl, bytes_eq_ne}
use maestro_cms.Store.Memory.{MemObject, Objects, object_at, remove_key, set_key}

module _ (Time : Type 0) where
  pub object_at-remove_key :
      (key : Bytes) (objects : Objects Time)
      → object_at Time key (remove_key Time key objects) ≡ none
  unfolding object_at remove_key
  object_at-remove_key key [] = refl
  object_at-remove_key key ((k, o) ∷ objects) = elim (Bool-cases (bytes_eq k key)) [
    | inl same ↦ rw same (object_at-remove_key key objects)
    | inr differ ↦ rw differ (rw differ (object_at-remove_key key objects))
  ]

  pub object_at-remove_key_other :
      (key other : Bytes) (objects : Objects Time)
      → key ≢ other
      → object_at Time other (remove_key Time key objects) ≡ object_at Time other objects
  unfolding object_at remove_key
  object_at-remove_key_other key other [] ne = refl
  object_at-remove_key_other key other ((k, o) ∷ objects) ne =
      let later = object_at-remove_key_other key other objects ne in
      elim (Bool-cases (bytes_eq k key)) [
        | inl same ↦
            let apart : bytes_eq k other ≡ false =
              bytes_eq_ne k other (λ e. ne (sym (bytes_eq→eq k key same) ∙ e)) in
            rw (same, apart) later
        | inr differ ↦ rw (differ, later) refl
      ]

  pub object_at-set_key :
      (key : Bytes) (o : MemObject Time) (objects : Objects Time)
      → object_at Time key (set_key Time key o objects) ≡ some o
  unfolding object_at set_key
  object_at-set_key key o objects = rw (bytes_eq_refl key) refl

  pub object_at-set_key_other :
      (key other : Bytes) (o : MemObject Time) (objects : Objects Time)
      → key ≢ other
      → object_at Time other (set_key Time key o objects) ≡ object_at Time other objects
  unfolding object_at set_key
  object_at-set_key_other key other o objects ne =
      rw (bytes_eq_ne key other ne) (object_at-remove_key_other key other objects ne)
