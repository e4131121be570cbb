-- ===== src/Content/Sharing.antt =====
-- The heap of maps and of handles that pointers lead to: a reference is an index, and an allocation is
-- at the end.
use maestro_cms.Prelude.{
  ℕ, zero, suc, ◌<◌, ◌≡◌, refl, Option, none, some, List, [], ◌∷◌, ◌++◌, arith, length, get_or,
}
use maestro_cms.Text.{Bytes}

pub record StoreHandle : Type 0 where
  pub backend : Bytes
  pub key : Bytes

abbrev pub Labels : Type 0
Labels = List (Bytes × Bytes)

pub record Heap : Type 0 where
  pub maps : List Labels
  pub handles : List StoreHandle

abbrev pub no_handle : StoreHandle
no_handle = record { backend = []; key = [] }

-- The map that a reference leads to, and `none` for the nil map.
abbrev pub labels_at : Option ℕ → Heap → Option Labels
labels_at none h = none
labels_at (some r) h = some (get_or h.maps r [])

abbrev pub handle_at : Option ℕ → Heap → Option StoreHandle
handle_at none h = none
handle_at (some r) h = some (get_or h.handles r no_handle)

-- `maps.Clone`
unfoldable pub clone_map : Option ℕ → Heap → Option ℕ × Heap
clone_map none h = (none, h)
clone_map (some r) h = (some (length h.maps), record h { maps = h.maps ++ get_or h.maps r [] ∷ [] })

-- `b := *a.Blob; a.Blob = &b`
unfoldable pub clone_handle : Option ℕ → Heap → Option ℕ × Heap
clone_handle none h = (none, h)
clone_handle (some r) h =
    (some (length h.handles), record h { handles = h.handles ++ get_or h.handles r no_handle ∷ [] })

abbrev pub set_at {ℓ} : {A : Type ℓ} → ℕ → A → List A → List A
set_at r y [] = []
set_at zero y (x ∷ xs) = y ∷ xs
set_at (suc r) y (x ∷ xs) = x ∷ set_at r y xs

-- A caller's write through a reference; one through nil changes nothing here (Go panics).
abbrev pub write_labels : Option ℕ → Labels → Heap → Heap
write_labels none m h = h
write_labels (some r) m h = record h { maps = set_at r m h.maps }

abbrev pub write_handle : Option ℕ → StoreHandle → Heap → Heap
write_handle none b h = h
write_handle (some r) b h = record h { handles = set_at r b h.handles }

-- The reference is nil or was allocated.
abbrev pub IsAllocated : Option ℕ → ℕ → Type 0
IsAllocated none n = Unit
IsAllocated (some r) n = r < n

module _ {ℓ} {A : Type ℓ} where
  pub get_or-append :
      (xs : List A) (ys : List A) (i : ℕ) (d : A)
      → i < length xs
      → get_or (xs ++ ys) i d ≡ get_or xs i d
  get_or-append [] ys i d h = absurd (omega arith)
  get_or-append (x ∷ xs) ys zero d h = refl
  get_or-append (x ∷ xs) ys (suc i) d h = get_or-append xs ys i d (omega arith)

  pub get_or-append_last : (xs : List A) (y d : A) → get_or (xs ++ y ∷ []) (length xs) d ≡ y
  get_or-append_last [] y d = refl
  get_or-append_last (x ∷ xs) y d = get_or-append_last xs y d

  pub get_or-set_at :
      (xs : List A) (r i : ℕ) (y d : A) → i < r → get_or (set_at r y xs) i d ≡ get_or xs i d
  get_or-set_at [] r i y d h = refl
  get_or-set_at (x ∷ xs) zero i y d h = absurd (omega arith)
  get_or-set_at (x ∷ xs) (suc r) zero y d h = refl
  get_or-set_at (x ∷ xs) (suc r) (suc i) y d h = get_or-set_at xs r i y d (omega arith)
