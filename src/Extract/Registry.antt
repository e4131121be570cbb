-- ===== src/Extract/Registry.antt =====
-- extract/extract.go: `Registry` with its options, and the registry's helpers of extract/helpers.go.
-- `mime.ParseMediaType` is the parameter `parse`: the media type, or none where it returns an error.
pub mod Laws
use maestro_cms.Prelude.{
  ℕ, zero, suc, Bool, true, false, Option, none, some, List, [], ◌∷◌, if◌then◌else◌, map,
}
use maestro_cms.Prelude.Int.{ℤ, pos, negsuc}
use maestro_cms.Text.{Bytes, bytes_eq}
use maestro_cms.Store.Memory.{bytes_lt}
use maestro_cms.Extract.Io.{Reader, Context, limit_read, beside}
use maestro_cms.Extract.Defs.{
  ExtractError, missing_parent_id, invalid_media_type, unsupported_media_type, Result, ok, err,
  Action, Artifact, Env, default_max_bytes,
}

pub record Options : Type 0 where
  pub max_bytes : ℕ

-- `Option`, a function that changes the options.
abbrev pub Setting : Type 0
Setting = Options → Options

-- `WithMaxBytes`; `none` is its panic.
unfoldable pub with_max_bytes : ℤ → Option Setting
with_max_bytes (pos zero) = none
with_max_bytes (negsuc n) = none
with_max_bytes (pos (suc n)) = some (λ o. record o { max_bytes = suc n })

abbrev pub apply_all : List Setting → Options → Options
apply_all [] o = o
apply_all (f ∷ fs) o = apply_all fs (f o)

-- What `Register` panics with.
pub data Misuse : Type 0 where
  nil_extractor bad_media_type registered_twice : Misuse

pub data Registered {ℓ} (A : Type ℓ) : Type ℓ where
  registered : A → Registered A
  panics : Misuse → Registered A

-- `slices.Sort` on the keys, which differ.
unfoldable pub insert_type : Bytes → List Bytes → List Bytes
insert_type x [] = x ∷ []
insert_type x (y ∷ ys) = let on = y ∷ insert_type x ys in if bytes_lt x y then x ∷ y ∷ ys else on

unfoldable pub sort_types : List Bytes → List Bytes
unfolding insert_type
sort_types [] = []
sort_types (x ∷ xs) = insert_type x (sort_types xs)

module _ (parse : Bytes → Option Bytes) (W : Type 0) where
  -- An `Extractor`, called with its context in `Env`. The reader's world is the caller's with the
  -- field of the limit reader.
  abbrev pub Extractor : Type 0
  Extractor = Env (W × ℤ) → Reader (W × ℤ) → Bytes → Action (W × ℤ) (List Artifact)

  pub record Registry : Type 0 where
    pub extractors : List (Bytes × Extractor)
    pub max_bytes : ℕ

  -- `NewRegistry`
  unfoldable pub new_registry : List Setting → Registry
  new_registry opts = record {
    extractors = [];
    max_bytes = (apply_all opts (record { max_bytes = default_max_bytes })).max_bytes;
  }

  -- `canonicalMediaType`
  unfoldable pub canonical_media_type : Bytes → Result Bytes
  canonical_media_type mt = elim (parse mt) [
    | none ↦ err (invalid_media_type mt)
    | some key ↦ ok key
  ]

  -- `r.extractors[key]`
  unfoldable pub extractor_at : Bytes → List (Bytes × Extractor) → Option Extractor
  extractor_at key [] = none
  extractor_at key ((k, e) ∷ es) =
      let later = extractor_at key es in if bytes_eq k key then some e else later

  -- `Register`; an extractor `none` is nil.
  unfoldable pub register : Bytes → Option Extractor → Registry → Registered Registry
  register mt none r = panics nil_extractor
  register mt (some e) r = elim (canonical_media_type mt) [
    | err error ↦ panics bad_media_type
    | ok key ↦ elim (extractor_at key r.extractors) [
      | some dup ↦ panics registered_twice
      | none ↦ registered (record r { extractors = (key, e) ∷ r.extractors })
    ]
  ]

  -- `Get`
  unfoldable pub get_extractor : Bytes → Registry → Option Extractor
  get_extractor mt r = elim (canonical_media_type mt) [
    | err error ↦ none
    | ok key ↦ extractor_at key r.extractors
  ]

  -- `Extract`; the field of the limit reader is set here and forgotten at the end.
  unfoldable pub extract :
      Env W → Bytes → Reader W → Bytes → List Setting → Registry → Action W (List Artifact)
  unfolding limit_read beside
  extract env mt reader parent_id opts r w =
      let limit = (apply_all opts (record { max_bytes = r.max_bytes })).max_bytes in
      let inner : Env (W × ℤ) = record { ctx = beside env.ctx; room = env.room; fuel = env.fuel } in
      if bytes_eq parent_id []
      then some (err missing_parent_id, w)
      else elim (canonical_media_type mt) [
        | err error ↦ some (err error, w)
        | ok key ↦ elim (extractor_at key r.extractors) [
          | none ↦ some (err (unsupported_media_type key), w)
          | some e ↦ elim (e inner (limit_read limit reader) parent_id (w, pos limit)) [
            | none ↦ none
            | some (result, s) ↦ some (result, s.0)
          ]
        ]
      ]

  -- `Supports`
  unfoldable pub supports : Bytes → Registry → Bool
  unfolding get_extractor
  supports mt r = elim (get_extractor mt r) [ none ↦ false | some e ↦ true ]

  -- `SupportedMediaTypes`
  unfoldable pub supported_media_types : Registry → List Bytes
  unfolding sort_types
  supported_media_types r = sort_types (map (λ entry. entry.0) r.extractors)
