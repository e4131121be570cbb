-- ===== src/Text/Path.antt =====
-- `path.Clean`, `path.Join`, `path.Dir`, `path.Base`, and `strings.HasSuffix`, on byte strings.
use maestro_cms.Prelude.{
  ℕ, ◌-◌, Bool, false, ◌&&◌, List, [], ◌∷◌, ◌++◌, leb, ◌==◌, if◌then◌else◌, length, drop, reverse,
}
use maestro_cms.Text.{Bytes, bytes_eq}

abbrev slash : Bytes
slash = b'/' ∷ []

abbrev dot_dot : Bytes
dot_dot = b'.' ∷ b'.' ∷ []

-- The elements of a path, and one that is begun.
unfoldable pub elements : Bytes → List Bytes
elements [] = [] ∷ []
elements (c ∷ s) = let rest = elements s in if c == b'/' then [] ∷ rest else begun c rest
  where
    begun : ℕ → List Bytes → List Bytes
    begun c [] = (c ∷ []) ∷ []
    begun c (e ∷ es) = (c ∷ e) ∷ es

-- The elements that are left, last first, behind those of `kept`.
unfoldable pub clean_elements : Bool → List Bytes → List Bytes → List Bytes
clean_elements rooted kept [] = kept
clean_elements rooted kept (e ∷ es) =
    let plain = clean_elements rooted (e ∷ kept) es in
    let skipped = clean_elements rooted kept es in
    let up = clean_elements rooted (up_from kept) es in
    if bytes_eq e []
    then skipped
    else if bytes_eq e (b'.' ∷ [])
    then skipped
    else if bytes_eq e dot_dot
    then up
    else plain
  where
    up_from : List Bytes → List Bytes
    up_from [] = if rooted then [] else dot_dot ∷ []
    up_from (k ∷ ks) = if bytes_eq k dot_dot then dot_dot ∷ k ∷ ks else ks

unfoldable pub join_elements : List Bytes → Bytes
join_elements [] = []
join_elements (e ∷ []) = e
join_elements (e ∷ f ∷ es) = e ++ b'/' ∷ join_elements (f ∷ es)

abbrev is_rooted : Bytes → Bool
is_rooted [] = false
is_rooted (c ∷ s) = c == b'/'

unfoldable pub clean : Bytes → Bytes
unfolding elements clean_elements join_elements
clean s =
    let out = join_elements (reverse (clean_elements (is_rooted s) [] (elements s))) in
    if is_rooted s then b'/' ∷ out else if bytes_eq out [] then b'.' ∷ [] else out

-- `path.Join` of two elements
unfoldable pub join : Bytes → Bytes → Bytes
unfolding clean
join a b =
    if bytes_eq a []
    then (if bytes_eq b [] then [] else clean b)
    else if bytes_eq b []
    then clean a
    else clean (a ++ b'/' ∷ b)

-- A text in reverse behind its first slash, and up to it.
abbrev from_slash : Bytes → Bytes
from_slash [] = []
from_slash (c ∷ s) = let rest = from_slash s in if c == b'/' then c ∷ s else rest

abbrev to_slash : Bytes → Bytes
to_slash [] = []
to_slash (c ∷ s) = let rest = c ∷ to_slash s in if c == b'/' then [] else rest

abbrev drop_slashes : Bytes → Bytes
drop_slashes [] = []
drop_slashes (c ∷ s) = let rest = drop_slashes s in if c == b'/' then rest else c ∷ s

unfoldable pub dir : Bytes → Bytes
unfolding clean
dir s = clean (reverse (from_slash (reverse s)))

unfoldable pub base : Bytes → Bytes
base s =
    let name = reverse (to_slash (drop_slashes (reverse s))) in
    if bytes_eq s [] then b'.' ∷ [] else if bytes_eq name [] then slash else name

unfoldable pub has_suffix : Bytes → Bytes → Bool
has_suffix s suffix =
    leb (length suffix) (length s) && bytes_eq (drop (length s - length suffix) s) suffix
