-- ===== src/Extract/Io/Source.antt =====
-- A source of finitely many bytes: a reader that hands out what it has in pieces, each cut to the size
-- of the buffer, and then returns `end` at every call.
use maestro_cms.Prelude.{
  ℕ, suc, ◌+◌, none, some, List, [], ◌∷◌, ◌++◌, leb, if◌then◌else◌, length, take, drop,
}
use maestro_cms.Text.{Bytes}
use maestro_cms.Extract.Io.{IoError, Reader, Context}

pub record Source : Type 0 where
  pub pieces : List Bytes
  pub end : IoError

abbrev pub joined : List Bytes → Bytes
joined [] = []
joined (p ∷ ps) = p ++ joined ps

abbrev pub whole : Source → Bytes
whole s = joined s.pieces

unfoldable pub source_read : Reader Source
source_read n s = elim s.pieces [
  | [] ↦ ([], some s.end, s)
  | p ∷ ps ↦
      if leb (length p) n
      then (p, none, record s { pieces = ps })
      else (take n p, none, record s { pieces = drop n p ∷ ps })
]

-- A bound on the reads that a source answers without an error.
abbrev pub reads_left : List Bytes → ℕ
reads_left [] = 0
reads_left (p ∷ ps) = suc (length p) + reads_left ps

-- The context that is never done.
abbrev pub background : {W : Type 0} → Context W
background w = (none, w)
