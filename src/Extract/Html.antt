-- ===== src/Extract/Html.antt =====
-- extract/html/html.go: the HTML extractor. `html.Parse` is the parameter `parse`, to a tree or the code
-- of an error; the tree is what `collectText` walks.
pub mod Pruning
use maestro_cms.Prelude.{
  ℕ, Bool, true, false, ◌&&◌, Option, none, some, List, [], ◌∷◌, ◌++◌, if◌then◌else◌,
}
use maestro_cms.Text.{Bytes, bytes_eq, codes}
use maestro_cms.Extract.Io.{Reader}
use maestro_cms.Extract.Defs.{
  malformed_source, parser_failed, no_content, Action, pure, raise, ◌>>=◌, Artifact, text_artifact,
  Env, read_all,
}
use maestro_cms.Extract.Normalize.{normalize_whitespace}

-- The `DataAtom`s that the code distinguishes.
pub data Atom : Type 0 where
  head script style noscript template br : Atom
  p div section article header footer main aside nav figure figcaption : Atom
  blockquote pre hr ul ol li dl dt dd table caption tr h1 h2 h3 h4 h5 h6 : Atom
  other_atom : Atom

-- A node with its children; `other_node` is a document, a comment or a doctype.
mutual
  pub data Node : Type 0 where
    element : Atom → Nodes → Node
    text_node : Bytes → Nodes → Node
    other_node : Nodes → Node

  pub data Nodes : Type 0 where
    last : Nodes
    next : Node → Nodes → Nodes

unfoldable pub skip_subtree : Atom → Bool
skip_subtree head = true
skip_subtree script = true
skip_subtree style = true
skip_subtree noscript = true
skip_subtree template = true
skip_subtree _ = false

abbrev pub is_br : Atom → Bool
is_br br = true
is_br _ = false

unfoldable pub is_block : Atom → Bool
is_block head = false
is_block script = false
is_block style = false
is_block noscript = false
is_block template = false
is_block br = false
is_block other_atom = false
is_block _ = true

abbrev pub blank_line : Bytes
blank_line = b'\n' ∷ b'\n' ∷ []

-- `collectText`: what it appends to `b`.
unfoldable mutual
  pub collect_text : Node → Bytes
  collect_text (element a children) =
      let inner = collect_children children in
      if skip_subtree a
      then []
      else if is_br a
      then b'\n' ∷ []
      else if is_block a
      then blank_line ++ inner ++ blank_line
      else inner
  collect_text (text_node text children) = text ++ b' ' ∷ collect_children children
  collect_text (other_node children) = collect_children children

  pub collect_children : Nodes → Bytes
  collect_children last = []
  collect_children (next n children) = collect_text n ++ collect_children children

-- What `Parse` returns.
pub data Parsed : Type 0 where
  tree : Node → Parsed
  refused : ℕ → Parsed

module _ {W : Type 0} where
  -- The end of the extractors of one text artifact.
  abbrev pub one_artifact : Bytes → Bytes → Action W (List Artifact)
  one_artifact parent_id text =
      if bytes_eq text [] then raise no_content else pure (text_artifact parent_id text ∷ [])

  abbrev pub of_tree : Bytes → Parsed → Action W (List Artifact)
  of_tree parent_id (refused code) =
      raise (malformed_source (codes "text/html") (parser_failed code))
  of_tree parent_id (tree doc) = one_artifact parent_id (normalize_whitespace (collect_text doc))

  -- `Extract`
  unfoldable pub extract_html :
      (Bytes → Parsed) → Env W → Reader W → Bytes → Action W (List Artifact)
  extract_html parse env r parent_id = do bytes ← read_all env r; of_tree parent_id (parse bytes)
