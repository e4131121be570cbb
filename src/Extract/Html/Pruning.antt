-- ===== src/Extract/Html/Pruning.antt =====
-- What is not rendered does not reach the text.

use maestro_cms.Prelude.{
  ◌≡◌, refl, sym, ap, ◌∙◌, inl, inr, Bool, true, false, [], ◌∷◌, ◌++◌, arith, Bool-cases,
  if◌then◌else◌,
}
use maestro_cms.Extract.Html.{
  Node, element, text_node, other_node, Nodes, last, next, skip_subtree, collect_text,
  collect_children,
}

-- Whether the node is an element of a subtree that is skipped.
abbrev pub is_skipped : Node → Bool
is_skipped (element a children) = skip_subtree a
is_skipped (text_node text children) = false
is_skipped (other_node children) = false

-- The tree without its skipped elements below the root; a skipped root has no children.
unfoldable mutual
  pub prune : Node → Node
  prune (element a children) = element a (if skip_subtree a then last else prune_children children)
  prune (text_node text children) = text_node text (prune_children children)
  prune (other_node children) = other_node (prune_children children)

  pub prune_children : Nodes → Nodes
  prune_children last = last
  prune_children (next n children) =
      let rest = prune_children children in if is_skipped n then rest else next (prune n) rest

is_skipped-collect_text : (n : Node) → is_skipped n ≡ true → collect_text n ≡ []
unfolding collect_text
is_skipped-collect_text (element a children) h = rw h refl
is_skipped-collect_text (text_node text children) h = cc
is_skipped-collect_text (other_node children) h = cc

mutual
  unfolding collect_text prune

  pub collect_text-prune : (n : Node) → collect_text (prune n) ≡ collect_text n
  collect_text-prune (element a children) =
      let ih = collect_children-prune children in ground (arith, ih)
  collect_text-prune (text_node text children) =
      ap (λ l. text ++ b' ' ∷ l) (collect_children-prune children)
  collect_text-prune (other_node children) = collect_children-prune children

  pub collect_children-prune :
      (ns : Nodes) → collect_children (prune_children ns) ≡ collect_children ns
  collect_children-prune last = refl
  collect_children-prune (next n children) =
      let ih = collect_children-prune children in
      let here = collect_text-prune n in
      elim (Bool-cases (is_skipped n)) [
        | inl skipped ↦ rw skipped (
            ih ∙ ap (λ t. t ++ collect_children children) (sym (is_skipped-collect_text n skipped)))
        | inr kept ↦ rw (kept, here, ih) refl
      ]

-- Documents that differ only in the contents of skipped elements and in whether these stand there
-- yield the same text.
pub collect_text_visible : (n m : Node) → prune n ≡ prune m → collect_text n ≡ collect_text m
collect_text_visible n m same =
    sym (collect_text-prune n) ∙ ap collect_text same ∙ collect_text-prune m
