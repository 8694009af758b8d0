-- ===== src/Examples/Graphs.antt =====
-- The knowledge graph, its changes and its tokens at concrete inputs.
use ckos.Base.{
  ℕ, String, List, [], ◌∷◌, none, some, ◌≡◌, refl, if◌then◌else◌, Bool-cases, inl, inr, ◌==◌,
  string_eq,
}
use ckos.Base.Map
use ckos.Graph.{
  KnowledgeGraph, Node, NodeKind, Edge, EdgeKind, new, edges_of, remove_orphans, traverse_with_hops,
  kind_token, kind_from_token, edge_token, edge_from_token,
}
use ckos.Graph.Distances.{IsTraversal, traverse_with_hops-IsTraversal}
use ckos.Graph.Changes.{Change, IsConsistent, apply_all, apply_all-IsConsistent, new-IsConsistent}
use ckos.Graph.Removal.{is_mentioned, remove_orphans-keeps}
use ckos.Graph.Tokens.{IsLowering, from_token-as_token}

-- a lowering that knows one word
abbrev lower : String → String
lower s = if s == "Tool" then "tool" else s

lower-again : (s : String) → lower (lower s) ≡ lower s
lower-again s = elim (Bool-cases (s == "Tool")) [
  | inl same ↦ rw same refl
  | inr differ ↦ rw (differ, differ) refl
]

lower-IsLowering : IsLowering lower
lower-IsLowering = record {
  again = lower-again;
  concept = refl;
  document = refl;
  person = refl;
  organization = refl;
  tool = refl;
  api = refl;
  project = refl;
  depends_on = refl;
  implements = refl;
  references = refl;
  created_by = refl;
  related_to = refl;
}

from_token-as_token_example :
    (kind_from_token lower (kind_token lower (kind_from_token lower "Tool"))
      ≡ kind_from_token lower "Tool")
    × (edge_from_token lower (edge_token lower (edge_from_token lower "Tool"))
        ≡ edge_from_token lower "Tool")
from_token-as_token_example = from_token-as_token lower lower-IsLowering "Tool"

abbrev node : String → Node
node id = record {
  id = id;
  kind = NodeKind.tool;
  label = "a tool";
  confidence = 90;
  date = none;
  provenance = none;
}

abbrev link : String → String → Edge
link source target = record { source = source; target = target; kind = EdgeKind.depends_on }

-- a and b depend on each other, and b on c; d stands alone
abbrev ring : KnowledgeGraph
ring = record {
  nodes = ("a", node "a") ∷ ("b", node "b") ∷ ("c", node "c") ∷ ("d", node "d") ∷ [];
  adjacency =
      ("a", link "a" "b" ∷ [])
      ∷ ("b", link "b" "a" ∷ link "b" "c" ∷ [])
      ∷ ("c", [])
      ∷ ("d", [])
      ∷ [];
}

ring_traversed : traverse_with_hops ring "a" 2 ≡ some ((node "b", 1) ∷ (node "c", 2) ∷ [])
unfolding traverse_with_hops Map.values Map.get
ring_traversed = refl

traverse_with_hops-IsTraversal_example :
    (out : List (Node × ℕ)) × (traverse_with_hops ring "a" 2 ≡ some out)
    × IsTraversal ring "a" 2 out
traverse_with_hops-IsTraversal_example = traverse_with_hops-IsTraversal ring "a" 2

abbrev changes : List Change
changes =
    Change.add "a" NodeKind.api "A" 200
    ∷ Change.store (node "b")
    ∷ Change.link "a" "b" EdgeKind.references
    ∷ Change.raise "a" 70
    ∷ Change.date "b" "2026-01-02"
    ∷ Change.drop_edge "a" "b" EdgeKind.implements
    ∷ Change.drop_node "b"
    ∷ Change.drop_orphans
    ∷ []

apply_all-IsConsistent_example : IsConsistent (apply_all changes new)
apply_all-IsConsistent_example = apply_all-IsConsistent changes new new-IsConsistent

linked : KnowledgeGraph
unfolding apply_all
linked =
    apply_all
      (Change.store (node "a")
        ∷ Change.store (node "d")
        ∷ Change.link "a" "b" EdgeKind.references
        ∷ [])
      new

linked-IsConsistent : IsConsistent linked
unfolding linked
linked-IsConsistent =
    apply_all-IsConsistent
      (Change.store (node "a")
        ∷ Change.store (node "d")
        ∷ Change.link "a" "b" EdgeKind.references
        ∷ [])
      new new-IsConsistent

remove_orphans-keeps_example :
    (Map.get (remove_orphans linked).1.nodes "d"
      ≡ (if is_mentioned "d" linked.adjacency then Map.get linked.nodes "d" else none))
    × (edges_of (remove_orphans linked).1 "d" ≡ edges_of linked "d")
remove_orphans-keeps_example = remove_orphans-keeps linked "d" linked-IsConsistent
