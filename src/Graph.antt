-- ===== src/Graph.antt =====
-- graph/src/lib.rs: the knowledge graph, its typed nodes and edges, and the traversal by hops. The
-- lower-casing of Unicode texts, `str::to_lowercase`, is the parameter `lower`. PageRank, the
-- check of dates and the rendering for Graphviz are not modelled.
pub mod Walks
pub mod Traversal
pub mod Distances
pub mod Changes
pub mod Removal
pub mod Tokens
pub mod Versioning
use Prim.Native.Nat.{min, max}
use ckos.Base.{
  ℕ, zero, suc, ◌+◌, ◌-◌, String, List, [], ◌∷◌, ◌++◌, map, Bool, true, false, not, ◌&&◌, ◌≡◌, ◌↔◌,
  Option, none, some, is_some, get_or, leb, if◌then◌else◌, length, keep, contains, arith, Eq, ◌==◌,
  string_eq,
}
use ckos.Base.Map
use ckos.Base.Map.{Map}

pub data NodeKind : Type 0 where
  concept document person organization tool api project : NodeKind
  other : String → NodeKind

pub data EdgeKind : Type 0 where
  depends_on implements references created_by related_to : EdgeKind
  other : String → EdgeKind

module _ (lower : String → String) where
  unfoldable pub kind_token : NodeKind → String
  kind_token NodeKind.concept = "concept"
  kind_token NodeKind.document = "document"
  kind_token NodeKind.person = "person"
  kind_token NodeKind.organization = "organization"
  kind_token NodeKind.tool = "tool"
  kind_token NodeKind.api = "api"
  kind_token NodeKind.project = "project"
  kind_token (NodeKind.other s) = lower s

  -- the `match` on the lowered token
  unfoldable pub kind_of_lower : String → NodeKind
  kind_of_lower t =
      if t == "concept"
      then NodeKind.concept
      else if t == "document"
      then NodeKind.document
      else if t == "person"
      then NodeKind.person
      else if t == "organization"
      then NodeKind.organization
      else if t == "tool"
      then NodeKind.tool
      else if t == "api"
      then NodeKind.api
      else if t == "project"
      then NodeKind.project
      else NodeKind.other t

  unfoldable pub kind_from_token : String → NodeKind
  unfolding kind_of_lower
  kind_from_token token = kind_of_lower (lower token)

  unfoldable pub edge_token : EdgeKind → String
  edge_token EdgeKind.depends_on = "depends_on"
  edge_token EdgeKind.implements = "implements"
  edge_token EdgeKind.references = "references"
  edge_token EdgeKind.created_by = "created_by"
  edge_token EdgeKind.related_to = "related_to"
  edge_token (EdgeKind.other s) = lower s

  unfoldable pub edge_of_lower : String → EdgeKind
  edge_of_lower t =
      if t == "depends_on"
      then EdgeKind.depends_on
      else if t == "implements"
      then EdgeKind.implements
      else if t == "references"
      then EdgeKind.references
      else if t == "created_by"
      then EdgeKind.created_by
      else if t == "related_to"
      then EdgeKind.related_to
      else EdgeKind.other t

  unfoldable pub edge_from_token : String → EdgeKind
  unfolding edge_of_lower
  edge_from_token token = edge_of_lower (lower token)

-- The derived `PartialEq` of `EdgeKind`.
abbrev pub edge_kind_beq : EdgeKind → EdgeKind → Bool
edge_kind_beq EdgeKind.depends_on EdgeKind.depends_on = true
edge_kind_beq EdgeKind.implements EdgeKind.implements = true
edge_kind_beq EdgeKind.references EdgeKind.references = true
edge_kind_beq EdgeKind.created_by EdgeKind.created_by = true
edge_kind_beq EdgeKind.related_to EdgeKind.related_to = true
edge_kind_beq (EdgeKind.other s) (EdgeKind.other t) = s == t
edge_kind_beq _ _ = false

pub record Node : Type 0 where
  pub id : String
  pub kind : NodeKind
  pub label : String
  pub confidence : ℕ
  pub date : Option String
  pub provenance : Option String

pub record Edge : Type 0 where
  pub source : String
  pub target : String
  pub kind : EdgeKind

pub record KnowledgeGraph : Type 0 where
  pub nodes : Map String Node
  pub adjacency : Map String (List Edge)

unfoldable pub new : KnowledgeGraph
new = record { nodes = []; adjacency = [] }

-- `entry(id).or_default()`
unfoldable pub ensure : Map String (List Edge) → String → Map String (List Edge)
ensure adjacency id =
    if is_some (Map.get adjacency id) then adjacency else Map.insert adjacency id []

unfoldable pub insert : KnowledgeGraph → Node → KnowledgeGraph
unfolding ensure
insert g node = record {
  nodes = Map.insert g.nodes node.id node;
  adjacency = ensure g.adjacency node.id;
}

-- `add_node`, given the id that `NodeId::new` minted
unfoldable pub add_node : KnowledgeGraph → String → NodeKind → String → ℕ → KnowledgeGraph
unfolding insert
add_node g id kind label confidence = insert g (record {
  id = id;
  kind = kind;
  label = label;
  confidence = min confidence 100;
  date = none;
  provenance = none;
})

-- `if let Some(n) = self.nodes.get_mut(id)`
unfoldable pub update_node : KnowledgeGraph → String → (Node → Node) → KnowledgeGraph
update_node g id f = elim (Map.get g.nodes id) [
  | none ↦ g
  | some n ↦ record g { nodes = Map.insert g.nodes id (f n) }
]

unfoldable pub bump_confidence : KnowledgeGraph → String → ℕ → KnowledgeGraph
unfolding update_node
bump_confidence g id floor =
    update_node g id (λ n. record n { confidence = max n.confidence (min floor 100) })

unfoldable pub set_date : KnowledgeGraph → String → String → KnowledgeGraph
unfolding update_node
set_date g id date = update_node g id (λ n. record n { date = some date })

unfoldable pub set_provenance : KnowledgeGraph → String → String → KnowledgeGraph
unfolding update_node
set_provenance g id source = update_node g id (λ n. record n { provenance = some source })

-- the edges that stand under a node, none where it has no entry
unfoldable pub edges_of : KnowledgeGraph → String → List Edge
edges_of g id = get_or (Map.get g.adjacency id) []

unfoldable pub connect : KnowledgeGraph → String → String → EdgeKind → KnowledgeGraph
unfolding edges_of
connect g source target kind = record g {
  adjacency =
      Map.insert g.adjacency source
        (edges_of g source ++ (record { source = source; target = target; kind = kind }) ∷ []);
}

unfoldable pub remove_node : KnowledgeGraph → String → Bool × KnowledgeGraph
remove_node g id = (
  is_some (Map.get g.nodes id),
  record {
    nodes = Map.remove g.nodes id;
    adjacency =
        Map.map_values (λ edges. keep (λ e. not (e.target == id)) edges)
          (Map.remove g.adjacency id);
  },
)

-- the edges that `remove_edge` takes away
unfoldable pub is_edge_to : String → EdgeKind → Edge → Bool
is_edge_to target kind e = (e.target == target) && edge_kind_beq e.kind kind

unfoldable pub remove_edge : KnowledgeGraph → String → String → EdgeKind → ℕ × KnowledgeGraph
unfolding is_edge_to
remove_edge g source target kind = elim (Map.get g.adjacency source) [
  | none ↦ (0, g)
  | some edges ↦
      let kept = keep (λ e. not (is_edge_to target kind e)) edges in
      (length edges - length kept, record g { adjacency = Map.insert g.adjacency source kept })
]

-- `values().flatten()`
unfoldable pub flatten : List (List Edge) → List Edge
flatten [] = []
flatten (es ∷ rest) = es ++ flatten rest

unfoldable pub edges : KnowledgeGraph → List Edge
unfolding flatten
edges g = flatten (Map.values g.adjacency)

-- both ends of every edge
unfoldable pub ends : List Edge → List String
ends [] = []
ends (e ∷ es) = e.source ∷ e.target ∷ ends es

unfoldable pub remove_all : List String → KnowledgeGraph → KnowledgeGraph
remove_all [] g = g
remove_all (id ∷ ids) g =
    remove_all ids (record { nodes = Map.remove g.nodes id; adjacency = Map.remove g.adjacency id })

-- the ids that no edge of the graph mentions
unfoldable pub orphans : KnowledgeGraph → List String
unfolding ends edges
orphans g =
    let referenced = ends (edges g) in keep (λ id. not (contains id referenced)) (Map.keys g.nodes)

unfoldable pub remove_orphans : KnowledgeGraph → ℕ × KnowledgeGraph
unfolding orphans remove_all
remove_orphans g = (length (orphans g), remove_all (orphans g) g)

unfoldable pub len : KnowledgeGraph → ℕ
len g = length g.nodes

-- `filter_map(|e| self.nodes.get(&e.to))`
unfoldable pub targets_in : Map String Node → List Edge → List Node
targets_in nodes [] = []
targets_in nodes (e ∷ es) =
    let rest = targets_in nodes es in
    elim (Map.get nodes e.target) [ none ↦ rest | some n ↦ n ∷ rest ]

unfoldable pub neighbors : KnowledgeGraph → String → List Node
unfolding targets_in edges_of
neighbors g id = targets_in g.nodes (edges_of g id)

unfoldable pub neighbors_via : KnowledgeGraph → String → EdgeKind → List Node
unfolding targets_in edges_of
neighbors_via g id kind = targets_in g.nodes (keep (λ e. edge_kind_beq e.kind kind) (edges_of g id))

-- The sets and lists of the breadth-first search.
pub record Search : Type 0 where
  pub visited : List String
  pub out : List (Node × ℕ)
  pub queue : List (String × ℕ)

-- `if let Some(n) = …get(&e.to) { out.push((n, hops + 1)) }`
unfoldable pub report : Option Node → ℕ → List (Node × ℕ) → List (Node × ℕ)
report none hops out = out
report (some n) hops out = out ++ (n, hops) ∷ []

-- the loop over the edges of a node that was popped
unfoldable pub visit_edges : Map String Node → ℕ → List Edge → Search → Search
unfolding report
visit_edges nodes hops [] s = s
visit_edges nodes hops (e ∷ es) s = visit_edges nodes hops es (
    if contains e.target s.visited then s else record {
      visited = e.target ∷ s.visited;
      out = report (Map.get nodes e.target) (hops + 1) s.out;
      queue = s.queue ++ (e.target, hops + 1) ∷ [];
    })

-- the body of the loop after `pop_front`; the queue of `s` lacks what was popped
unfoldable pub expand : KnowledgeGraph → ℕ → String → ℕ → Search → Search
unfolding visit_edges edges_of
expand g max_hops id hops s =
    if leb max_hops hops then s else visit_edges g.nodes hops (edges_of g id) s

-- the loop; `none` is a lack of fuel
unfoldable pub search : KnowledgeGraph → ℕ → ℕ → Search → Option Search
unfolding expand
search g max_hops zero s = none
search g max_hops (suc fuel) s = elim s.queue [
  | [] ↦ some s
  | (id, hops) ∷ rest ↦
      search g max_hops fuel (expand g max_hops id hops (record s { queue = rest }))
]

-- one more round than there can be ids to visit, and one for the empty queue
unfoldable pub traverse_with_hops : KnowledgeGraph → String → ℕ → Option (List (Node × ℕ))
unfolding search edges
traverse_with_hops g start max_hops =
    elim (search g max_hops (length (edges g) + 2)
      (record { visited = start ∷ []; out = []; queue = (start, 0) ∷ [] })) [
        | none ↦ none
        | some s ↦ some s.out
      ]

unfoldable pub traverse : KnowledgeGraph → String → ℕ → Option (List Node)
unfolding traverse_with_hops
traverse g start max_hops = elim (traverse_with_hops g start max_hops) [
  | none ↦ none
  | some out ↦ some (map (λ r. r.0) out)
]
