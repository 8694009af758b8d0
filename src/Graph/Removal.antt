-- ===== src/Graph/Removal.antt =====
-- What the removal of nodes and of orphans does to the knowledge graph of graph/src/lib.rs.
use text.Mathlib.TextEquality.{eq_iff}
use ckos.Base.{
  String, List, [], ◌∷◌, ◌++◌, Bool, true, false, not, ◌&&◌, ◌||◌, none, is_some, get_or, ◌≡◌, refl,
  arith, inl, inr, All, ◌==◌, string_eq, if◌then◌else◌, keep, contains, Bool-cases, any,
}
use ckos.Base.Map
use ckos.Base.Map.{get-remove}
use ckos.Graph.{
  KnowledgeGraph, Edge, edges_of, flatten, edges, ends, remove_all, remove_node, orphans,
  remove_orphans,
}
use ckos.Graph.Changes.{IsConsistent, edges_of-remove_node}

contains-keep :
    (p : String → Bool) (x : String) (xs : List String)
    → contains x (keep p xs) ≡ (contains x xs && p x)
contains-keep p x [] = refl
contains-keep p x (y ∷ ys) = ground (arith, contains-keep p x ys, eq_iff y x)

pub contains-keys {ℓ} :
    {V : Type ℓ} (m : Map.Map String V) (x : String)
    → contains x (Map.keys m) ≡ is_some (Map.get m x)
unfolding Map.keys Map.get
contains-keys [] x = refl
contains-keys ((k, v) ∷ m) x = elim (Bool-cases (k == x)) [
  | inl same ↦ rw same refl
  | inr differ ↦ rw differ (contains-keys m x)
]

get_nodes-remove_all :
    (ids : List String) (g : KnowledgeGraph) (x : String)
    → Map.get (remove_all ids g).nodes x ≡ (if contains x ids then none else Map.get g.nodes x)
unfolding remove_all
get_nodes-remove_all [] g x = refl
get_nodes-remove_all (id ∷ ids) g x =
    let less : KnowledgeGraph = record {
      nodes = Map.remove g.nodes id;
      adjacency = Map.remove g.adjacency id;
    } in
    rw (get_nodes-remove_all ids less x, get-remove g.nodes id x) (ground arith)

edges_of-remove_all :
    (ids : List String) (g : KnowledgeGraph) (x : String)
    → edges_of (remove_all ids g) x ≡ (if contains x ids then [] else edges_of g x)
unfolding remove_all edges_of
edges_of-remove_all [] g x = refl
edges_of-remove_all (id ∷ ids) g x =
    let less : KnowledgeGraph = record {
      nodes = Map.remove g.nodes id;
      adjacency = Map.remove g.adjacency id;
    } in
    rw (edges_of-remove_all ids less x, get-remove g.adjacency id x) (ground arith)

-- An edge of the graph mentions its source.
contains-ends :
    (es fs : List Edge) (x : String)
    → contains x (ends (es ++ fs)) ≡ contains x (ends es) || contains x (ends fs)
unfolding ends
contains-ends [] fs x = refl
contains-ends (e ∷ es) fs x = ground (arith, contains-ends es fs x)

mentioned :
    (m : Map.Map String (List Edge)) (x : String) (e : Edge) (es : List Edge)
    → get_or (Map.get m x) [] ≡ e ∷ es
    → e.source ≡ x
    → contains x (ends (flatten (Map.values m))) ≡ true
unfolding Map.get Map.values flatten ends
mentioned [] x e es h own = ground (arith, h)
mentioned ((k, fs) ∷ m) x e es h own =
    rw (contains-ends fs (flatten (Map.values m)) x) (elim (Bool-cases (k == x)) [
      | inl same ↦ let hit = rw same at h in rw hit (ground (arith, own, eq_iff e.source x))
      | inr differ ↦ let hit = rw differ at h in ground (arith, mentioned m x e es hit own)
    ])

-- In a consistent graph a node without edge is the only kind of orphan.
edges_of-orphan :
    (g : KnowledgeGraph) (x : String)
    → IsConsistent g
    → contains x (ends (edges g)) ≡ false
    → edges_of g x ≡ []
unfolding edges edges_of
edges_of-orphan g x h free = no_source (edges_of g x) refl
  where
    no_source : (es : List Edge) → edges_of g x ≡ es → es ≡ []
    no_source [] same = refl
    no_source (e ∷ es) same =
        let own : All (λ f. f.source ≡ x) (e ∷ es) = (let filed = h.filed x in rw same at filed) in
        ground (arith, free, mentioned g.adjacency x e es same own.0)

-- Some stored edge starts or arrives at the node: what the comment of `orphans` calls referenced.
abbrev pub is_mentioned : String → Map.Map String (List Edge) → Bool
is_mentioned x = any (λ (k, es). any (λ e. e.source == x || e.target == x) es)

any-touching :
    (es : List Edge) (x : String)
    → contains x (ends es) ≡ any (λ e. e.source == x || e.target == x) es
unfolding ends
any-touching [] x = refl
any-touching (e ∷ es) x = ground (arith, any-touching es x)

contains-mentioned :
    (m : Map.Map String (List Edge)) (x : String)
    → contains x (ends (flatten (Map.values m))) ≡ is_mentioned x m
unfolding Map.values flatten ends
contains-mentioned [] x = refl
contains-mentioned ((k, es) ∷ m) x =
    rw (contains-ends es (flatten (Map.values m)) x, any-touching es x, contains-mentioned m x) refl

contains-edges :
    (g : KnowledgeGraph) (x : String) → contains x (ends (edges g)) ≡ is_mentioned x g.adjacency
unfolding edges
contains-edges g x = contains-mentioned g.adjacency x

-- In a consistent graph remove_orphans removes the nodes at which no stored edge starts or arrives,
-- keeps every other node, and keeps the edges of every node.
pub remove_orphans-keeps :
    (g : KnowledgeGraph) (x : String)
    → IsConsistent g
    → (Map.get (remove_orphans g).1.nodes x
        ≡ (if is_mentioned x g.adjacency then Map.get g.nodes x else none))
      × (edges_of (remove_orphans g).1 x ≡ edges_of g x)
unfolding remove_orphans orphans
remove_orphans-keeps g x h = rw (← contains-edges g x) (
    let keys = contains-keys g.nodes x in
    let gone = contains-keep (λ id. not (contains id (ends (edges g)))) x (Map.keys g.nodes) in
    (
      rw (get_nodes-remove_all (orphans g) g x, gone, keys) (ground arith),
      rw (edges_of-remove_all (orphans g) g x, gone, keys) (ground (arith, edges_of-orphan g x h)),
    ))

-- Whatever the graph, remove_node returns whether the node was stored, takes that node away and no
-- other, drops the node's own edges, and drops from the edges of every other node exactly those
-- that led to it.
pub remove_node-forgets :
    (g : KnowledgeGraph) (id x : String)
    → ((remove_node g id).0 ≡ is_some (Map.get g.nodes id))
      × (Map.get (remove_node g id).1.nodes x ≡ (if id == x then none else Map.get g.nodes x))
      × (edges_of (remove_node g id).1 x
          ≡ (if id == x then [] else keep (λ e. not (e.target == id)) (edges_of g x)))
unfolding remove_node
remove_node-forgets g id x = (refl, get-remove g.nodes id x, edges_of-remove_node g id x)
