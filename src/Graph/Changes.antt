-- ===== src/Graph/Changes.antt =====
-- The changes of the knowledge graph of graph/src/lib.rs keep it consistent.
use text.Mathlib.TextEquality.{eq_iff}
use ckos.Base.{
  ℕ, String, List, [], ◌∷◌, Bool, true, not, Option, none, some, is_some, get_or, ◌≡◌, refl, arith,
  inl, inr, All, All-append, ◌==◌, string_eq, if◌then◌else◌, keep, Bool-cases, Option-cases,
}
use ckos.Base.Map
use ckos.Base.Map.{get-insert, get-remove, get-map_values}
use ckos.Graph.{
  KnowledgeGraph, Node, NodeKind, Edge, EdgeKind, edges_of, ensure, insert, add_node, update_node,
  bump_confidence, set_date, set_provenance, connect, remove_node, remove_edge, new, remove_all,
  orphans, remove_orphans,
}

-- Every node is stored under its own id and has an entry for its edges, and every edge stands under
-- its source.
pub record IsConsistent (g : KnowledgeGraph) : Type 0 where
  pub keyed : (id : String) (n : Node) → Map.get g.nodes id ≡ some n → n.id ≡ id
  pub entered :
      (id : String) → is_some (Map.get g.nodes id) ≡ true → is_some (Map.get g.adjacency id) ≡ true
  pub filed : (id : String) → All (λ e. e.source ≡ id) (edges_of g id)

All-keep : (P : Edge → Type 0) (p : Edge → Bool) (es : List Edge) → All P es → All P (keep p es)
All-keep P p [] h = tt
All-keep P p (e ∷ es) h = elim (Bool-cases (p e)) [
  | inl stays ↦ rw stays (h.0, All-keep P p es h.1)
  | inr goes ↦ rw goes (All-keep P p es h.1)
]

-- Looking up after `entry(id).or_default()`.
ensure-edges :
    (m : Map.Map String (List Edge)) (id j : String)
    → get_or (Map.get (ensure m id) j) [] ≡ get_or (Map.get m j) []
unfolding ensure
ensure-edges m id j = elim (Bool-cases (is_some (Map.get m id))) [
  | inl known ↦ rw known refl
  | inr new_ ↦ rw (new_, get-insert m id j []) (ground (arith, eq_iff id j))
]

is_some-ensure :
    (m : Map.Map String (List Edge)) (id j : String)
    → is_some (Map.get (ensure m id) j) ≡ (if id == j then true else is_some (Map.get m j))
unfolding ensure
is_some-ensure m id j = elim (Bool-cases (is_some (Map.get m id))) [
  | inl known ↦ rw known (ground (arith, eq_iff id j))
  | inr new_ ↦ rw (new_, get-insert m id j []) (ground arith)
]

pub insert-IsConsistent :
    (g : KnowledgeGraph) (n : Node) → IsConsistent g → IsConsistent (insert g n)
unfolding insert edges_of
insert-IsConsistent g n h = record {
  keyed = λ id m e.
      ground (arith, rw (get-insert g.nodes n.id id n) at e, h.keyed id m, eq_iff n.id id);
  entered = λ id k. ground (
    arith,
    rw (get-insert g.nodes n.id id n) at k,
    is_some-ensure g.adjacency n.id id,
    h.entered id,
  );
  filed = λ id. rw (ensure-edges g.adjacency n.id id) (h.filed id);
}

update_node-IsConsistent :
    (g : KnowledgeGraph) (id : String) (f : Node → Node)
    → ((n : Node) → (f n).id ≡ n.id)
    → IsConsistent g
    → IsConsistent (update_node g id f)
unfolding update_node edges_of
update_node-IsConsistent g id f same h = elim (Option-cases (Map.get g.nodes id)) [
  | inl miss ↦ rw (miss, update_node) h
  | inr (n, hit) ↦
      rw (hit, update_node)
        (record {
          keyed = λ j m e. ground (
            arith,
            rw (get-insert g.nodes id j (f n)) at e,
            h.keyed j m,
            h.keyed id n hit,
            same n,
            eq_iff id j,
          );
          entered = λ j k.
              ground
                (arith, rw (get-insert g.nodes id j (f n)) at k, hit, h.entered j, eq_iff id j);
          filed = h.filed;
        })
]

connect-IsConsistent :
    (g : KnowledgeGraph) (source target : String) (kind : EdgeKind)
    → IsConsistent g
    → IsConsistent (connect g source target kind)
unfolding connect edges_of
connect-IsConsistent g source target kind h = record {
  keyed = h.keyed;
  entered = λ j k. rw (get-insert g.adjacency source j _) (ground (arith, h.entered j k));
  filed = λ j. rw (get-insert g.adjacency source j _) (elim (Bool-cases (source == j)) [
    | inl same ↦
        let e : source ≡ j = (eq_iff source j).0 same in
        rw (same, ← e)
          (All-append (λ x. x.source ≡ source) (get_or (Map.get g.adjacency source) []) _
            (h.filed source) (refl, tt))
    | inr differ ↦ rw differ (h.filed j)
  ]);
}

remove_edge-IsConsistent :
    (g : KnowledgeGraph) (source target : String) (kind : EdgeKind)
    → IsConsistent g
    → IsConsistent (remove_edge g source target kind).1
unfolding remove_edge edges_of
remove_edge-IsConsistent g source target kind h = elim (Option-cases (Map.get g.adjacency source)) [
  | inl miss ↦ rw (miss, remove_edge) h
  | inr (es, hit) ↦
      let own : All (λ e. e.source ≡ source) es = (let mine = h.filed source in rw hit at mine) in
      rw (hit, remove_edge)
        (record {
          keyed = h.keyed;
          entered = λ j k. rw (get-insert g.adjacency source j _) (ground (arith, h.entered j k));
          filed = λ j. rw (get-insert g.adjacency source j _) (elim (Bool-cases (source == j)) [
            | inl same ↦
                let e : source ≡ j = (eq_iff source j).0 same in
                rw (same, ← e) (All-keep (λ x. x.source ≡ source) _ es own)
            | inr differ ↦ rw differ (h.filed j)
          ]);
        })
]

-- After `remove_node` the node has no edges, and the others have lost those that led to it.
pub edges_of-remove_node :
    (g : KnowledgeGraph) (id j : String)
    → edges_of (remove_node g id).1 j
      ≡ (if id == j then [] else keep (λ e. not (e.target == id)) (edges_of g j))
unfolding remove_node edges_of
edges_of-remove_node g id j =
    rw
      (
        get-map_values (λ (es : List Edge). keep (λ e. not (e.target == id)) es)
            (Map.remove g.adjacency id) j,
        get-remove g.adjacency id j,
      )
      (elim (Bool-cases (id == j)) [
        | inl same ↦ rw same refl
        | inr differ ↦ rw differ (elim (Option-cases (Map.get g.adjacency j)) [
          | inl miss ↦ rw miss refl
          | inr (es, hit) ↦ rw hit refl
        ])
      ])

lost :
    (f : List Edge → List Edge) (id j : String) (n : Option Node) (es : Option (List Edge))
    → (is_some n ≡ true → is_some es ≡ true)
    → is_some (if id == j then none else n) ≡ true
    → is_some (elim (if id == j then none else es) [ none ↦ none | some v ↦ some (f v) ]) ≡ true
lost f id j n es h k = elim (Bool-cases (id == j)) [
  | inl same ↦ rw same (let bad = k in rw same at bad)
  | inr differ ↦ rw differ (elim (Option-cases es) [
    | inl miss ↦ rw miss (
        let kept : is_some n ≡ true = (let bad = k in rw differ at bad) in
        let e = h kept in rw miss at e)
    | inr (v, hit) ↦ rw hit refl
  ])
]

remove_node-IsConsistent :
    (g : KnowledgeGraph) (id : String) → IsConsistent g → IsConsistent (remove_node g id).1
unfolding remove_node
remove_node-IsConsistent g id h = record {
  keyed = λ j m e. ground (arith, rw (get-remove g.nodes id j) at e, h.keyed j m);
  entered = λ j k.
      rw
        (
          get-map_values (λ (es : List Edge). keep (λ e. not (e.target == id)) es)
              (Map.remove g.adjacency id) j,
          get-remove g.adjacency id j,
        )
        (lost _ id j (Map.get g.nodes j) (Map.get g.adjacency j) (h.entered j)
          (rw (get-remove g.nodes id j) at k));
  filed = λ j. rw (edges_of-remove_node g id j) (elim (Bool-cases (id == j)) [
    | inl same ↦ rw same tt
    | inr differ ↦ rw differ (All-keep (λ x. x.source ≡ j) _ (edges_of g j) (h.filed j))
  ]);
}

remove_all-IsConsistent :
    (ids : List String) (g : KnowledgeGraph) → IsConsistent g → IsConsistent (remove_all ids g)
unfolding remove_all edges_of
remove_all-IsConsistent [] g h = h
remove_all-IsConsistent (id ∷ ids) g h = remove_all-IsConsistent ids _ (record {
  keyed = λ j m e. ground (arith, rw (get-remove g.nodes id j) at e, h.keyed j m);
  entered = λ j k.
      rw (get-remove g.adjacency id j)
        (ground (arith, rw (get-remove g.nodes id j) at k, h.entered j));
  filed = λ j.
      rw (get-remove g.adjacency id j) (elim (Bool-cases (id == j)) [
        | inl same ↦ rw same tt
        | inr differ ↦ rw differ (h.filed j)
      ]);
})

-- One call of an operation that changes the graph.
pub data Change : Type 0 where
  add : (id : String) (kind : NodeKind) (label : String) (confidence : ℕ) → Change
  store : (node : Node) → Change
  raise : (id : String) (floor : ℕ) → Change
  date : (id : String) (day : String) → Change
  credit : (id : String) (source : String) → Change
  link : (source : String) (target : String) (kind : EdgeKind) → Change
  drop_node : (id : String) → Change
  drop_edge : (source : String) (target : String) (kind : EdgeKind) → Change
  drop_orphans : Change

unfoldable pub apply : Change → KnowledgeGraph → KnowledgeGraph
apply (add id kind label confidence) g = add_node g id kind label confidence
apply (store node) g = insert g node
apply (raise id floor) g = bump_confidence g id floor
apply (date id day) g = set_date g id day
apply (credit id source) g = set_provenance g id source
apply (link source target kind) g = connect g source target kind
apply (drop_node id) g = (remove_node g id).1
apply (drop_edge source target kind) g = (remove_edge g source target kind).1
apply drop_orphans g = (remove_orphans g).1

unfoldable pub apply_all : List Change → KnowledgeGraph → KnowledgeGraph
unfolding apply
apply_all [] g = g
apply_all (c ∷ cs) g = apply_all cs (apply c g)

apply-IsConsistent : (c : Change) (g : KnowledgeGraph) → IsConsistent g → IsConsistent (apply c g)
unfolding apply add_node bump_confidence set_date set_provenance remove_orphans
apply-IsConsistent (add id kind label confidence) g h = insert-IsConsistent g _ h
apply-IsConsistent (store node) g h = insert-IsConsistent g node h
apply-IsConsistent (raise id floor) g h = update_node-IsConsistent g id _ (λ n. refl) h
apply-IsConsistent (date id day) g h = update_node-IsConsistent g id _ (λ n. refl) h
apply-IsConsistent (credit id source) g h = update_node-IsConsistent g id _ (λ n. refl) h
apply-IsConsistent (link source target kind) g h = connect-IsConsistent g source target kind h
apply-IsConsistent (drop_node id) g h = remove_node-IsConsistent g id h
apply-IsConsistent (drop_edge source target kind) g h =
    remove_edge-IsConsistent g source target kind h
apply-IsConsistent drop_orphans g h = remove_all-IsConsistent (orphans g) g h

-- From a consistent graph every sequence of calls of add_node, insert, bump_confidence, set_date,
-- set_provenance, connect, remove_node, remove_edge and remove_orphans leads to a consistent graph.
pub apply_all-IsConsistent :
    (cs : List Change) (g : KnowledgeGraph) → IsConsistent g → IsConsistent (apply_all cs g)
unfolding apply_all
apply_all-IsConsistent [] g h = h
apply_all-IsConsistent (c ∷ cs) g h =
    apply_all-IsConsistent cs (apply c g) (apply-IsConsistent c g h)

pub new-IsConsistent : IsConsistent new
unfolding new edges_of Map.get
new-IsConsistent = record {
  keyed = λ id n e. ground (arith, e);
  entered = λ id k. ground (arith, k);
  filed = λ id. tt;
}
