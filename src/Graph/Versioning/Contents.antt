-- ===== src/Graph/Versioning/Contents.antt =====
-- What the merge of two branches in graph/src/versioning.rs holds.
use text.Mathlib.TextEquality.{eq_iff}
use mathlib.Core.Path.{subst}
use ckos.Base.{
  ℕ, suc, ◌≤◌, String, ◌∙◌, List, [], ◌∷◌, ◌++◌, true, false, ◌||◌, Option, none, some, is_some,
  contains, ◌≡◌, ◌≢◌, ◌⊎◌, get_or, refl, arith, All, ◌==◌, string_eq, Bool-cases, Option-cases, inl,
  inr,
}
use ckos.Base.Map
use ckos.Base.Map.{get-insert}
use ckos.Graph
use ckos.Graph.{KnowledgeGraph, Node, Edge, connect, edges}
use ckos.Graph.Removal.{contains-keys}
use ckos.Graph.Versioning.{
  MergeStrategy, MergeReport, Merged, base_of, add_merged, nothing_merged, merge_nodes, merge_edge,
  link_edge, merge_edges, merge_graphs, by_identity, identities, place_text, sort_texts, dedup,
  EdgeKey, edge_key_eq,
}
use ckos.Graph.Versioning.Identity.{
  name_of, last_of, by_identity-last_of, last_of-stored, base_of-get_or,
}
use ckos.Graph.Versioning.Origin.{merge_nodes-IsSettled, IsSettled-named}
use ckos.Graph.Versioning.Merging.{
  IsNamed, winner, resolve-winner, identities-IsNamed, settled, get-add_merged,
}

module _ (mint : ℕ → String) (fresh : (i j : ℕ) → mint i ≡ mint j → i ≡ j)
    (strategy : MergeStrategy) (ours theirs : Map.Map String Node) where
  -- The identity has a node of its own, with the kind and the label of ours, where there is one, and
  -- the attributes of the winner.
  pub record IsHeld (m : Merged) (ident : String) : Type 0 where
    pub id : String
    pub base : Node
    pub kept : Node
    pub filed : Map.get m.idmap ident ≡ some id
    pub won : winner strategy (Map.get ours ident) (Map.get theirs ident) ≡ some kept
    pub based : base ≡ base_of (Map.get ours ident) kept
    pub stored : Map.get m.graph.nodes id ≡ some (settled id base kept)

  -- What the rest of the loop leaves: the nodes under other ids, and the ids of other identities.
  record IsKept (k : ℕ) (idents : List String) (m m' : Merged) : Type 0 where
    others :
        (id : String)
        → ((j : ℕ) → k ≤ j → mint j ≢ id)
        → Map.get m'.graph.nodes id ≡ Map.get m.graph.nodes id
    mapped : (i : String) → contains i idents ≡ false → Map.get m'.idmap i ≡ Map.get m.idmap i

  merge_nodes-IsHeld :
      (k : ℕ) (idents : List String) (m : Merged)
      → All (IsNamed ours theirs) idents
      → (m' : Merged) × (merge_nodes mint strategy ours theirs k idents m ≡ some m')
        × IsKept k idents m m'
        × ((i : String) → contains i idents ≡ true → IsHeld m' i)
  unfolding merge_nodes add_merged
  merge_nodes-IsHeld k [] m h =
      (m, refl, record { others = λ id no. refl; mapped = λ i no. refl }, λ i bad. absurd (cc bad))
  merge_nodes-IsHeld k (ident ∷ idents) m h =
      let (kept, report, resolved, won) =
        resolve-winner strategy ident (Map.get ours ident) (Map.get theirs ident) m.report h.0 in
      let base = base_of (Map.get ours ident) kept in
      let next = add_merged m ident (mint k) base kept report in
      let (m', done, left, held) = merge_nodes-IsHeld (suc k) idents next h.1 in
      let own = get-add_merged m ident (mint k) base kept report in
      (
        m',
        rw (merge_nodes, resolved) done,
        record {
          others = λ id no. ground (
            arith,
            left.others id (λ j le. no j (omega (arith, le))),
            own id,
            no k (omega arith),
            eq_iff (mint k) id,
          );
          mapped = λ i no. ground (arith, no, left.mapped i, get-insert m.idmap ident i (mint k));
        },
        λ i among. elim (Bool-cases (contains i idents)) [
          | inl later ↦ held i later
          | inr never ↦
              let same : ident ≡ i = ground (arith, among, never, eq_iff ident i) in
              let last : IsHeld m' ident = record {
                id = mint k;
                base = base;
                kept = kept;
                filed = ground (
                  arith,
                  left.mapped ident (rw same never),
                  get-insert m.idmap ident ident (mint k),
                  eq_iff ident ident,
                );
                won = won;
                based = refl;
                stored = ground (
                  arith,
                  left.others (mint k) (λ j le clash. absurd (omega (arith, fresh j k clash, le))),
                  own (mint k),
                  eq_iff (mint k) (mint k),
                );
              } in
              subst (IsHeld m') same last
        ],
      )

contains-place_text :
    (x s : String) (ts : List String) → contains x (place_text s ts) ≡ (s == x) || contains x ts
unfolding place_text
contains-place_text x s [] = refl
contains-place_text x s (t ∷ ts) = ground (arith, contains-place_text x s ts)

contains-sort_texts : (x : String) (ts : List String) → contains x (sort_texts ts) ≡ contains x ts
unfolding sort_texts
contains-sort_texts x [] = refl
contains-sort_texts x (t ∷ ts) =
    ground (arith, contains-place_text x t (sort_texts ts), contains-sort_texts x ts)

contains-dedup : (x : String) (ts : List String) → contains x (dedup ts) ≡ contains x ts
unfolding dedup
contains-dedup x [] = refl
contains-dedup x (t ∷ []) = refl
contains-dedup x (t ∷ (u ∷ us)) =
    ground (arith, contains-dedup x (u ∷ us), eq_iff t u, eq_iff t x, eq_iff u x)

contains-append :
    (x : String) (xs ys : List String) → contains x (xs ++ ys) ≡ contains x xs || contains x ys
contains-append x [] ys = refl
contains-append x (z ∷ zs) ys = ground (arith, contains-append x zs ys)

contains-identities :
    (ours theirs : Map.Map String Node) (x : String)
    → contains x (identities ours theirs) ≡ is_some (Map.get ours x) || is_some (Map.get theirs x)
unfolding identities
contains-identities ours theirs x =
    rw
      (
        contains-dedup x (sort_texts (Map.keys ours ++ Map.keys theirs)),
        contains-sort_texts x (Map.keys ours ++ Map.keys theirs),
        contains-append x (Map.keys ours) (Map.keys theirs),
        contains-keys ours x,
        contains-keys theirs x,
      )
      refl

nodes-merge_edge :
    (key : EdgeKey) (nf nt : Option String) (e : Edge) (st : List EdgeKey × KnowledgeGraph)
    → (merge_edge key nf nt e st).1.nodes ≡ st.1.nodes
unfolding merge_edge connect
nodes-merge_edge key none nt e st = refl
nodes-merge_edge key (some f) none e st = refl
nodes-merge_edge key (some f) (some t) e (seen, g) = elim (Bool-cases (contains key seen)) [
  | inl known ↦ rw known refl
  | inr new_ ↦ rw new_ refl
]

nodes-link_edge :
    (lower : String → String) (src : KnowledgeGraph) (idmap : Map.Map String String) (e : Edge)
    (st : List EdgeKey × KnowledgeGraph)
    → (link_edge lower src idmap e st).1.nodes ≡ st.1.nodes
unfolding link_edge
nodes-link_edge lower src idmap e st = elim (Option-cases (Map.get src.nodes e.source)) [
  | inl miss ↦ rw (link_edge, miss) refl
  | inr (f, hit) ↦ elim (Option-cases (Map.get src.nodes e.target)) [
    | inl miss ↦ rw (link_edge, hit, miss) refl
    | inr (t, hit') ↦ rw (link_edge, hit, hit') (nodes-merge_edge _ _ _ e st)
  ]
]

nodes-merge_edges :
    (lower : String → String) (src : KnowledgeGraph) (idmap : Map.Map String String)
    (es : List Edge) (st : List EdgeKey × KnowledgeGraph)
    → (merge_edges lower src idmap es st).1.nodes ≡ st.1.nodes
unfolding merge_edges
nodes-merge_edges lower src idmap [] st = refl
nodes-merge_edges lower src idmap (e ∷ es) st =
    nodes-merge_edges lower src idmap es (link_edge lower src idmap e st)
    ∙ nodes-link_edge lower src idmap e st

-- An identity has a node of its own in the merged graph: of the last nodes of ours and of theirs with
-- that identity, it has the kind and the label of ours, where there is one, and the attributes of the
-- winner.
pub record IsMerged (lower : String → String) (strategy : MergeStrategy)
    (ours theirs merged : KnowledgeGraph) (ident : String) : Type 0 where
  pub id : String
  pub base : Node
  pub kept : Node
  pub won :
      winner strategy
        (last_of lower ident (Map.values ours.nodes))
        (last_of lower ident (Map.values theirs.nodes))
      ≡ some kept
  pub based : base ≡ get_or (last_of lower ident (Map.values ours.nodes)) kept
  pub stored : Map.get merged.nodes id ≡ some (settled id base kept)

nothing_stored : (id : String) (n : Node) → Map.get nothing_merged.graph.nodes id ≢ some n
unfolding nothing_merged Graph.new Map.get
nothing_stored id n = cc

pub merge_graphs-IsMerged :
    (lower : String → String) (mint : ℕ → String)
    → ((i j : ℕ) → mint i ≡ mint j → i ≡ j)
    → (strategy : MergeStrategy) (ours theirs : KnowledgeGraph)
    → (merged : KnowledgeGraph) × (report : MergeReport) × (merge_graphs lower mint strategy ours
          theirs
        ≡ some (merged, report))
      × ((id : String) (n : Node)
          → (Map.get ours.nodes id ≡ some n) ⊎ (Map.get theirs.nodes id ≡ some n)
          → IsMerged lower strategy ours theirs merged (name_of lower n))
      × ((id : String) (n : Node)
          → Map.get merged.nodes id ≡ some n
          → (is_some (last_of lower (name_of lower n) (Map.values ours.nodes))
              || is_some (last_of lower (name_of lower n) (Map.values theirs.nodes)))
            ≡ true)
unfolding merge_graphs
merge_graphs-IsMerged lower mint fresh strategy ours theirs =
    let o = by_identity lower (Map.values ours.nodes) [] in
    let t = by_identity lower (Map.values theirs.nodes) [] in
    let (m, done, left, held) =
      merge_nodes-IsHeld mint fresh strategy o t 0 (identities o t) nothing_merged
        (identities-IsNamed o t) in
    let mine = merge_edges lower ours m.idmap (edges ours) ([], m.graph) in
    let same =
      nodes-merge_edges lower theirs m.idmap (edges theirs) mine
      ∙ nodes-merge_edges lower ours m.idmap (edges ours) ([], m.graph) in
    (
      (merge_edges lower theirs m.idmap (edges theirs) mine).1,
      m.report,
      rw (merge_graphs, done) refl,
      (λ id n there.
          let ident = name_of lower n in
          let ours_last = by_identity-last_of lower (Map.values ours.nodes) ident in
          let theirs_last = by_identity-last_of lower (Map.values theirs.nodes) ident in
          let named : (is_some (Map.get o ident) || is_some (Map.get t ident)) ≡ true =
            rw (ours_last, theirs_last)
              (elim there [
                | inl mine ↦ rw (last_of-stored lower ours.nodes id n mine) refl
                | inr other ↦
                    (let seen = last_of-stored lower theirs.nodes id n other in
                      ground (arith, seen))
              ]) in
          let h = held ident (ground (arith, contains-identities o t ident, named)) in
          record {
            id = h.id;
            base = h.base;
            kept = h.kept;
            won = rw (← ours_last, ← theirs_last) h.won;
            based = rw (← ours_last) (h.based ∙ base_of-get_or (Map.get o ident) h.kept);
            stored = rw same h.stored;
          }),
      λ id n there.
          elim (merge_nodes-IsSettled mint strategy o t 0 (identities o t) nothing_merged m
            (identities-IsNamed o t) done id n (rw (← same) there)) [
              | inl before ↦ absurd (nothing_stored id n before)
              | inr made ↦
                  IsSettled-named lower strategy (Map.values ours.nodes) (Map.values theirs.nodes) n
                    (record {
                      ident = made.ident;
                      id = made.id;
                      base = made.base;
                      kept = made.kept;
                      won =
                          rw
                            (
                              ← by_identity-last_of lower (Map.values ours.nodes) made.ident,
                              ← by_identity-last_of lower (Map.values theirs.nodes) made.ident,
                            )
                            made.won;
                      based =
                          rw (← by_identity-last_of lower (Map.values ours.nodes) made.ident)
                            made.based;
                      node = made.node;
                    })
            ],
    )
