-- ===== src/Graph/Versioning.antt =====
-- graph/src/versioning.rs: versions of the knowledge graph, branches, and the merge of two branches.
-- A version id is an index; `none` is a panic, or a lack of fuel in `log`. The ids of merged nodes
-- are given by `mint`, and the lower-casing of texts is `lower`.
pub mod History
pub mod Commits
pub mod Identity
pub mod Merging
pub mod Origin
pub mod Contents
pub mod Operations
use ckos.Base.{
  ℕ, zero, suc, ◌+◌, String, List, [], ◌∷◌, ◌++◌, Bool, true, false, not, ◌&&◌, ◌||◌, Option, none,
  some, is_some, ltb, if◌then◌else◌, length, get_elem?, contains, Eq, ◌↔◌, ◌≡◌, arith, ◌==◌,
  string_eq, nat_eq, text_ltb, concat,
}
use ckos.Base.Map
use ckos.Base.Map.{Map}
use ckos.Graph.{
  KnowledgeGraph, Node, Edge, kind_token, edge_token, add_node, set_date, set_provenance, connect,
  edges,
}
use ckos.Graph

pub data MergeStrategy : Type 0 where
  prefer_ours prefer_theirs higher_confidence : MergeStrategy

pub record MergeConflict : Type 0 where
  pub identity : String
  pub ours_confidence : ℕ
  pub theirs_confidence : ℕ
  pub resolved_confidence : ℕ

pub record MergeReport : Type 0 where
  pub conflicts : List MergeConflict
  pub added_from_theirs : ℕ

pub record Version : Type 0 where
  pub id : ℕ
  pub parent : Option ℕ
  pub graph : KnowledgeGraph

pub record GraphRepo : Type 0 where
  pub versions : List Version
  pub branches : Map String ℕ
  pub current : String

unfoldable pub new : GraphRepo
new = record {
  versions = (record { id = 0; parent = none; graph = Graph.new }) ∷ [];
  branches = ("main", 0) ∷ [];
  current = "main";
}

-- `self.branches[&self.current]`
unfoldable pub head_id : GraphRepo → Option ℕ
head_id repo = Map.get repo.branches repo.current

unfoldable pub graph_at : List Version → ℕ → Option KnowledgeGraph
graph_at versions id = elim (get_elem? versions id) [ none ↦ none | some v ↦ some v.graph ]

unfoldable pub head : GraphRepo → Option KnowledgeGraph
unfolding head_id graph_at
head repo = elim (head_id repo) [ none ↦ none | some id ↦ graph_at repo.versions id ]

unfoldable pub commit : GraphRepo → KnowledgeGraph → Option (ℕ × GraphRepo)
unfolding head_id
commit repo graph =
    let id = length repo.versions in
    elim (head_id repo) [
      | none ↦ none
      | some parent ↦ some (
        id,
        record repo {
          versions =
              repo.versions ++ (record { id = id; parent = some parent; graph = graph }) ∷ [];
          branches = Map.insert repo.branches repo.current id;
        },
      )
    ]

unfoldable pub branch : GraphRepo → String → Option GraphRepo
unfolding head_id
branch repo name = elim (head_id repo) [
  | none ↦ none
  | some id ↦ some (record repo { branches = Map.insert repo.branches name id })
]

unfoldable pub checkout : GraphRepo → String → Bool × GraphRepo
checkout repo name =
    if is_some (Map.get repo.branches name)
    then (true, record repo { current = name })
    else (false, repo)

-- the loop over the ancestors
unfoldable pub ancestors : ℕ → List Version → ℕ → Option (List ℕ)
ancestors zero versions id = none
ancestors (suc fuel) versions id = elim (get_elem? versions id) [
  | none ↦ none
  | some v ↦ elim v.parent [
    | none ↦ some (id ∷ [])
    | some p ↦ elim (ancestors fuel versions p) [ none ↦ none | some rest ↦ some (id ∷ rest) ]
  ]
]

-- no chain is longer than there are versions
unfoldable pub log : GraphRepo → Option (List ℕ)
unfolding head_id ancestors
log repo = elim (head_id repo) [
  | none ↦ none
  | some id ↦ ancestors (length repo.versions) repo.versions id
]

unfoldable pub place_text : String → List String → List String
place_text s [] = s ∷ []
place_text s (t ∷ ts) = let rest = place_text s ts in if text_ltb t s then t ∷ rest else s ∷ t ∷ ts

unfoldable pub sort_texts : List String → List String
unfolding place_text
sort_texts [] = []
sort_texts (s ∷ ss) = place_text s (sort_texts ss)

-- `Vec::dedup`: of equal neighbours the first is kept
unfoldable pub dedup : List String → List String
dedup [] = []
dedup (s ∷ []) = s ∷ []
dedup (s ∷ (t ∷ ts)) = let rest = dedup (t ∷ ts) in if s == t then rest else s ∷ rest

unfoldable pub identities : Map String Node → Map String Node → List String
unfolding dedup sort_texts
identities ours theirs = dedup (sort_texts (Map.keys ours ++ Map.keys theirs))

-- `Option`'s derived equality on texts
unfoldable pub same_text : Option String → Option String → Bool
same_text none none = true
same_text (some s) (some t) = s == t
same_text _ _ = false

unfoldable pub picks_theirs : MergeStrategy → Node → Node → Bool
picks_theirs prefer_ours o t = false
picks_theirs prefer_theirs o t = true
picks_theirs higher_confidence o t = ltb o.confidence t.confidence

unfoldable pub differ : Node → Node → Bool
unfolding same_text
differ o t =
    not (o.confidence == t.confidence)
    || not (same_text o.date t.date)
    || not (same_text o.provenance t.provenance)

-- the node whose attributes are kept, and the report
unfoldable pub resolve :
    MergeStrategy → String → Option Node → Option Node → MergeReport → Option (Node × MergeReport)
unfolding picks_theirs differ
resolve strategy ident none none report = none
resolve strategy ident (some o) none report = some (o, report)
resolve strategy ident none (some t) report =
    some (t, record report { added_from_theirs = report.added_from_theirs + 1 })
resolve strategy ident (some o) (some t) report =
    let chosen = if picks_theirs strategy o t then t else o in
    some (
      chosen,
      if differ o t
          then record report {
            conflicts =
                report.conflicts
                ++ (record {
                  identity = ident;
                  ours_confidence = o.confidence;
                  theirs_confidence = t.confidence;
                  resolved_confidence = chosen.confidence;
                })
                  ∷ [];
          }
          else report,
    )

-- `o.or(t)`
unfoldable pub base_of : Option Node → Node → Node
base_of none t = t
base_of (some o) t = o

unfoldable pub with_date : KnowledgeGraph → String → Option String → KnowledgeGraph
with_date g id none = g
with_date g id (some d) = set_date g id d

unfoldable pub with_provenance : KnowledgeGraph → String → Option String → KnowledgeGraph
with_provenance g id none = g
with_provenance g id (some p) = set_provenance g id p

-- The graph that is built, the ids of its nodes by identity, and the report.
pub record Merged : Type 0 where
  pub graph : KnowledgeGraph
  pub idmap : Map String String
  pub report : MergeReport

unfoldable pub nothing_merged : Merged
nothing_merged = record {
  graph = Graph.new;
  idmap = [];
  report = record { conflicts = []; added_from_theirs = 0 };
}

-- `base` gives the kind and the label, `chosen` the attributes
unfoldable pub add_merged : Merged → String → String → Node → Node → MergeReport → Merged
unfolding with_date with_provenance
add_merged m ident id base chosen report = record {
  graph =
      with_provenance
        (with_date (add_node m.graph id base.kind base.label chosen.confidence) id chosen.date) id
        chosen.provenance;
  idmap = Map.insert m.idmap ident id;
  report = report;
}

-- the loop over the identities
unfoldable pub merge_nodes :
    (ℕ → String)
    → MergeStrategy
    → Map String Node
    → Map String Node
    → ℕ
    → List String
    → Merged
    → Option Merged
unfolding resolve base_of add_merged
merge_nodes mint strategy ours theirs k [] m = some m
merge_nodes mint strategy ours theirs k (ident ∷ idents) m =
    let o = Map.get ours ident in
    elim (resolve strategy ident o (Map.get theirs ident) m.report) [
      | none ↦ none
      | some (chosen, report) ↦
          merge_nodes mint strategy ours theirs (suc k) idents
            (add_merged m ident (mint k) (base_of o chosen) chosen report)
    ]

-- `(fid, tid, token)`
pub record EdgeKey : Type 0 where
  pub source : String
  pub target : String
  pub token : String

abbrev pub edge_key_beq : EdgeKey → EdgeKey → Bool
edge_key_beq a b = (a.source == b.source) && (a.target == b.target) && (a.token == b.token)

pub edge_key_beq_iff : (a b : EdgeKey) → (edge_key_beq a b ≡ true) ↔ (a ≡ b)
edge_key_beq_iff a b = ground (
  arith,
  string_eq.decides a.source b.source,
  string_eq.decides a.target b.target,
  string_eq.decides a.token b.token,
)

instance abbrev pub edge_key_eq : Eq EdgeKey
edge_key_eq = record { test = edge_key_beq; decides = edge_key_beq_iff }

-- one edge between nodes that have an id in the merged graph, if its key is new
unfoldable pub merge_edge :
    EdgeKey
    → Option String
    → Option String
    → Edge
    → List EdgeKey × KnowledgeGraph
    → List EdgeKey × KnowledgeGraph
merge_edge key (some nf) (some nt) e (seen, g) =
    if contains key seen then (seen, g) else (key ∷ seen, connect g nf nt e.kind)
merge_edge key _ _ e st = st

module _ (lower : String → String) where
  unfoldable pub identity : Node → String
  identity node = concat (kind_token lower node.kind ∷ ":" ∷ lower node.label ∷ [])

  -- `nodes().map(…).collect()`: of equal identities the last is kept
  unfoldable pub by_identity : List Node → Map String Node → Map String Node
  unfolding identity
  by_identity [] m = m
  by_identity (n ∷ ns) m = by_identity ns (Map.insert m (identity n) n)

  -- the body of the loops over the edges
  unfoldable pub link_edge :
      KnowledgeGraph
      → Map String String
      → Edge
      → List EdgeKey × KnowledgeGraph
      → List EdgeKey × KnowledgeGraph
  unfolding identity merge_edge
  link_edge src idmap e st = elim (Map.get src.nodes e.source) [
    | none ↦ st
    | some from ↦ elim (Map.get src.nodes e.target) [
      | none ↦ st
      | some to ↦
          let key : EdgeKey = record {
            source = identity from;
            target = identity to;
            token = edge_token lower e.kind;
          } in
          merge_edge key (Map.get idmap key.source) (Map.get idmap key.target) e st
    ]
  ]

  unfoldable pub merge_edges :
      KnowledgeGraph
      → Map String String
      → List Edge
      → List EdgeKey × KnowledgeGraph
      → List EdgeKey × KnowledgeGraph
  unfolding link_edge
  merge_edges src idmap [] st = st
  merge_edges src idmap (e ∷ es) st = merge_edges src idmap es (link_edge src idmap e st)

  -- the merge of two graphs
  unfoldable pub merge_graphs :
      (ℕ → String)
      → MergeStrategy
      → KnowledgeGraph
      → KnowledgeGraph
      → Option (KnowledgeGraph × MergeReport)
  unfolding by_identity identities nothing_merged merge_nodes merge_edges
  merge_graphs mint strategy ours theirs =
      let ours_nodes = by_identity (Map.values ours.nodes) [] in
      let theirs_nodes = by_identity (Map.values theirs.nodes) [] in
      elim (merge_nodes mint strategy ours_nodes theirs_nodes 0 (identities ours_nodes theirs_nodes)
        nothing_merged) [
          | none ↦ none
          | some m ↦ some (
            (merge_edges theirs m.idmap (edges theirs)
                (merge_edges ours m.idmap (edges ours) ([], m.graph))).1,
            m.report,
          )
        ]

  unfoldable pub merge :
      (ℕ → String) → GraphRepo → String → MergeStrategy → Option (Option MergeReport × GraphRepo)
  unfolding merge_graphs commit head graph_at
  merge mint repo other strategy = elim (Map.get repo.branches other) [
    | none ↦ some (none, repo)
    | some other_id ↦ elim (head repo) [
      | none ↦ none
      | some ours ↦ elim (graph_at repo.versions other_id) [
        | none ↦ none
        | some theirs ↦ elim (merge_graphs mint strategy ours theirs) [
          | none ↦ none
          | some (merged, report) ↦ elim (commit repo merged) [
            | none ↦ none
            | some (id, repo') ↦ some (some report, repo')
          ]
        ]
      ]
    ]
  ]
