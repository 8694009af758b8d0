-- ===== src/Graph/Versioning/Origin.antt =====
-- Where the nodes come from that the merge of graph/src/versioning.rs makes.
use text.Mathlib.TextEquality.{eq_iff}
use mathlib.Core.Path.{subst}
use ckos.Base.{
  ℕ, suc, String, List, [], ◌∷◌, Option, some, is_some, get_or, true, ◌||◌, ◌≡◌, refl, arith, ap,
  ◌∙◌, sym, All, ◌⊎◌, inl, inr, Bool-cases, Option-cases, ◌==◌, string_eq,
}
use ckos.Base.Map
use ckos.Graph.{Node}
use ckos.Graph.Versioning.{MergeStrategy, Merged, base_of, add_merged, merge_nodes}
use ckos.Graph.Versioning.Identity.{name_of, last_of, base_of-get_or}
use ckos.Graph.Versioning.Merging.{IsNamed, winner, resolve-winner, settled, get-add_merged}

-- The node is settled from the nodes that two indexes have for one identity.
pub record IsSettled (strategy : MergeStrategy) (ours theirs : String → Option Node) (n : Node)
    : Type 0 where
  pub ident : String
  pub id : String
  pub base : Node
  pub kept : Node
  pub won : winner strategy (ours ident) (theirs ident) ≡ some kept
  pub based : base ≡ get_or (ours ident) kept
  pub node : n ≡ settled id base kept

module _ (mint : ℕ → String) (strategy : MergeStrategy) (ours theirs : Map.Map String Node) where
  -- Every node of the graph that the loop leaves was there before, or is settled by the loop.
  pub merge_nodes-IsSettled :
      (k : ℕ) (idents : List String) (m m' : Merged)
      → All (IsNamed ours theirs) idents
      → merge_nodes mint strategy ours theirs k idents m ≡ some m'
      → (key : String) (n : Node) → Map.get m'.graph.nodes key ≡ some n
      → (Map.get m.graph.nodes key ≡ some n) ⊎ IsSettled strategy (Map.get ours) (Map.get theirs) n
  unfolding merge_nodes
  merge_nodes-IsSettled k [] m m' h done key n there =
      let same : m ≡ m' = cc in
      inl (subst (λ x. Map.get x.graph.nodes key ≡ some n) (sym same) there)
  merge_nodes-IsSettled k (ident ∷ idents) m m' h done key n there =
      let (kept, report, resolved, won) =
        resolve-winner strategy ident (Map.get ours ident) (Map.get theirs ident) m.report h.0 in
      let base = base_of (Map.get ours ident) kept in
      let next = add_merged m ident (mint k) base kept report in
      let own = get-add_merged m ident (mint k) base kept report key in
      elim (merge_nodes-IsSettled (suc k) idents next m' h.1 (rw (merge_nodes, resolved) at done)
        key n there) [
          | inr made ↦ inr made
          | inl before ↦ elim (Bool-cases (mint k == key)) [
            | inr other ↦ inl (ground (arith, own, before))
            | inl fresh ↦
                let same : settled (mint k) base kept ≡ n = ground (arith, own, before) in
                inr (record {
                  ident = ident;
                  id = mint k;
                  base = base;
                  kept = kept;
                  won = won;
                  based = base_of-get_or (Map.get ours ident) kept;
                  node = sym same;
                })
          ]
        ]

last_of-named :
    (lower : String → String) (ident : String) (ns : List Node) (n : Node)
    → last_of lower ident ns ≡ some n
    → name_of lower n ≡ ident
last_of-named lower ident [] n h = cc
last_of-named lower ident (x ∷ ns) n h = elim (Option-cases (last_of lower ident ns)) [
  | inr (later, hit) ↦ last_of-named lower ident ns n (let e = rw hit at h in cc)
  | inl miss ↦ elim (Bool-cases (name_of lower x == ident)) [
    | inr differ ↦ cc (rw (miss, differ) at h)
    | inl same ↦
        let found : some x ≡ some n = rw (miss, same) at h in
        let twin : x ≡ n = cc in
        subst (λ y. name_of lower y ≡ ident) twin ((eq_iff (name_of lower x) ident).0 same)
  ]
]

-- A settled node has the identity that it is settled for, which one of the two sides has.
pub IsSettled-named :
    (lower : String → String) (strategy : MergeStrategy) (os ts : List Node) (n : Node)
    → IsSettled strategy (λ i. last_of lower i os) (λ i. last_of lower i ts) n
    → (is_some (last_of lower (name_of lower n) os) || is_some (last_of lower (name_of lower n) ts))
      ≡ true
IsSettled-named lower strategy os ts n s =
    let of_base : name_of lower n ≡ name_of lower s.base = ap (name_of lower) s.node in
    elim (Option-cases (last_of lower s.ident os)) [
      | inr (o, hit) ↦
          let base_is : s.base ≡ o = rw hit at s.based in
          let named = last_of-named lower s.ident os o hit in
          let same : name_of lower n ≡ s.ident = of_base ∙ ap (name_of lower) base_is ∙ named in
          rw (same, hit) refl
      | inl miss ↦
          let base_is : s.base ≡ s.kept = rw miss at s.based in
          let hit : last_of lower s.ident ts ≡ some s.kept = rw miss at s.won in
          let named = last_of-named lower s.ident ts s.kept hit in
          let same : name_of lower n ≡ s.ident = of_base ∙ ap (name_of lower) base_is ∙ named in
          rw (same, miss, hit) refl
    ]
