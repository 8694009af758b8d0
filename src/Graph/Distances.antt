-- ===== src/Graph/Distances.antt =====
-- What `traverse_with_hops` of graph/src/lib.rs returns.
use mathlib.Core.Path.{subst}
use text.Mathlib.TextEquality.{eq_iff}
use ckos.Base.{
  ℕ, ◌+◌, ◌≤◌, String, List, [], ◌∷◌, true, false, some, ◌≡◌, ◌≢◌, refl, arith, inl, inr, All,
  All-mono, AnyOf, contains, ◌==◌, string_eq, Bool-cases, eq_self, leb, length,
}
use ckos.Base.Map
use ckos.Graph.{KnowledgeGraph, Node, Edge, Search, edges, traverse_with_hops}
use ckos.Graph.Walks.{Walk, here, onward, Seen, IsOngoing}
use ckos.Graph.Traversal.{unseen, search-Rounds}

-- Every entry is a node other than the start, with the length of a shortest walk to it, which the
-- bound allows; and every node other than the start that a walk within the bound reaches has an entry.
pub record IsTraversal (g : KnowledgeGraph) (start : String) (max_hops : ℕ) (out : List (Node × ℕ))
    : Type 0 where
  pub sound :
      All
        (λ r.
          (v : String) × (Map.get g.nodes v ≡ some r.0)
          × (start ≢ v)
          × Walk g start r.1 v
          × (r.1 ≤ max_hops)
          × ((k : ℕ) → Walk g start k v → r.1 ≤ k))
        out
  pub complete :
      (k : ℕ) (v : String) (n : Node)
      → Walk g start k v
      → k ≤ max_hops
      → start ≢ v
      → Map.get g.nodes v ≡ some n
      → (h : ℕ) × (h ≤ k) × AnyOf (λ r. r ≡ (n, h)) out

unseen-length : (all : List Edge) (visited : List String) → unseen all visited ≤ length all
unseen-length [] visited = omega arith
unseen-length (e ∷ es) visited = ground (arith, unseen-length es visited)

module _ (g : KnowledgeGraph) (start : String) (max_hops : ℕ) where
  -- At the end of the search, no walk within the bound is shorter than the distance.
  shortest :
      (dist : String → ℕ) (hops : ℕ) (s : Search)
      → IsOngoing g start max_hops (λ v. ⊥) dist hops s
      → s.queue ≡ []
      → {k : ℕ} {v : String} → Walk g start k v
      → k ≤ max_hops
      → Seen s v × (dist v ≤ k)
  shortest dist hops s h empty here le = (h.begun.0, omega (arith, h.begun.1))
  shortest dist hops s h empty (onward {n} {u} v w leads) le =
      let (seen, near) = shortest dist hops s h empty w (omega (arith, le)) in
      elim (h.closed u seen) [
        | inl no_ ↦ absurd no_
        | inr (inl far) ↦ absurd (omega (arith, far, near, le))
        | inr (inr (inl waits)) ↦ absurd (subst (λ q. AnyOf (λ x. x.0 ≡ u) q) empty waits)
        | inr (inr (inr done)) ↦
            let (seen', near') = done v leads in (seen', omega (arith, near, near'))
      ]

  shortest_of_all :
      (dist : String → ℕ) (hops : ℕ) (s : Search)
      → IsOngoing g start max_hops (λ v. ⊥) dist hops s
      → s.queue ≡ []
      → (v : String) → Seen s v
      → (k : ℕ) → Walk g start k v
      → dist v ≤ k
  shortest_of_all dist hops s h empty v seen k w = elim (Bool-cases (leb k max_hops)) [
    | inl near ↦ (shortest dist hops s h empty w (ground arith)).1
    | inr far ↦ ground (arith, (h.walked v seen).1)
  ]

  only : (v : String) → contains v (start ∷ []) ≡ true → start ≡ v
  only v k = ground (arith, eq_iff start v)

  other : (v : String) → start ≢ v → (start == v) ≡ false
  other v ne = elim (Bool-cases (start == v)) [
    | inl same ↦ absurd (ne ((eq_iff start v).0 same))
    | inr differ ↦ differ
  ]

  -- From every start and for every bound the search ends, within its fuel, with all nodes other than
  -- the start that a walk within the bound reaches, and no others, each with its distance.
  pub traverse_with_hops-IsTraversal :
      (out : List (Node × ℕ)) × (traverse_with_hops g start max_hops ≡ some out)
      × IsTraversal g start max_hops out
  unfolding traverse_with_hops
  traverse_with_hops-IsTraversal =
      let first : IsOngoing g start max_hops (λ v. ⊥) (λ v. 0) 0
          (record { visited = start ∷ []; out = []; queue = (start, 0) ∷ [] }) =
        record {
          begun = (rw (eq_self start) refl, refl);
          walked = λ v k. (subst (λ x. Walk g start 0 x) (only v k) here, omega arith);
          near = λ v k. omega arith;
          queued = ((rw (eq_self start) refl, refl, omega arith), tt);
          in_turn = (tt, tt);
          sound = tt;
          full = λ v n k ne e. cc (rw ne at k);
          closed = λ v k. inr (inr (inl (inl (only v k))));
        } in
      let (s, dist, hops, ran, h, empty) =
        search-Rounds g start max_hops (length (edges g) + 2) (λ v. 0) 0 (start ∷ []) []
          ((start, 0) ∷ []) first (omega (arith, unseen-length (edges g) (start ∷ []))) in
      (
        s.out,
        rw (ran, traverse_with_hops) refl,
        record {
          sound =
              All-mono _ _ s.out
                (λ r (v, seen, ne, e, d). (
                  v,
                  e,
                  (λ same. cc (ne, (eq_iff start v).1 same)),
                  rw d (h.walked v seen).0,
                  omega (arith, d, (h.walked v seen).1),
                  (λ k w. omega (arith, d, shortest_of_all dist hops s h empty v seen k w)),
                ))
                h.sound;
          complete = λ k v n w le ne e.
              let (seen, near) = shortest dist hops s h empty w le in
              (dist v, near, h.full v n seen (other v ne) e);
        },
      )
