-- ===== src/Graph/Traversal.antt =====
-- The breadth-first search of graph/src/lib.rs visits what its walks reach, at the least distance.
use mathlib.Core.Path.{subst}
use ckos.Base.{
  ℕ, zero, suc, ◌+◌, ◌<◌, ◌≤◌, String, List, [], ◌∷◌, true, false, some, ◌≡◌, refl, arith, inl, inr,
  All, AnyOf, AnyOf-append, AnyOf-mono, contains, ◌==◌, string_eq, Bool-cases, eq_self, leb, length,
  length-append, keep, not, get_or,
}
use ckos.Base.Map
use ckos.Graph.{
  KnowledgeGraph, Node, Edge, Search, edges_of, edges, flatten, visit_edges, expand, search,
}
use ckos.Graph.Walks.{
  Walk, onward, Leads, Seen, extend, IsOngoing, visit, visit-IsOngoing, fresh_other,
}

-- How many edges of a list lead to ids that are not visited.
abbrev pub unseen : List Edge → List String → ℕ
unseen all visited = length (keep (λ e. not (contains e.target visited)) all)

unseen-le :
    (all : List Edge) (t : String) (visited : List String)
    → unseen all (t ∷ visited) ≤ unseen all visited
unseen-le [] t visited = omega arith
unseen-le (e ∷ es) t visited = ground (arith, unseen-le es t visited)

unseen-visit :
    (all : List Edge) (t : String) (visited : List String)
    → AnyOf (λ e. e.target ≡ t) all
    → contains t visited ≡ false
    → unseen all (t ∷ visited) + 1 ≤ unseen all visited
unseen-visit [] t visited h fresh = absurd h
unseen-visit (e ∷ es) t visited (inl same) fresh =
    rw (same, eq_self t, fresh) (omega (arith, unseen-le es t visited))
unseen-visit (e ∷ es) t visited (inr later) fresh =
    ground (arith, unseen-visit es t visited later fresh)

module _ (g : KnowledgeGraph) (start : String) (max_hops : ℕ) where
  -- After the edges `es`: the search goes on with more visited, none at another distance, no more work
  -- is left, and every target is visited, at most one hop further.
  record IsExpanded (Exempt : String → Type 0) (dist : String → ℕ) (hops : ℕ) (es : List Edge)
      (s s' : Search) : Type 0 where
    dist' : String → ℕ
    ongoing : IsOngoing g start max_hops Exempt dist' hops s'
    kept : (v : String) → Seen s v → Seen s' v × (dist' v ≡ dist v)
    reached : All (λ e. Seen s' e.target × (dist' e.target ≤ hops + 1)) es
    less :
        unseen (edges g) s'.visited + length s'.queue ≤ unseen (edges g) s.visited + length s.queue

  visit_edges-IsExpanded :
      (Exempt : String → Type 0) (dist : String → ℕ) (hops : ℕ) (es : List Edge) (s : Search)
      → IsOngoing g start max_hops Exempt dist hops s
      → All (λ e. Walk g start (suc hops) e.target × AnyOf (λ x. x.target ≡ e.target) (edges g)) es
      → hops + 1 ≤ max_hops
      → IsExpanded Exempt dist hops es s (visit_edges g.nodes hops es s)
  unfolding visit_edges
  visit_edges-IsExpanded Exempt dist hops [] s h ws room = record {
    dist' = dist;
    ongoing = h;
    kept = λ v k. (k, refl);
    reached = tt;
    less = omega arith;
  }
  visit_edges-IsExpanded Exempt dist hops (e ∷ es) s h ws room =
      elim (Bool-cases (contains e.target s.visited)) [
        | inl old ↦
            let rest = visit_edges-IsExpanded Exempt dist hops es s h ws.1 room in
            let (seen, same) = rest.kept e.target old in
            rw old (record {
              dist' = rest.dist';
              ongoing = rest.ongoing;
              kept = rest.kept;
              reached = ((seen, omega (arith, same, h.near e.target old)), rest.reached);
              less = rest.less;
            })
        | inr fresh ↦
            let next =
              visit-IsOngoing g start max_hops Exempt dist hops s h e.target fresh ws.0.0 room in
            let s1 = visit g start max_hops e.target hops s in
            let rest =
              visit_edges-IsExpanded Exempt (extend dist e.target (hops + 1)) hops es s1 next ws.1
                room in
            let self : Seen s1 e.target = rw (eq_self e.target) refl in
            let (seen, same) = rest.kept e.target self in
            let near = next.near e.target self in
            rw fresh (record {
              dist' = rest.dist';
              ongoing = rest.ongoing;
              kept = λ v k.
                  let differ : (e.target == v) ≡ false =
                    fresh_other g start max_hops s.visited e.target v fresh k in
                  let k1 : Seen s1 v = rw differ k in
                  let (k2, d) = rest.kept v k1 in (k2, rw differ at d);
              reached = ((seen, omega (arith, same, near)), rest.reached);
              less = omega (
                arith,
                rest.less,
                unseen-visit (edges g) e.target s.visited ws.0.1 fresh,
                length-append s.queue ((e.target, hops + 1) ∷ []),
              );
            })
      ]

  -- Nothing is exempt between the rounds.
  abbrev pub Rounds : (String → ℕ) → ℕ → Search → Type 0
  Rounds = IsOngoing g start max_hops (λ v. ⊥)

  edge_of_leads :
      (es : List Edge) (P : Edge → Type 0) (Q : String → Type 0) (w : String)
      → All P es
      → ((e : Edge) → P e → Q e.target)
      → AnyOf (λ e. e.target ≡ w) es
      → Q w
  edge_of_leads [] P Q w h f k = absurd k
  edge_of_leads (e ∷ es) P Q w h f (inl same) = subst Q same (f e h.0)
  edge_of_leads (e ∷ es) P Q w h f (inr later) = edge_of_leads es P Q w h.1 f later

  -- A popped id is exempt until its edges are looked at.
  popped :
      (dist : String → ℕ) (hops : ℕ) (visited : List String) (out : List (Node × ℕ)) (id : String)
      (at : ℕ) (rest : List (String × ℕ))
      → Rounds dist hops (record { visited = visited; out = out; queue = (id, at) ∷ rest })
      → IsOngoing g start max_hops
          (λ v. id ≡ v)
          dist
          at
          (record { visited = visited; out = out; queue = rest })
  popped dist hops visited out id at rest h = record {
    begun = h.begun;
    walked = h.walked;
    near = λ v k. omega (arith, h.near v k, h.queued.0.2);
    queued = both rest h.queued.1 h.in_turn.0;
    in_turn = h.in_turn.1;
    sound = h.sound;
    full = h.full;
    closed = λ v k. elim (h.closed v k) [
      | inl no_ ↦ absurd no_
      | inr (inl far) ↦ inr (inl far)
      | inr (inr (inl (inl here_))) ↦ inl here_
      | inr (inr (inl (inr later))) ↦ inr (inr (inl later))
      | inr (inr (inr done)) ↦ inr (inr (inr done))
    ];
  }
    where
      both :
          (q : List (String × ℕ))
          → All (λ x. (contains x.0 visited ≡ true) × (dist x.0 ≡ x.1) × (hops ≤ x.1)) q
          → All (λ x. at ≤ x.1) q
          → All (λ x. (contains x.0 visited ≡ true) × (dist x.0 ≡ x.1) × (at ≤ x.1)) q
      both [] a b = tt
      both (x ∷ q) a b = ((a.0.0, a.0.1, b.0), both q a.1 b.1)

  closed_too_far :
      (dist : String → ℕ) (at : ℕ) (s : Search) (id : String)
      → IsOngoing g start max_hops (λ v. id ≡ v) dist at s
      → max_hops ≤ dist id
      → Rounds dist at s
  closed_too_far dist at s id h far = record {
    begun = h.begun;
    walked = h.walked;
    near = h.near;
    queued = h.queued;
    in_turn = h.in_turn;
    sound = h.sound;
    full = h.full;
    closed = λ v k. elim (h.closed v k) [
      | inl same ↦ inr (inl (subst (λ x. max_hops ≤ dist x) same far))
      | inr other ↦ inr other
    ];
  }

  closed_expanded :
      (dist : String → ℕ) (at : ℕ) (s : Search) (id : String)
      → IsOngoing g start max_hops (λ v. id ≡ v) dist at s
      → dist id ≡ at
      → All (λ e. Seen s e.target × (dist e.target ≤ at + 1)) (edges_of g id)
      → Rounds dist at s
  closed_expanded dist at s id h own reached = record {
    begun = h.begun;
    walked = h.walked;
    near = h.near;
    queued = h.queued;
    in_turn = h.in_turn;
    sound = h.sound;
    full = h.full;
    closed = λ v k. elim (h.closed v k) [
      | inl same ↦ inr (
          inr (
            inr (λ x l.
              subst (λ y. Leads g y x → Seen s x × (dist x ≤ dist y + 1)) same
                (edge_of_leads (edges_of g id) _ (λ y. Seen s y × (dist y ≤ dist id + 1)) x reached
                  (λ e (seen, le). (seen, omega (arith, le, own))))
                l)))
      | inr other ↦ inr other
    ];
  }

  flatten-get :
      (m : List (String × List Edge)) (id : String) (P : Edge → Type 0)
      → AnyOf P (get_or (Map.get m id) [])
      → AnyOf P (flatten (Map.values m))
  unfolding flatten Map.values Map.get
  flatten-get [] id P h = absurd h
  flatten-get ((j, es) ∷ m) id P h = elim (Bool-cases (j == id)) [
    | inl same ↦ (AnyOf-append P es (flatten (Map.values m))).1 (inl (rw same at h))
    | inr differ ↦
        (AnyOf-append P es (flatten (Map.values m))).1 (inr (flatten-get m id P (rw differ at h)))
  ]

  -- The targets of an id that a walk reaches are reached by a longer one.
  leads-All :
      (n : ℕ) (u : String) (es : List Edge)
      → Walk g start n u
      → ((e : Edge) → AnyOf (λ x. x ≡ e) es → AnyOf (λ x. x ≡ e) (edges_of g u))
      → All (λ e. Walk g start (suc n) e.target × AnyOf (λ x. x.target ≡ e.target) (edges g)) es
  unfolding edges edges_of
  leads-All n u [] w sub = tt
  leads-All n u (e ∷ es) w sub =
      let there =
        AnyOf-mono (λ x. x ≡ e) (λ x. x.target ≡ e.target) (edges_of g u) (λ x same. rw same refl)
          (sub e (inl refl)) in
      (
        (onward e.target w there, flatten-get g.adjacency u (λ x. x.target ≡ e.target) there),
        leads-All n u es w (λ x k. sub x (inr k)),
      )

  -- The search ends with nothing queued, if the fuel is more than the work.
  pub search-Rounds :
      (fuel : ℕ) (dist : String → ℕ) (hops : ℕ) (visited : List String) (out : List (Node × ℕ))
      (queue : List (String × ℕ))
      → Rounds dist hops (record { visited = visited; out = out; queue = queue })
      → unseen (edges g) visited + length queue < fuel
      → (s : Search) × (dist' : String → ℕ) × (hops' : ℕ) × (search g max_hops fuel
            (record { visited = visited; out = out; queue = queue })
          ≡ some s)
        × Rounds dist' hops' s
        × (s.queue ≡ [])
  unfolding search expand
  search-Rounds zero dist hops visited out queue h less = absurd (omega arith)
  search-Rounds (suc fuel) dist hops visited out [] h less = (_, dist, hops, refl, h, refl)
  search-Rounds (suc fuel) dist hops visited out ((id, at) ∷ rest) h less =
      let s0 : Search = record { visited = visited; out = out; queue = rest } in
      let h0 = popped dist hops visited out id at rest h in
      let own : dist id ≡ at = h.queued.0.1 in
      elim (Bool-cases (leb max_hops at)) [
        | inl far ↦ rw far (
            search-Rounds fuel dist at visited out rest
              (closed_too_far dist at s0 id h0 (ground (arith, own))) (omega (arith, less)))
        | inr near ↦
            let w : Walk g start at id = rw own at (h.walked id h.queued.0.0).0 in
            let x =
              visit_edges-IsExpanded (λ v. id ≡ v) dist at (edges_of g id) s0 h0
                (leads-All at id (edges_of g id) w (λ e k. k)) (ground arith) in
            let s1 = visit_edges g.nodes at (edges_of g id) s0 in
            let own' : x.dist' id ≡ at = omega (arith, own, (x.kept id h.queued.0.0).1) in
            let next = closed_expanded x.dist' at s1 id x.ongoing own' x.reached in
            rw near (
              search-Rounds fuel x.dist' at s1.visited s1.out s1.queue next
                (omega (arith, less, x.less)))
      ]
