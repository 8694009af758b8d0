-- ===== src/Graph/Walks.antt =====
-- Walks in the knowledge graph of graph/src/lib.rs, and what holds during its breadth-first search.
use text.Mathlib.TextEquality.{eq_iff}
use ckos.Base.{
  ℕ, suc, ◌+◌, ◌≤◌, String, List, [], ◌∷◌, ◌++◌, true, false, Option, none, some, ◌≡◌, refl, arith,
  ◌⊎◌, inl, inr, All, All-append, All-mono, AnyOf, AnyOf-append, contains, ◌==◌, string_eq,
  if◌then◌else◌, Bool-cases, eq_self,
}
use mathlib.Core.Path.{subst}
use ckos.Base.Map
use ckos.Graph.{KnowledgeGraph, Node, Search, edges_of, report}

-- An edge of the graph leads from one id to the other.
abbrev pub Leads : KnowledgeGraph → String → String → Type 0
Leads g u v = AnyOf (λ e. e.target ≡ v) (edges_of g u)

-- The walks from an id, by their length.
pub data Walk (g : KnowledgeGraph) (start : String) : ℕ → String → Type 0 where
  here : Walk g start 0 start
  onward :
      {n : ℕ} {u : String} (v : String) → Walk g start n u → Leads g u v → Walk g start (suc n) v

abbrev pub Seen : Search → String → Type 0
Seen s v = contains v s.visited ≡ true

-- Hops do not fall along the queue.
abbrev pub InTurn : List (String × ℕ) → Type 0
InTurn [] = Unit
InTurn (x ∷ q) = All (λ y. x.1 ≤ y.1) q × InTurn q

-- The distances with one more.
abbrev pub extend : (String → ℕ) → String → ℕ → String → ℕ
extend dist t n v = if t == v then n else dist v

module _ (g : KnowledgeGraph) (start : String) (max_hops : ℕ) where
  -- What is known of the search while ids at `hops` are expanded, with `dist` the distance of each
  -- visited id: it is the length of a walk, the queue stands in turn, what is reported is what was
  -- visited, and the successors of a visited id are visited unless it is exempt, queued or too far.
  pub record IsOngoing (Exempt : String → Type 0) (dist : String → ℕ) (hops : ℕ) (s : Search)
      : Type 0 where
    pub begun : Seen s start × (dist start ≡ 0)
    pub walked : (v : String) → Seen s v → Walk g start (dist v) v × (dist v ≤ max_hops)
    pub near : (v : String) → Seen s v → dist v ≤ hops + 1
    pub queued : All (λ q. Seen s q.0 × (dist q.0 ≡ q.1) × (hops ≤ q.1)) s.queue
    pub in_turn : InTurn s.queue
    pub sound :
        All
          (λ r.
            (v : String) × Seen s v
            × ((start == v) ≡ false)
            × (Map.get g.nodes v ≡ some r.0)
            × (r.1 ≡ dist v))
          s.out
    pub full :
        (v : String) (n : Node)
        → Seen s v
        → (start == v) ≡ false
        → Map.get g.nodes v ≡ some n
        → AnyOf (λ r. r ≡ (n, dist v)) s.out
    pub closed :
        (v : String)
        → Seen s v
        → Exempt v
          ⊎ ((max_hops ≤ dist v)
              ⊎ (AnyOf (λ q. q.0 ≡ v) s.queue
                  ⊎ ((w : String) → Leads g v w → Seen s w × (dist w ≤ dist v + 1))))

  pub fresh_other :
      (vs : List String) (t v : String)
      → contains t vs ≡ false
      → contains v vs ≡ true
      → (t == v) ≡ false
  fresh_other vs t v fresh old = elim (Bool-cases (t == v)) [
    | inr differ ↦ differ
    | inl same ↦ let e : t ≡ v = (eq_iff t v).0 same in cc (rw (← e) at old, fresh)
  ]

  InTurn-append :
      (q : List (String × ℕ)) (x : String × ℕ)
      → All (λ y. y.1 ≤ x.1) q
      → InTurn q
      → InTurn (q ++ x ∷ [])
  InTurn-append [] x h k = (tt, tt)
  InTurn-append (y ∷ q) x h k =
      (All-append (λ z. y.1 ≤ z.1) q (x ∷ []) k.0 (h.0, tt), InTurn-append q x h.1 k.1)

  -- A target that is visited for the first time.
  abbrev pub visit : String → ℕ → Search → Search
  visit t hops s = record {
    visited = t ∷ s.visited;
    out = report (Map.get g.nodes t) (hops + 1) s.out;
    queue = s.queue ++ (t, hops + 1) ∷ [];
  }

  module _ (Exempt : String → Type 0) (dist : String → ℕ) (hops : ℕ) (s : Search)
      (h : IsOngoing Exempt dist hops s) (t : String) (fresh : contains t s.visited ≡ false)
      (w : Walk g start (suc hops) t) (room : hops + 1 ≤ max_hops) where
    abbrev dist' : String → ℕ
    dist' = extend dist t (hops + 1)

    old_dist : (v : String) → Seen s v → dist' v ≡ dist v
    old_dist v k = rw (fresh_other s.visited t v fresh k) refl

    old-Seen : (v : String) → Seen s v → Seen (visit t hops s) v
    old-Seen v k = ground (arith, k)

    -- A visited id is the new one or an old one.
    Seen-cases :
        (v : String)
        → Seen (visit t hops s) v
        → ((t ≡ v) × (dist' v ≡ hops + 1)) ⊎ (Seen s v × (dist' v ≡ dist v))
    Seen-cases v k = elim (Bool-cases (t == v)) [
      | inl same ↦ inl ((eq_iff t v).0 same, rw same refl)
      | inr differ ↦ inr (rw differ at k, rw differ refl)
    ]

    further : Walk g start (hops + 1) t
    further = let e : suc hops ≡ hops + 1 = omega arith in subst (λ n. Walk g start n t) e w

    report-All :
        (P : Node × ℕ → Type 0) (o : Option Node) (out : List (Node × ℕ))
        → ((n : Node) → o ≡ some n → P (n, hops + 1))
        → All P out
        → All P (report o (hops + 1) out)
    unfolding report
    report-All P none out new old = old
    report-All P (some n) out new old = All-append P out ((n, hops + 1) ∷ []) old (new n refl, tt)

    report-old :
        (P : Node × ℕ → Type 0) (o : Option Node) (out : List (Node × ℕ))
        → AnyOf P out
        → AnyOf P (report o (hops + 1) out)
    unfolding report
    report-old P none out k = k
    report-old P (some n) out k = (AnyOf-append P out ((n, hops + 1) ∷ [])).1 (inl k)

    report-new :
        (o : Option Node) (out : List (Node × ℕ)) (n : Node)
        → o ≡ some n
        → AnyOf (λ r. r ≡ (n, hops + 1)) (report o (hops + 1) out)
    unfolding report
    report-new none out n e = cc
    report-new (some m) out n e =
        let same : m ≡ n = cc in
        (AnyOf-append (λ r. r ≡ (n, hops + 1)) out ((m, hops + 1) ∷ [])).1
          (inr (inl (rw same refl)))

    visit_sound :
        All
          (λ r.
            (v : String) × Seen (visit t hops s) v
            × ((start == v) ≡ false)
            × (Map.get g.nodes v ≡ some r.0)
            × (r.1 ≡ dist' v))
          (visit t hops s).out
    visit_sound =
        report-All
          (λ r.
            (v : String) × Seen (visit t hops s) v
            × ((start == v) ≡ false)
            × (Map.get g.nodes v ≡ some r.0)
            × (r.1 ≡ dist' v))
          (Map.get g.nodes t) s.out
          (λ n e. (t, rw (eq_self t) refl, fresh_other', e, rw (eq_self t) refl))
          (All-mono _ _ s.out (λ r (v, k, ne, e, d). (v, old-Seen v k, ne, e, rw (old_dist v k) d))
            h.sound)
      where
        fresh_other' : (start == t) ≡ false
        fresh_other' = elim (Bool-cases (start == t)) [
          | inr differ ↦ differ
          | inl same ↦ let e : start ≡ t = (eq_iff start t).0 same in cc (rw e at h.begun.0, fresh)
        ]

    -- The search goes on after the visit, and the new id is one hop further.
    pub visit-IsOngoing : IsOngoing Exempt dist' hops (visit t hops s)
    visit-IsOngoing = record {
      begun = (old-Seen start h.begun.0, rw (old_dist start h.begun.0) h.begun.1);
      walked = λ v k. elim (Seen-cases v k) [
        | inl (e, d) ↦ rw d (subst (λ x. Walk g start (hops + 1) x) e further, room)
        | inr (old, d) ↦ rw d (h.walked v old)
      ];
      near = λ v k. elim (Seen-cases v k) [
        | inl (e, d) ↦ omega (arith, d)
        | inr (old, d) ↦ omega (arith, d, h.near v old)
      ];
      queued =
          All-append (λ q. Seen (visit t hops s) q.0 × (dist' q.0 ≡ q.1) × (hops ≤ q.1)) s.queue
            ((t, hops + 1) ∷ [])
            (All-mono _ _ s.queue (λ q (k, d, le). (old-Seen q.0 k, rw (old_dist q.0 k) d, le))
              h.queued)
            ((rw (eq_self t) refl, rw (eq_self t) refl, omega arith), tt);
      in_turn =
          InTurn-append s.queue (t, hops + 1)
            (All-mono _ _ s.queue (λ q (k, d, le). omega (arith, d, h.near q.0 k)) h.queued)
            h.in_turn;
      sound = visit_sound;
      full = λ v n k ne e. elim (Seen-cases v k) [
        | inl (same, d) ↦ rw d (report-new (Map.get g.nodes t) s.out n (rw same e))
        | inr (old, d) ↦
            rw d (report-old (λ r. r ≡ (n, dist v)) (Map.get g.nodes t) s.out (h.full v n old ne e))
      ];
      closed = λ v k. elim (Seen-cases v k) [
        | inl (same, d) ↦ inr (
            inr
              (inl ((AnyOf-append (λ q. q.0 ≡ v) s.queue ((t, hops + 1) ∷ [])).1 (inr (inl same)))))
        | inr (old, d) ↦ elim (h.closed v old) [
          | inl exempt ↦ inl exempt
          | inr (inl far) ↦ inr (inl (rw d far))
          | inr (inr (inl waits)) ↦
              inr (
                inr
                  (inl ((AnyOf-append (λ q. q.0 ≡ v) s.queue ((t, hops + 1) ∷ [])).1 (inl waits))))
          | inr (inr (inr done)) ↦ inr (
              inr (
                inr (λ x l.
                  let (seen, le) = done x l in (old-Seen x seen, rw (d, old_dist x seen) le))))
        ]
      ];
    }
