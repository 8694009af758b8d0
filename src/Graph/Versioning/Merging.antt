-- ===== src/Graph/Versioning/Merging.antt =====
-- The merge of two branches in graph/src/versioning.rs, and all operations on a repository.
use ckos.Base.{
  String, List, [], ◌∷◌, true, ◌||◌, Option, none, some, is_some, ◌≡◌, refl, arith, All, All-append,
  All-mono, ltb, if◌then◌else◌, ◌==◌, string_eq, text_ltb, Bool-cases, inl, inr,
}
use ckos.Base.Map
use text.Mathlib.TextEquality.{eq_iff}
use Prim.Native.Nat.{min}
use ckos.Base.Map.{get-insert}
use ckos.Graph.{KnowledgeGraph, Node, update_node, insert, add_node, set_date, set_provenance}
use ckos.Graph.Versioning.{
  MergeStrategy, prefer_ours, prefer_theirs, higher_confidence, MergeReport, Merged, place_text,
  sort_texts, dedup, resolve, picks_theirs, with_date, with_provenance, add_merged, identities,
}

All-place_text :
    (P : String → Type 0) (s : String) (ts : List String) → P s → All P ts → All P (place_text s ts)
unfolding place_text
All-place_text P s [] p h = (p, tt)
All-place_text P s (t ∷ ts) p h = elim (Bool-cases (text_ltb t s)) [
  | inl less ↦ rw less (h.0, All-place_text P s ts p h.1)
  | inr more ↦ rw more (p, h)
]

All-sort_texts : (P : String → Type 0) (ts : List String) → All P ts → All P (sort_texts ts)
unfolding sort_texts
All-sort_texts P [] h = tt
All-sort_texts P (t ∷ ts) h = All-place_text P t (sort_texts ts) h.0 (All-sort_texts P ts h.1)

All-dedup : (P : String → Type 0) (ts : List String) → All P ts → All P (dedup ts)
unfolding dedup
All-dedup P [] h = tt
All-dedup P (t ∷ []) h = h
All-dedup P (t ∷ (u ∷ us)) h = elim (Bool-cases (t == u)) [
  | inl same ↦ rw same (All-dedup P (u ∷ us) h.1)
  | inr differ ↦ rw differ (h.0, All-dedup P (u ∷ us) h.1)
]

-- The identity stands in one of the two indexes.
abbrev pub IsNamed : Map.Map String Node → Map.Map String Node → String → Type 0
IsNamed ours theirs i = (is_some (Map.get ours i) || is_some (Map.get theirs i)) ≡ true

All-keys : (m : Map.Map String Node) → All (λ i. is_some (Map.get m i) ≡ true) (Map.keys m)
unfolding Map.keys Map.get
All-keys [] = tt
All-keys ((k, n) ∷ m) = (
  ground (arith, eq_iff k k),
  All-mono (λ i. is_some (Map.get m i) ≡ true) (λ i. is_some (Map.get ((k, n) ∷ m) i) ≡ true)
      (Map.keys m)
      (λ i there. elim (Bool-cases (k == i)) [
        | inl same ↦ rw same refl
        | inr differ ↦ rw differ there
      ])
      (All-keys m),
)

pub identities-IsNamed :
    (ours theirs : Map.Map String Node) → All (IsNamed ours theirs) (identities ours theirs)
unfolding identities
identities-IsNamed ours theirs = All-dedup (IsNamed ours theirs) _ (
    All-sort_texts (IsNamed ours theirs) _ (
      All-append (IsNamed ours theirs) (Map.keys ours) (Map.keys theirs)
        (All-mono (λ i. is_some (Map.get ours i) ≡ true) (IsNamed ours theirs) (Map.keys ours)
          (λ i there. ground (arith, there)) (All-keys ours))
        (All-mono (λ i. is_some (Map.get theirs i) ≡ true) (IsNamed ours theirs) (Map.keys theirs)
          (λ i there. ground (arith, there)) (All-keys theirs))))

-- The node whose attributes a merge keeps.
abbrev pub winner : MergeStrategy → Option Node → Option Node → Option Node
winner strategy none t = t
winner strategy (some o) none = some o
winner prefer_ours (some o) (some t) = some o
winner prefer_theirs (some o) (some t) = some t
winner higher_confidence (some o) (some t) =
    if ltb o.confidence t.confidence then some t else some o

pub resolve-winner :
    (strategy : MergeStrategy) (ident : String) (o t : Option Node) (report : MergeReport)
    → (is_some o || is_some t) ≡ true
    → (n : Node) × (r : MergeReport) × (resolve strategy ident o t report ≡ some (n, r))
      × (winner strategy o t ≡ some n)
unfolding resolve picks_theirs
resolve-winner strategy ident none none report h = absurd (cc h)
resolve-winner strategy ident none (some t) report h = (t, _, refl, refl)
resolve-winner strategy ident (some o) none report h = (o, report, refl, refl)
resolve-winner prefer_ours ident (some o) (some t) report h = (o, _, refl, refl)
resolve-winner prefer_theirs ident (some o) (some t) report h = (t, _, refl, refl)
resolve-winner higher_confidence ident (some o) (some t) report h =
    elim (Bool-cases (ltb o.confidence t.confidence)) [
      | inl theirs ↦ rw theirs (t, _, refl, refl)
      | inr ours ↦ rw ours (o, _, refl, refl)
    ]

get-update_node :
    (g : KnowledgeGraph) (id : String) (f : Node → Node) (n : Node) (j : String)
    → Map.get g.nodes id ≡ some n
    → Map.get (update_node g id f).nodes j ≡ (if id == j then some (f n) else Map.get g.nodes j)
unfolding update_node
get-update_node g id f n j hit = rw (update_node, hit) (get-insert g.nodes id j (f n))

-- The node that a merge makes of a base and of the attributes that it keeps.
abbrev pub settled : String → Node → Node → Node
settled id base kept = record {
  id = id;
  kind = base.kind;
  label = base.label;
  confidence = min kept.confidence 100;
  date = kept.date;
  provenance = kept.provenance;
}

module _ (id : String) (g : KnowledgeGraph) where
  -- The graph has one node more, under `id`.
  Extends : Node → KnowledgeGraph → Type 0
  Extends n g' = (j : String) → Map.get g'.nodes j ≡ (if id == j then some n else Map.get g.nodes j)

  updated :
      (n : Node) (f : Node → Node) (g' : KnowledgeGraph)
      → Extends n g'
      → Extends (f n) (update_node g' id f)
  unfolding Extends
  updated n f g' h j =
      let here : Map.get g'.nodes id ≡ some n = ground (arith, h id, eq_iff id id) in
      rw (get-update_node g' id f n j here, h j) (ground arith)

  with_date-Extends :
      (n : Node) (date : Option String) (g' : KnowledgeGraph)
      → n.date ≡ none
      → Extends n g'
      → Extends (record n { date = date }) (with_date g' id date)
  unfolding with_date set_date Extends
  with_date-Extends n none g' blank h = λ j. rw (h j) (ground (arith, blank))
  with_date-Extends n (some d) g' blank h = updated n (λ n. record n { date = some d }) g' h

  with_provenance-Extends :
      (n : Node) (source : Option String) (g' : KnowledgeGraph)
      → n.provenance ≡ none
      → Extends n g'
      → Extends (record n { provenance = source }) (with_provenance g' id source)
  unfolding with_provenance set_provenance Extends
  with_provenance-Extends n none g' blank h = λ j. rw (h j) (ground (arith, blank))
  with_provenance-Extends n (some p) g' blank h =
      updated n (λ n. record n { provenance = some p }) g' h

pub get-add_merged :
    (m : Merged) (ident id : String) (base kept : Node) (report : MergeReport) (j : String)
    → Map.get (add_merged m ident id base kept report).graph.nodes j
      ≡ (if id == j then some (settled id base kept) else Map.get m.graph.nodes j)
unfolding add_merged Extends add_node insert
get-add_merged m ident id base kept report =
    let bare : Node = record {
      id = id;
      kind = base.kind;
      label = base.label;
      confidence = min kept.confidence 100;
      date = none;
      provenance = none;
    } in
    with_provenance-Extends id m.graph (record bare { date = kept.date }) kept.provenance _ refl
      (with_date-Extends id m.graph bare kept.date
        (add_node m.graph id base.kind base.label kept.confidence) refl
        (λ j. get-insert m.graph.nodes id j bare))
