-- ===== src/Memory/Sweep.antt =====
-- The sweep of the garbage collection of memory/src/maintenance.rs against a verdict on each document
-- that knows no order.
use mathlib.Core.List.{append_assoc, append-nil}
use ckos.Base.{
  String, List, [], ◌∷◌, ◌++◌, Bool, true, false, not, ◌||◌, ◌&&◌, ◌≡◌, refl, arith, Option, none,
  some, is_some, if◌then◌else◌, any, keep, contains, All, ◌==◌, string_eq, Bool-cases, Option-cases,
  inl, inr,
}
use ckos.Base.Map
use ckos.Base.Map.{get-remove}
use ckos.Memory.{
  Document, InMemoryStore, default_query, search, has_text, has_type, needle, delete, read,
}
use ckos.Memory.Collection.{
  GcReason, duplicate, GcPolicy, GcReport, Key, key_eq, key_of, sort_by_rank, fault, noted,
  removal_reason, sweep, collect,
}
use ckos.Memory.Ranking.{
  outranks, outranks_irrefl, outranks_asym, HasUniqueIds, IsRanked, sort-IsRanked, any-sort,
}

-- A fault is a reason, and so is a better copy where duplicates are dropped.
abbrev pub ruled : Option GcReason → Bool → Bool → Option GcReason
ruled (some why) drop better = some why
ruled none true true = some duplicate
ruled none drop better = none

noted-ruled :
    (fault : Option GcReason) (drop better : Bool) (key : Key) (seen : List Key)
    → (drop ≡ true → better ≡ contains key seen)
    → (noted fault drop key seen).0 ≡ ruled fault drop better
unfolding noted
noted-ruled (some why) drop better key seen h = refl
noted-ruled none false better key seen h = refl
noted-ruled none true better key seen h =
    rw (h refl) (elim (Bool-cases (contains key seen)) [
      | inl known ↦ rw known refl
      | inr new_ ↦ rw new_ refl
    ])

contains-noted :
    (fault : Option GcReason) (drop : Bool) (key : Key) (seen : List Key) (k : Key)
    → drop ≡ true
    → contains k (noted fault drop key seen).1
      ≡ (not (is_some fault) && (key == k)) || contains k seen
unfolding noted
contains-noted (some why) drop key seen k on = refl
contains-noted none false key seen k on = absurd (cc)
contains-noted none true key seen k on = elim (Bool-cases (contains key seen)) [
  | inl known ↦ rw known (ground (arith, key_eq.decides key k, known))
  | inr new_ ↦ rw new_ refl
]

module _ {F : Type 0} (is_finite is_zero : F → Bool) (policy : GcPolicy) (now : Option String) where
  abbrev pub fault_of : Document F → Option GcReason
  fault_of d = fault is_finite is_zero policy now d

  -- A document without fault that has the key.
  abbrev pub is_copy : Key → Document F → Bool
  is_copy k e = not (is_some (fault_of e)) && (key_of e == k)

  -- A copy of the document that is better than it.
  abbrev pub is_better_copy : Document F → Document F → Bool
  is_better_copy d e = is_copy (key_of d) e && outranks e d

  -- Why a document among others is removed: its own fault, or a better copy.
  abbrev pub verdict : List (Document F) → Document F → Option GcReason
  verdict docs d = ruled (fault_of d) policy.drop_duplicates (any (is_better_copy d) docs)

  -- The removals among `ds`, in their order.
  abbrev pub judged : List (Document F) → List (Document F) → List (String × GcReason)
  judged docs [] = []
  judged docs (d ∷ ds) =
      let rest = judged docs ds in
      elim (verdict docs d) [ none ↦ rest | some why ↦ (d.id, why) ∷ rest ]

  abbrev pub delete_all : List (String × GcReason) → InMemoryStore F → InMemoryStore F
  delete_all [] store = store
  delete_all (r ∷ rs) store = delete_all rs (delete store r.0)

  any-earlier :
      (d : Document F) (pre : List (Document F))
      → All (λ e. outranks e d ≡ true) pre
      → any (is_better_copy d) pre ≡ any (is_copy (key_of d)) pre
  any-earlier d [] h = refl
  any-earlier d (e ∷ es) h = ground (arith, any-earlier d es h.1, h.0)

  any-later :
      (d : Document F) (ds : List (Document F))
      → All (λ e. outranks d e ≡ true) ds
      → any (is_better_copy d) ds ≡ false
  any-later d [] h = refl
  any-later d (e ∷ es) h = ground (arith, any-later d es h.1, outranks_asym d e h.0)

  -- The keys that were seen are those of the documents without fault that were swept.
  abbrev HasSeen : List Key → List (Document F) → Type 0
  HasSeen seen pre =
      policy.drop_duplicates ≡ true → (k : Key) → contains k seen ≡ any (is_copy k) pre

  -- One document: the reason is the verdict, and the keys seen are again those of the swept.
  judge :
      (docs : List (Document F)) (d : Document F) (ds pre : List (Document F)) (seen : List Key)
      → ((p : Document F → Bool) → any p docs ≡ any p pre || any p (d ∷ ds))
      → All (λ e. outranks e d ≡ true) pre
      → All (λ e. outranks d e ≡ true) ds
      → HasSeen seen pre
      → ((removal_reason is_finite is_zero policy now d seen).0 ≡ verdict docs d)
        × HasSeen (removal_reason is_finite is_zero policy now d seen).1 (d ∷ pre)
  unfolding removal_reason
  judge docs d ds pre seen split earlier later h =
      let worse : policy.drop_duplicates ≡ true
          → any (is_better_copy d) docs ≡ contains (key_of d) seen =
        λ on. rw (split (is_better_copy d)) (
          ground (
            arith,
            any-earlier d pre earlier,
            any-later d ds later,
            h on (key_of d),
            outranks_irrefl d,
          )) in
      (
        noted-ruled (fault_of d) policy.drop_duplicates _ (key_of d) seen worse,
        λ on k.
            rw (contains-noted (fault_of d) policy.drop_duplicates (key_of d) seen k on, h on k)
              refl,
      )

  -- The documents that were swept come before those that are left.
  abbrev ComesAfter : List (Document F) → List (Document F) → Type 0
  ComesAfter pre ds = All (λ d. All (λ e. outranks e d ≡ true) pre) ds

  ComesAfter-step :
      (d : Document F) (pre ds : List (Document F))
      → All (λ e. outranks d e ≡ true) ds
      → ComesAfter pre ds
      → ComesAfter (d ∷ pre) ds
  ComesAfter-step d pre [] h k = tt
  ComesAfter-step d pre (e ∷ es) h k = ((h.0, k.0), ComesAfter-step d pre es h.1 k.1)

  swept :
      (docs ds pre : List (Document F)) (seen : List Key) (report : GcReport)
      (store : InMemoryStore F)
      → ((p : Document F → Bool) → any p docs ≡ any p pre || any p ds)
      → IsRanked ds
      → ComesAfter pre ds
      → HasSeen seen pre
      → sweep is_finite is_zero policy now ds seen report store
        ≡ (record { removed = report.removed ++ judged docs ds }, delete_all (judged docs ds) store)
  unfolding sweep
  swept docs [] pre seen report store split ranked after h = rw (append-nil report.removed) refl
  swept docs (d ∷ ds) pre seen report store split ranked after h =
      let (reason, seen_) = judge docs d ds pre seen split after.0 ranked.0 h in
      let rest = λ (r : GcReport) (s : InMemoryStore F).
        swept docs ds (d ∷ pre) (removal_reason is_finite is_zero policy now d seen).1 r s
          (λ p. ground (arith, split p)) ranked.1 (ComesAfter-step d pre ds ranked.0 after.1)
          seen_ in
      elim (Option-cases (verdict docs d)) [
        | inl kept ↦ rw (sweep, reason, judged, kept) (rest report store)
        | inr (why, gone) ↦
            rw (sweep, reason, judged, gone)
              (let more =
                  rest (record { removed = report.removed ++ (d.id, why) ∷ [] })
                    (delete store d.id) in
                rw (append_assoc report.removed ((d.id, why) ∷ []) (judged docs ds)) at more)
      ]

  ComesAfter-nil : (ds : List (Document F)) → ComesAfter [] ds
  ComesAfter-nil [] = tt
  ComesAfter-nil (d ∷ ds) = (tt, ComesAfter-nil ds)

  keep_all : (ds : List (Document F)) → keep (λ d. true) ds ≡ ds
  keep_all [] = refl
  keep_all (d ∷ ds) = rw (keep_all ds) refl

  search_all :
      (lower : String → String) (store : InMemoryStore F)
      → search lower store default_query ≡ Map.values store.docs
  unfolding search default_query has_text has_type needle
  search_all lower store = rw (keep_all (Map.values store.docs)) (keep_all (Map.values store.docs))

  read-delete_all :
      (rs : List (String × GcReason)) (store : InMemoryStore F) (id : String)
      → read (delete_all rs store) id ≡ (if any (λ r. r.0 == id) rs then none else read store id)
  unfolding read delete
  read-delete_all [] store id = refl
  read-delete_all (r ∷ rs) store id =
      rw (read-delete_all rs (delete store r.0) id, get-remove store.docs r.0 id) (ground arith)

  any-judged :
      (docs ds : List (Document F)) (id : String)
      → any (λ r. r.0 == id) (judged docs ds)
        ≡ any (λ d. is_some (verdict docs d) && (d.id == id)) ds
  any-judged docs [] id = refl
  any-judged docs (d ∷ ds) id = elim (Option-cases (verdict docs d)) [
    | inl kept ↦ rw (judged, kept) (any-judged docs ds id)
    | inr (why, gone) ↦ rw (judged, gone) (ground (arith, any-judged docs ds id))
  ]

  -- What a collection reports and leaves.
  pub record IsJudged (store : InMemoryStore F) (after : GcReport × InMemoryStore F) : Type 0 where
    pub reported :
        (ranked : List (Document F)) × IsRanked ranked
        × ((p : Document F → Bool) → any p ranked ≡ any p (Map.values store.docs))
        × (after.0.removed ≡ judged (Map.values store.docs) ranked)
    pub left :
        (id : String)
        → read after.1 id ≡ (
            if any
              (λ d. is_some (verdict (Map.values store.docs) d) && (d.id == id))
              (Map.values store.docs)
            then none
            else read store id)

  -- If no two documents of the store have the same id, collect removes exactly the documents that
  -- have a fault of their own or, where duplicates are dropped, a better copy without fault: one with
  -- the same type, title and body, and more confidence or as much and the lower id. It reports each
  -- with its reason, the best first, and leaves what is stored under any other id.
  pub collect-IsJudged :
      (lower : String → String) (store : InMemoryStore F)
      → HasUniqueIds (Map.values store.docs)
      → IsJudged store (collect is_finite is_zero policy now lower store)
  unfolding collect
  collect-IsJudged lower store unique =
      let docs = Map.values store.docs in
      let sorted = sort_by_rank docs in
      let done =
        swept docs sorted [] [] (record { removed = [] }) store
          (λ p. ground (arith, any-sort p docs)) (sort-IsRanked docs unique) (ComesAfter-nil sorted)
          (λ on k. refl) in
      rw (search_all lower store, done)
        (record {
          reported = (sorted, sort-IsRanked docs unique, λ p. any-sort p docs, refl);
          left = λ id.
              rw
                (
                  read-delete_all (judged docs sorted) store id,
                  any-judged docs sorted id,
                  any-sort (λ d. is_some (verdict docs d) && (d.id == id)) docs,
                )
                refl;
        })

  -- Two stores whose documents have unique ids, that read alike under every id and list the same
  -- documents, in whatever order, read alike after collect.
  pub collect-order :
      (lower : String → String) (one two : InMemoryStore F)
      → HasUniqueIds (Map.values one.docs)
      → HasUniqueIds (Map.values two.docs)
      → ((p : Document F → Bool) → any p (Map.values one.docs) ≡ any p (Map.values two.docs))
      → ((id : String) → read one id ≡ read two id)
      → (id : String)
      → read (collect is_finite is_zero policy now lower one).1 id
        ≡ read (collect is_finite is_zero policy now lower two).1 id
  collect-order lower one two unique1 unique2 same alike id =
      rw
        (
          (collect-IsJudged lower one unique1).left id,
          (collect-IsJudged lower two unique2).left id,
          alike id,
        )
        (rw (same (λ d. is_some (verdict (Map.values one.docs) d) && (d.id == id))) (λ i.
          if any
            (λ (d : Document F).
              is_some (ruled (fault_of d) policy.drop_duplicates (same (is_better_copy d) i))
              && (d.id == id))
            (Map.values two.docs)
          then none
          else read two id))
