-- ===== src/Memory/Ranking.antt =====
-- The order in which the collection of memory/src/maintenance.rs sweeps documents: the best first.
use text.Mathlib.TextEquality.{eq_iff}
use ckos.Base.{
  List, [], ◌∷◌, Bool, true, false, ◌||◌, ◌&&◌, ◌≡◌, refl, arith, any, ltb, text_ltb, if◌then◌else◌,
  All, All-mono, ◌==◌, string_eq, nat_eq, text_ltb_irrefl, text_ltb_trans, text_ltb_connected,
  Bool-cases, inl, inr,
}
use ckos.Memory.{Document}
use ckos.Memory.Collection.{comes_before, place, sort_by_rank}

module _ {F : Type 0} where
  -- More confidence, or as much and the lower id.
  abbrev pub outranks : Document F → Document F → Bool
  outranks a b =
      ltb b.confidence a.confidence || ((a.confidence == b.confidence) && text_ltb a.id b.id)

  pub outranks_irrefl : (d : Document F) → outranks d d ≡ false
  outranks_irrefl d = ground (arith, text_ltb_irrefl d.id)

  pub outranks_trans :
      (a b c : Document F) → outranks a b ≡ true → outranks b c ≡ true → outranks a c ≡ true
  outranks_trans a b c h k = ground (arith, text_ltb_trans a.id b.id c.id, h, k)

  pub outranks_asym : (a b : Document F) → outranks a b ≡ true → outranks b a ≡ false
  outranks_asym a b h = ground (arith, h, outranks_trans a b a, outranks_irrefl a)

  outranks_connected :
      (a b : Document F) → (a.id == b.id) ≡ false → outranks a b ≡ false → outranks b a ≡ true
  outranks_connected a b h k = ground (arith, text_ltb_connected a.id b.id, eq_iff a.id b.id, h, k)

  -- No two documents have the same id.
  abbrev pub HasUniqueIds : List (Document F) → Type 0
  HasUniqueIds [] = Unit {0}
  HasUniqueIds (d ∷ ds) = All (λ e. (d.id == e.id) ≡ false) ds × HasUniqueIds ds

  -- Each document comes before all that follow.
  abbrev pub IsRanked : List (Document F) → Type 0
  IsRanked [] = Unit {0}
  IsRanked (d ∷ ds) = All (λ e. outranks d e ≡ true) ds × IsRanked ds

  place-cons :
      (d e : Document F) (es : List (Document F))
      → place d (e ∷ es) ≡ (if outranks e d then e ∷ place d es else d ∷ e ∷ es)
  unfolding place comes_before
  place-cons d e es = refl

  All-place :
      (P : Document F → Type 0) (d : Document F) (ds : List (Document F))
      → P d
      → All P ds
      → All P (place d ds)
  unfolding place
  All-place P d [] p h = (p, tt)
  All-place P d (e ∷ es) p h = elim (Bool-cases (outranks e d)) [
    | inl earlier ↦ rw (place-cons d e es, earlier) (h.0, All-place P d es p h.1)
    | inr later ↦ rw (place-cons d e es, later) (p, h)
  ]

  All-sort : (P : Document F → Type 0) (ds : List (Document F)) → All P ds → All P (sort_by_rank ds)
  unfolding sort_by_rank
  All-sort P [] h = tt
  All-sort P (d ∷ ds) h = All-place P d (sort_by_rank ds) h.0 (All-sort P ds h.1)

  place-IsRanked :
      (d : Document F) (ds : List (Document F))
      → All (λ e. (d.id == e.id) ≡ false) ds
      → IsRanked ds
      → IsRanked (place d ds)
  unfolding place
  place-IsRanked d [] new h = (tt, tt)
  place-IsRanked d (e ∷ es) new h = elim (Bool-cases (outranks e d)) [
    | inl earlier ↦
        rw (place-cons d e es, earlier)
          (All-place (λ x. outranks e x ≡ true) d es earlier h.0, place-IsRanked d es new.1 h.1)
    | inr later ↦
        let first : outranks d e ≡ true =
          outranks_connected e d (ground (arith, new.0, eq_iff e.id d.id, eq_iff d.id e.id))
            later in
        rw (place-cons d e es, later)
          (
            (
              first,
              All-mono (λ x. outranks e x ≡ true) (λ x. outranks d x ≡ true) es
                  (λ x more. outranks_trans d e x first more) h.0,
            ),
            h,
          )
  ]

  pub sort-IsRanked : (ds : List (Document F)) → HasUniqueIds ds → IsRanked (sort_by_rank ds)
  unfolding sort_by_rank
  sort-IsRanked [] h = tt
  sort-IsRanked (d ∷ ds) h =
      place-IsRanked d (sort_by_rank ds) (All-sort (λ e. (d.id == e.id) ≡ false) ds h.0)
        (sort-IsRanked ds h.1)

  any-place :
      (p : Document F → Bool) (d : Document F) (ds : List (Document F))
      → any p (place d ds) ≡ p d || any p ds
  unfolding place
  any-place p d [] = refl
  any-place p d (e ∷ es) = ground (arith, any-place p d es)

  -- Sorting neither loses nor adds a document.
  pub any-sort :
      (p : Document F → Bool) (ds : List (Document F)) → any p (sort_by_rank ds) ≡ any p ds
  unfolding sort_by_rank
  any-sort p [] = refl
  any-sort p (d ∷ ds) = ground (arith, any-place p d (sort_by_rank ds), any-sort p ds)
