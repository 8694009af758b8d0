-- ===== src/Scheduler/Scan.antt =====
-- The scan of `dispatch_next` in scheduler/src/lib.rs finds the best ready task.
use mathlib.Core.List.{append_assoc, append-nil}
use mathlib.Core.Path.{subst}
use ckos.Base.{
  ℕ, ◌+◌, List, [], ◌∷◌, ◌++◌, Bool, true, false, Option, none, some, get_elem?, ◌≡◌, refl, arith,
  All, All-append, All-mono, length, length-append, Bool-cases, inl, inr, sym, ◌∙◌,
}
use ckos.Scheduler.Floats.{Float, FloatLaws}
use ckos.Scheduler.{Pending, scan, consider}

pub get_elem?-middle {ℓ} :
    {A : Type ℓ} (xs : List A) (a : A) (ys : List A) → get_elem? (xs ++ a ∷ ys) (length xs) ≡ some a
get_elem?-middle [] a ys = refl
get_elem?-middle (x ∷ xs) a ys = get_elem?-middle xs a ys

module _ (f : Float) (laws : FloatLaws f) where
  open f use {F32, least, gt}

  module _ (ready : Pending f → Bool) (eff : Pending f → F32) (whole : List (Pending f)) where
    -- What the scan knows after the tasks `seen`: nothing is ready, or it holds the index of a ready
    -- task whose score no ready task of `seen` exceeds.
    abbrev pub Held : List (Pending f) → Option ℕ × F32 → Type 0
    Held seen (none, s) = (s ≡ least) × All (λ p. ready p ≡ false) seen
    Held seen (some i, s) =
        (p : Pending f) × (get_elem? whole i ≡ some p)
        × (ready p ≡ true)
        × (s ≡ eff p)
        × All (λ q. ready q ≡ true → gt (eff q) s ≡ false) seen

    consider-Held :
        (seen : List (Pending f)) (p : Pending f) (i : ℕ) (best : Option ℕ × F32)
        → get_elem? whole i ≡ some p
        → gt (eff p) least ≡ true
        → Held seen best
        → Held (seen ++ p ∷ []) (consider f (ready p) (eff p) i best)
    unfolding consider
    consider-Held seen p i (none, s) at wins h = elim (Bool-cases (ready p)) [
      | inr waits ↦ rw waits (h.0, All-append (λ q. ready q ≡ false) seen (p ∷ []) h.1 (waits, tt))
      | inl runs ↦
          let first : gt (eff p) s ≡ true = rw h.0 wins in
          rw (runs, first)
            (
              p,
              at,
              runs,
              refl,
              All-append (λ q. ready q ≡ true → gt (eff q) (eff p) ≡ false) seen (p ∷ [])
                  (All-mono (λ q. ready q ≡ false) _ seen (λ q no_ yes_. cc) h.1)
                  ((λ _. laws.gt_irrefl (eff p)), tt),
            )
    ]
    consider-Held seen p i (some j, s) at wins (b, hit, runs_b, e, below) =
        elim (Bool-cases (ready p)) [
          | inr waits ↦ rw waits (
            b,
            hit,
            runs_b,
            e,
            All-append (λ q. ready q ≡ true → gt (eff q) s ≡ false) seen (p ∷ []) below
                ((λ y. cc), tt),
          )
          | inl runs ↦ elim (Bool-cases (gt (eff p) s)) [
            | inl better ↦
                rw (runs, better)
                  (
                    p,
                    at,
                    runs,
                    refl,
                    All-append (λ q. ready q ≡ true → gt (eff q) (eff p) ≡ false) seen (p ∷ [])
                        (All-mono (λ q. ready q ≡ true → gt (eff q) s ≡ false) _ seen
                          (λ q g y. laws.gt_cotrans (eff p) s (eff q) better (g y)) below)
                        ((λ _. laws.gt_irrefl (eff p)), tt),
                  )
            | inr worse ↦
                rw (runs, worse)
                  (
                    b,
                    hit,
                    runs_b,
                    e,
                    All-append (λ q. ready q ≡ true → gt (eff q) s ≡ false) seen (p ∷ []) below
                        ((λ _. worse), tt),
                  )
          ]
        ]

    scan-Held_from :
        (seen rest : List (Pending f)) (i : ℕ) (best : Option ℕ × F32)
        → i ≡ length seen
        → whole ≡ seen ++ rest
        → All (λ p. gt (eff p) least ≡ true) rest
        → Held seen best
        → Held whole (scan f ready eff i rest best)
    unfolding scan
    scan-Held_from seen [] i best count e wins h =
        subst (λ l. Held l best) (sym (append-nil seen) ∙ sym e) h
    scan-Held_from seen (p ∷ rest) i best count e wins h =
        scan-Held_from (seen ++ p ∷ []) rest (i + 1) (consider f (ready p) (eff p) i best)
          (omega (arith, length-append seen (p ∷ []))) (e ∙ sym (append_assoc seen (p ∷ []) rest))
          wins.1
          (consider-Held seen p i best (rw (e, count) (get_elem?-middle seen p rest)) wins.0 h)

    -- After a whole scan that begins with nothing held.
    pub scan-Held :
        All (λ p. gt (eff p) least ≡ true) whole
        → Held whole (scan f ready eff 0 whole (none, least))
    scan-Held wins = scan-Held_from [] whole 0 (none, least) refl refl wins (refl, tt)
