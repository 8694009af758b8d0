-- ===== src/Workflow/Occurs.antt =====
-- Reads and writes of the counters of `topological_order` in workflow/src/lib.rs, and how often an
-- index stands in a list.
use ckos.Base.{
  ℕ, zero, suc, ◌+◌, ◌<◌, List, [], ◌∷◌, ◌++◌, ◌≡◌, refl, arith, ◌==◌, nat_eq, if◌then◌else◌, set,
}
use ckos.Workflow.{at_ℕ}

abbrev pub occurs : ℕ → List ℕ → ℕ
occurs i [] = 0
occurs i (x ∷ xs) = (if x == i then 1 else 0) + occurs i xs

pub occurs-append : (i : ℕ) (xs ys : List ℕ) → occurs i (xs ++ ys) ≡ occurs i xs + occurs i ys
occurs-append i [] ys = omega arith
occurs-append i (x ∷ xs) ys = omega (arith, occurs-append i xs ys)

-- Writing a counter that is positive changes this counter alone.
pub at_ℕ-set :
    (xs : List ℕ) (i v j : ℕ)
    → 0 < at_ℕ xs i
    → at_ℕ (set xs i v) j ≡ (if i == j then v else at_ℕ xs j)
at_ℕ-set [] i v j h = absurd (omega arith)
at_ℕ-set (x ∷ xs) zero v zero h = refl
at_ℕ-set (x ∷ xs) zero v (suc j) h = ground arith
at_ℕ-set (x ∷ xs) (suc i) v zero h = ground arith
at_ℕ-set (x ∷ xs) (suc i) v (suc j) h = ground (arith, at_ℕ-set xs i v j h)
