-- ===== src/Workflow/Release.antt =====
-- One round of the loop of `topological_order` in workflow/src/lib.rs: the dependents of a step that
-- is placed are released.
use ckos.Base.{ℕ, ◌+◌, ◌-◌, ◌<◌, ◌≤◌, List, [], ◌∷◌, ◌≡◌, arith, ◌==◌, nat_eq, if◌then◌else◌, set}
use ckos.Workflow.{at_ℕ, release}
use ckos.Workflow.Occurs.{occurs, at_ℕ-set}

-- With the dependents `ds` still to be released: they are counted, no step is both ready and placed
-- or twice either, and such steps have no open dependency.
pub record IsCounted (ds placed : List ℕ) (st : List ℕ × List ℕ) : Type 0 where
  pub counted : (i : ℕ) → occurs i ds ≤ at_ℕ st.0 i
  pub once : (i : ℕ) → occurs i st.1 + occurs i placed ≤ 1
  pub free : (i : ℕ) → 0 < occurs i st.1 + occurs i placed → at_ℕ st.0 i ≡ 0

-- One dependent.
pub release_one :
    (d : ℕ) (ds placed indegree ready : List ℕ)
    → IsCounted (d ∷ ds) placed (indegree, ready)
    → IsCounted ds placed (
      set indegree d (at_ℕ indegree d - 1),
      if (at_ℕ indegree d - 1) == 0 then d ∷ ready else ready,
    )
release_one d ds placed indegree ready h =
    let here : 0 < at_ℕ indegree d = ground (arith, h.counted d) in
    let written = at_ℕ-set indegree d (at_ℕ indegree d - 1) in
    record {
      counted = λ i. ground (arith, h.counted i, written i here);
      once = λ i. ground (arith, h.once i, h.free i, h.counted i);
      free = λ i pos. ground (arith, h.free i, h.counted i, h.once i, written i here);
    }

-- All of them: the counters fall by as much as the step is counted in, and the rest is kept.
pub release-IsCounted :
    (ds placed : List ℕ) (st : List ℕ × List ℕ)
    → IsCounted ds placed st
    → IsCounted [] placed (release ds st)
      × ((i : ℕ) → at_ℕ (release ds st).0 i + occurs i ds ≡ at_ℕ st.0 i)
unfolding release
release-IsCounted [] placed st h = (h, λ i. omega arith)
release-IsCounted (d ∷ ds) placed (indegree, ready) h =
    let here : 0 < at_ℕ indegree d = ground (arith, h.counted d) in
    let written = at_ℕ-set indegree d (at_ℕ indegree d - 1) in
    let rest = release-IsCounted ds placed _ (release_one d ds placed indegree ready h) in
    (rest.0, λ i. ground (arith, rest.1 i, written i here))
