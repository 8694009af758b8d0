-- ===== src/Planner.antt =====
-- planner/src/lib.rs: the planner that classifies an intent, decomposes it into subtasks and wires
-- them into a workflow. The lower-casing of Unicode texts, `str::to_lowercase`, is the parameter
-- `lower`; the ids that are minted are arguments.
pub mod Plans
use ckos.Base.{
  ℕ, suc, String, List, [], ◌∷◌, ◌++◌, Bool, ◌||◌, Option, none, some, is_some, get_elem?, any,
  if◌then◌else◌, includes, strip_suffix, trim_end,
}
use ckos.Kernel.Capability.{
  Capability, planning, reasoning, coding, translation, embedding, retrieval, verification,
}
use ckos.Kernel.Task
use ckos.Workflow.{Dag, add_step}
use ckos.Workflow

pub record SubTask : Type 0 where
  pub description : String
  pub capability : Capability
  pub depends_on : List ℕ

-- `filter_map(|i| refs.get(*i).copied())`
unfoldable pub known_refs : List ℕ → List ℕ → List ℕ
known_refs refs [] = []
known_refs refs (i ∷ is) =
    let rest = known_refs refs is in elim (get_elem? refs i) [ none ↦ rest | some r ↦ r ∷ rest ]

-- the loop over the subtasks; `mint` gives the ids of the tasks in order
unfoldable pub wire : (ℕ → String) → ℕ → List SubTask → List ℕ → Dag → Dag
unfolding known_refs
wire mint k [] refs dag = dag
wire mint k (st ∷ sts) refs dag =
    let task = Task.new (mint k) st.description st.capability in
    let (r, dag') = add_step dag task (known_refs refs st.depends_on) in
    wire mint (suc k) sts (refs ++ r ∷ []) dag'

-- `Planner::plan`, given the subtasks of the intent and the id that `Dag::new` minted
unfoldable pub plan : (ℕ → String) → String → String → List SubTask → Dag
unfolding wire
plan mint id intent subtasks = wire mint 0 subtasks [] (Workflow.new id intent)

pub data Intent : Type 0 where
  research code translate question generic : Intent

unfoldable pub any_in : String → List String → Bool
any_in q keys = any (λ k. includes q k) keys

unfoldable pub classify : (String → String) → String → Intent
unfolding any_in
classify lower intent =
    let q = lower intent in
    if any_in q ("research" ∷ "paper" ∷ "論文" ∷ "report" ∷ "レポート" ∷ [])
    then research
    else if any_in q
        ("code" ∷ "implement" ∷ "function" ∷ "bug" ∷ "refactor" ∷ "コード" ∷ "関数" ∷ "実装" ∷ [])
    then code
    else if any_in q ("translate" ∷ "translation" ∷ "翻訳" ∷ [])
    then translate
    else if is_some (strip_suffix "?" (trim_end intent))
        || any_in q ("what" ∷ "why" ∷ "how" ∷ "explain" ∷ "なに" ∷ "なぜ" ∷ "どう" ∷ "説明" ∷ [])
    then question
    else generic

abbrev step : String → Capability → List ℕ → SubTask
step description capability depends_on = record {
  description = description;
  capability = capability;
  depends_on = depends_on;
}

-- the subtasks of an intent that was classified
unfoldable pub pipeline : String → Intent → List SubTask
pipeline intent research =
    step "search sources" retrieval []
    ∷ step "generate embeddings" embedding (0 ∷ [])
    ∷ step "summarize" reasoning (1 ∷ [])
    ∷ step "verify citations" verification (2 ∷ [])
    ∷ step "generate report" reasoning (3 ∷ [])
    ∷ []
pipeline intent code =
    step "plan implementation" planning []
    ∷ step "write code" coding (0 ∷ [])
    ∷ step "verify code" verification (1 ∷ [])
    ∷ []
pipeline intent translate = step "translate" translation [] ∷ []
pipeline intent question =
    step "retrieve context" retrieval [] ∷ step "answer" reasoning (0 ∷ []) ∷ []
pipeline intent generic = step intent reasoning [] ∷ []

unfoldable pub decompose : (String → String) → String → List SubTask
unfolding classify pipeline
decompose lower intent = pipeline intent (classify lower intent)
