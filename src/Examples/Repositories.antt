-- ===== src/Examples/Repositories.antt =====
-- Repositories of graphs at concrete inputs: two branches, and their merge.
use Prim.Native.String.{[] as nil_text, ◌∷◌ as cons_text}
use ckos.Base.{
  ℕ, zero, suc, String, List, [], ◌∷◌, none, some, ◌≡◌, refl, ap, arith, string_eq, nat_eq,
  get_elem?, ◌<◌,
}
use ckos.Base.Map
use ckos.Graph.{KnowledgeGraph, NodeKind}
use ckos.Graph.Versioning.{Version, GraphRepo, higher_confidence, new, commit, merge, head_id, log}
use ckos.Graph.Versioning.History.{IsSound, IsLineage, new-IsSound, log-IsLineage}
use ckos.Graph.Versioning.Commits.{IsCommitted, commit-IsCommitted}
use ckos.Graph.Versioning.Operations.{
  AreFresh, IsJoined, merge-IsJoined, Operation, put, fork, switch, join, perform_all,
  perform_all-IsSound,
}

-- n, xn, xxn, …
abbrev numbered : ℕ → String
numbered zero = "n"
numbered (suc i) = cons_text "x" (numbered i)

abbrev size : String → ℕ
size nil_text = 0
size (cons_text c s) = suc (size s)

size-numbered : (i : ℕ) → size (numbered i) ≡ suc i
size-numbered zero = refl
size-numbered (suc i) = omega (arith, size-numbered i)

numbered-AreFresh : AreFresh numbered
numbered-AreFresh i j same =
    let sizes : size (numbered i) ≡ size (numbered j) = ap size same in
    omega (arith, sizes, size-numbered i, size-numbered j)

abbrev holding : String → ℕ → KnowledgeGraph
holding id confidence = record {
  nodes =
      (
        id,
        record {
          id = id;
          kind = NodeKind.tool;
          label = "a tool";
          confidence = confidence;
          date = none;
          provenance = none;
        },
      )
      ∷ [];
  adjacency = (id, []) ∷ [];
}

-- main and side hold the same tool with different confidence
abbrev operations : List Operation
operations =
    put (holding "a" 40)
    ∷ fork "side"
    ∷ switch "side"
    ∷ put (holding "b" 90)
    ∷ switch "main"
    ∷ join numbered numbered-AreFresh "side" higher_confidence
    ∷ join numbered numbered-AreFresh "missing" higher_confidence
    ∷ []

perform_all-IsSound_example :
    (repo : GraphRepo) × (perform_all (λ s. s) operations new ≡ some repo) × IsSound repo
perform_all-IsSound_example = perform_all-IsSound (λ s. s) operations new new-IsSound

abbrev forked : GraphRepo
forked = record {
  versions =
      record { id = 0; parent = none; graph = holding "a" 40 }
      ∷ record { id = 1; parent = some 0; graph = holding "b" 90 }
      ∷ [];
  branches = ("main", 0) ∷ ("side", 1) ∷ [];
  current = "main";
}

forked_older :
    (i : ℕ) (v : Version) (p : ℕ) → get_elem? forked.versions i ≡ some v → v.parent ≡ some p → p < i
forked_older zero v p found up = ground (arith, found, up)
forked_older (suc zero) v p found up = ground (arith, found, up)
forked_older (suc (suc i)) v p found up = absurd (cc found)

forked-IsSound : IsSound forked
unfolding Map.get
forked-IsSound = record {
  checked_out = refl;
  pointed = λ name id e. ground (arith, e);
  older = forked_older;
}

merge-IsJoined_example :
    IsJoined
      (λ s. s)
      higher_confidence
      forked
      1
      (merge (λ s. s) numbered forked "side" higher_confidence)
unfolding Map.get
merge-IsJoined_example =
    merge-IsJoined (λ s. s) numbered numbered-AreFresh forked "side" higher_confidence 1
      forked-IsSound refl

commit-IsCommitted_example :
    (id : ℕ) × (repo : GraphRepo) × (commit forked (holding "c" 7) ≡ some (id, repo))
    × IsCommitted forked (holding "c" 7) id repo
commit-IsCommitted_example = commit-IsCommitted forked (holding "c" 7) forked-IsSound

log-IsLineage_example :
    (id : ℕ) × (out : List ℕ) × (head_id forked ≡ some id)
    × (log forked ≡ some out)
    × IsLineage forked.versions id out
log-IsLineage_example = log-IsLineage forked forked-IsSound
