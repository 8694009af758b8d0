-- ===== src/Reflection.antt =====
-- sdk/src/reflection.rs: the evaluation of results and the consensus of several evaluations. The
-- share of the votes, an f32, is an exact quotient here. `none` is a panic.
pub mod Voting
pub mod Agreement
use ckos.Base.{
  ℕ, suc, ◌+◌, ◌/◌, ◌%◌, String, List, [], ◌∷◌, ◌++◌, Bool, not, Option, none, some, is_some, ltb,
  if◌then◌else◌, length, contains, get_or, ◌==◌, string_eq, nat_eq, trim_end,
}
use Prim.Native.Nat.{min}
use ckos.Base.Map
use ckos.Base.Map.{Map}
use ckos.Kernel.Task.{u32_mod}
use ckos.Engine.State.{ExecutionResult}

pub record Reflection : Type 0 where
  pub task : String
  pub score : ℕ
  pub hint : String

-- `output.trim().is_empty()`: nothing is left without the white space at the end
unfoldable pub is_blank : String → Bool
is_blank s = trim_end s == ""

-- `HeuristicReflector::reflect`
unfoldable pub reflect : ExecutionResult → Reflection
unfolding is_blank
reflect result =
    if not result.verified
    then record {
      task = result.task;
      score = 20;
      hint = "output failed verification; regenerate with stricter constraints";
    }
    else if is_blank result.output
    then record {
      task = result.task;
      score = 40;
      hint = "verified but empty; tighten the prompt to require content";
    }
    else if not (is_some result.agent)
    then record {
      task = result.task;
      score = 70;
      hint = "no specialized agent matched; register one for this capability";
    }
    else record { task = result.task; score = 95; hint = "result accepted; cache for reuse" }

-- The quotient of two integers.
pub record Quotient : Type 0 where
  pub numerator : ℕ
  pub denominator : ℕ

pub record Consensus : Type 0 where
  pub score : ℕ
  pub hints : List String
  pub majority_hint : Option String
  pub agreement : Quotient

-- `sum` over `u32`
unfoldable pub sum_from : ℕ → List ℕ → ℕ
sum_from acc [] = acc
sum_from acc (x ∷ xs) = sum_from ((acc + x) % u32_mod) xs

unfoldable pub scores : List Reflection → List ℕ
scores [] = []
scores (r ∷ rs) = r.score ∷ scores rs

-- the loop that gathers the hints and their weights
unfoldable pub gather : List Reflection → List String → Map String ℕ → List String × Map String ℕ
gather [] hints weight = (hints, weight)
gather (r ∷ rs) hints weight =
    gather rs (if contains r.hint hints then hints else hints ++ r.hint ∷ [])
      (Map.insert weight r.hint ((get_or (Map.get weight r.hint) 0 + (r.score + 1)) % u32_mod))

-- `if weight[h] > weight[best]`
unfoldable pub heavier : Map String ℕ → String → String → Option String
heavier weight best h = elim (Map.get weight h) [
  | none ↦ none
  | some w ↦ elim (Map.get weight best) [
    | none ↦ none
    | some v ↦ some (if ltb v w then h else best)
  ]
]

-- the loop for the winner
unfoldable pub choose_best : Map String ℕ → String → List String → Option String
unfolding heavier
choose_best weight best [] = some best
choose_best weight best (h ∷ hs) = elim (heavier weight best h) [
  | none ↦ none
  | some next ↦ choose_best weight next hs
]

-- `&hints[0]`, and the winner among the hints
unfoldable pub winner_of : Map String ℕ → List String → Option String
unfolding choose_best
winner_of weight [] = none
winner_of weight (h ∷ hs) = choose_best weight h (h ∷ hs)

-- `sum / reflections.len() as u32`, at most 100; the division by zero panics
unfoldable pub mean : List Reflection → Option ℕ
unfolding sum_from scores
mean rs =
    let n = length rs % u32_mod in
    if n == 0 then none else some (min (sum_from 0 (scores rs) / n) 100)

-- the consensus of reflections that are not empty, given their mean
unfoldable pub decided : ℕ → List String × Map String ℕ → Option Consensus
unfolding winner_of
decided score (hints, weight) = elim (winner_of weight hints) [
  | none ↦ none
  | some best ↦ elim (Map.get weight best) [
    | none ↦ none
    | some w ↦ some (record {
      score = score;
      hints = hints;
      majority_hint = some best;
      agreement = record { numerator = w; denominator = sum_from 0 (Map.values weight) };
    })
  ]
]

unfoldable pub consensus : List Reflection → Option Consensus
unfolding decided mean gather
consensus [] = some (record {
  score = 0;
  hints = [];
  majority_hint = none;
  agreement = record { numerator = 0; denominator = 1 };
})
consensus (r ∷ rs) = elim (mean (r ∷ rs)) [
  | none ↦ none
  | some score ↦ decided score (gather (r ∷ rs) [] [])
]
