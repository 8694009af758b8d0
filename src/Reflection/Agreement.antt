-- ===== src/Reflection/Agreement.antt =====
-- The consensus of sdk/src/reflection.rs: its score, its hints and its majority hint.
use text.Mathlib.TextEquality.{eq_iff}
use ckos.Base.{
  ℕ, ◌+◌, ◌*◌, ◌/◌, ◌%◌, ◌≤◌, ◌<◌, String, List, [], ◌∷◌, true, false, Option, none, some, is_some,
  length, contains, All, ◌≡◌, refl, arith, ◌==◌, string_eq, nat_eq, Bool-cases, Option-cases, inl,
  inr,
}
use Prim.Native.Nat.{min}
use ckos.Base.Map
use ckos.Base.Map.{get-insert}
use ckos.Kernel.Task.{u32_mod}
use ckos.Reflection.{
  Reflection, Consensus, gather, winner_of, decided, consensus, scores, sum_from, mean,
}
use ckos.Reflection.Voting.{
  support, is_raised, weight_of, IsTallied, gather-IsTallied, choose_best-IsHeaviest,
}

-- The scores together.
abbrev pub total : List Reflection → ℕ
total [] = 0
total (r ∷ rs) = r.score + total rs

sum_from-scores :
    (rs : List Reflection) (acc : ℕ)
    → All (λ r. r.score ≤ 100) rs
    → acc + length rs * 101 < u32_mod
    → sum_from acc (scores rs) ≡ acc + total rs
unfolding sum_from scores
sum_from-scores [] acc low room = omega arith
sum_from-scores (r ∷ rs) acc low room =
    let exact : (acc + r.score) % u32_mod ≡ acc + r.score = omega (arith, room, low.0) in
    rw (sum_from, scores, exact)
      (omega (arith, sum_from-scores rs (acc + r.score) low.1 (omega (arith, room, low.0))))

mean-lem :
    (rs : List Reflection)
    → 0 < length rs
    → All (λ r. r.score ≤ 100) rs
    → length rs * 101 < u32_mod
    → mean rs ≡ some (min (total rs / length rs) 100)
unfolding mean
mean-lem rs pos low room =
    let size : length rs % u32_mod ≡ length rs = omega (arith, room) in
    let more : (length rs == 0) ≡ false = ground (arith, pos) in
    let sum : sum_from 0 (scores rs) ≡ total rs =
      omega (arith, sum_from-scores rs 0 low (omega (arith, room))) in
    rw (mean, size, more, sum) refl

some_of : (w : Option ℕ) → is_some w ≡ true → (n : ℕ) × (w ≡ some n)
some_of none h = absurd (cc h)
some_of (some n) h = (n, refl)

winner_of-IsHeaviest :
    (weight : Map.Map String ℕ) (hs : List String) (x : String)
    → contains x hs ≡ true
    → ((h : String) → contains h hs ≡ true → is_some (Map.get weight h) ≡ true)
    → (b : String) × (winner_of weight hs ≡ some b)
      × (contains b hs ≡ true)
      × ((h : String) → contains h hs ≡ true → weight_of weight h ≤ weight_of weight b)
unfolding winner_of
winner_of-IsHeaviest weight [] x among there = absurd (cc among)
winner_of-IsHeaviest weight (h ∷ hs) x among there =
    let (b, won, top) =
      choose_best-IsHeaviest weight h (h ∷ hs) (there h (ground (arith, eq_iff h h))) there in
    (b, won, ground (arith, top.among), top.tops)

-- Whoever is not in the list was not raised and weighs nothing.
heaviest :
    (rs : List Reflection) (after : List String × Map.Map String ℕ) (h b : String)
    → IsTallied rs [] [] after
    → ((x : String) → contains x after.0 ≡ true → weight_of after.1 x ≤ weight_of after.1 b)
    → support h rs ≤ support b rs
unfolding Map.get
heaviest rs after h b tally tops = elim (Bool-cases (contains h after.0)) [
  | inl among ↦ omega (arith, tops h among, tally.weighed h, tally.weighed b)
  | inr out ↦
      let gone : is_some (Map.get after.1 h) ≡ false = ground (arith, tally.present h, out) in
      elim (Option-cases (Map.get after.1 h)) [
        | inl miss ↦ ground (arith, tally.weighed h, miss)
        | inr (w, hit) ↦ absurd (cc (rw hit at gone))
      ]
]

-- What a consensus of reflections says.
pub record IsConsensus (rs : List Reflection) (c : Consensus) : Type 0 where
  pub averaged : c.score ≡ min (total rs / length rs) 100
  pub listed : (h : String) → contains h c.hints ≡ is_raised h rs
  pub best : String
  pub elected : c.majority_hint ≡ some best
  pub raised : is_raised best rs ≡ true
  pub supported : (h : String) → support h rs ≤ support best rs
  pub counted : c.agreement.numerator ≡ support best rs

decided-lem :
    (score : ℕ) (hints : List String) (weight : Map.Map String ℕ) (b : String) (w : ℕ)
    → winner_of weight hints ≡ some b
    → Map.get weight b ≡ some w
    → decided score (hints, weight)
      ≡ some (record {
        score = score;
        hints = hints;
        majority_hint = some b;
        agreement = record { numerator = w; denominator = sum_from 0 (Map.values weight) };
      })
unfolding decided
decided-lem score hints weight b w won hit = rw (decided, won, hit) refl

-- For at least one reflection, whose scores are at most 100, and so few that the votes cannot
-- overflow, consensus does not panic: its score is the mean, its hints are those that were raised,
-- and the majority hint was raised and has at least the support of every other, which is counted as
-- the numerator of the agreement.
pub consensus-IsConsensus :
    (r : Reflection) (rs : List Reflection)
    → All (λ x. x.score ≤ 100) (r ∷ rs)
    → length (r ∷ rs) * 101 < u32_mod
    → (c : Consensus) × (consensus (r ∷ rs) ≡ some c) × IsConsensus (r ∷ rs) c
unfolding consensus Map.get
consensus-IsConsensus r rs low room =
    let all_ = r ∷ rs in
    let score = min (total all_ / length all_) 100 in
    let averaged_ = mean-lem all_ (omega arith) low room in
    let hints = (gather all_ [] []).0 in
    let weight = (gather all_ [] []).1 in
    let tally = gather-IsTallied all_ [] [] low (λ h. refl) (λ h. omega (arith, room)) in
    let (b, won, stands, tops) =
      winner_of-IsHeaviest weight hints r.hint
        (ground (arith, tally.listed r.hint, eq_iff r.hint r.hint))
        (λ h among. ground (arith, tally.present h, among)) in
    let (w, hit) = some_of (Map.get weight b) (ground (arith, tally.present b, stands)) in
    (
      record {
        score = score;
        hints = hints;
        majority_hint = some b;
        agreement = record { numerator = w; denominator = sum_from 0 (Map.values weight) };
      },
      rw (consensus, averaged_) (decided-lem score hints weight b w won hit),
      record {
        averaged = refl;
        listed = λ h. ground (arith, tally.listed h);
        best = b;
        elected = refl;
        raised = ground (arith, tally.listed b, stands);
        supported = λ h. heaviest all_ (hints, weight) h b tally tops;
        counted = ground (arith, tally.weighed b, hit);
      },
    )
