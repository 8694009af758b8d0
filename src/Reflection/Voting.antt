-- ===== src/Reflection/Voting.antt =====
-- The vote of the consensus of sdk/src/reflection.rs: what the majority hint is.
use text.Mathlib.TextEquality.{eq_iff}
use ckos.Base.{
  ℕ, ◌+◌, ◌*◌, ◌%◌, ◌≤◌, ◌<◌, String, List, [], ◌∷◌, ◌++◌, Bool, true, ◌||◌, some, is_some, ltb,
  if◌then◌else◌, length, contains, get_or, any, All, ◌≡◌, refl, arith, ◌==◌, string_eq, nat_eq,
  Option-cases, inl, inr,
}
use ckos.Base.Map
use ckos.Base.Map.{get-insert}
use ckos.Kernel.Task.{u32_mod}
use ckos.Reflection.{Reflection, gather, heavier, choose_best}

-- What the reflections with a hint weigh: the score of each, and one.
abbrev pub support : String → List Reflection → ℕ
support h [] = 0
support h (r ∷ rs) = (if r.hint == h then r.score + 1 else 0) + support h rs

abbrev pub is_raised : String → List Reflection → Bool
is_raised h rs = any (λ r. r.hint == h) rs

abbrev pub weight_of : Map.Map String ℕ → String → ℕ
weight_of weight h = get_or (Map.get weight h) 0

congr_weight :
    (weight : Map.Map String ℕ) (a b : String) → a ≡ b → weight_of weight a ≡ weight_of weight b
congr_weight weight a b e = rw e refl

-- Each hint weighs what supported it, and stands in the list exactly when it has a weight.
pub record IsTallied (rs : List Reflection) (hints : List String) (weight : Map.Map String ℕ)
    (after : List String × Map.Map String ℕ) : Type 0 where
  pub weighed : (h : String) → weight_of after.1 h ≡ weight_of weight h + support h rs
  pub listed : (h : String) → contains h after.0 ≡ contains h hints || is_raised h rs
  pub present : (h : String) → is_some (Map.get after.1 h) ≡ contains h after.0

contains-snoc :
    (h x : String) (hs : List String) → contains h (hs ++ x ∷ []) ≡ contains h hs || (x == h)
contains-snoc h x [] = ground arith
contains-snoc h x (y ∷ ys) = ground (arith, contains-snoc h x ys)

pub gather-IsTallied :
    (rs : List Reflection) (hints : List String) (weight : Map.Map String ℕ)
    → All (λ r. r.score ≤ 100) rs
    → ((h : String) → is_some (Map.get weight h) ≡ contains h hints)
    → ((h : String) → weight_of weight h + length rs * 101 < u32_mod)
    → IsTallied rs hints weight (gather rs hints weight)
unfolding gather
gather-IsTallied [] hints weight low known room = record {
  weighed = λ h. omega arith;
  listed = λ h. ground arith;
  present = known;
}
gather-IsTallied (r ∷ rs) hints weight low known room =
    let hints' = if contains r.hint hints then hints else hints ++ r.hint ∷ [] in
    let sum = (weight_of weight r.hint + (r.score + 1)) % u32_mod in
    let weight' = Map.insert weight r.hint sum in
    let exact : sum ≡ weight_of weight r.hint + (r.score + 1) = omega (arith, room r.hint, low.0) in
    let kept : (h : String) → contains h hints' ≡ contains h hints || (r.hint == h) =
      λ h. ground (arith, contains-snoc h r.hint hints, eq_iff r.hint h) in
    let written : (h : String)
        → weight_of weight' h ≡ (if r.hint == h then sum else weight_of weight h) =
      λ h. rw (weight_of, get-insert weight r.hint h sum) (ground arith) in
    let rest =
      gather-IsTallied rs hints' weight' low.1
        (λ h. rw (get-insert weight r.hint h sum) (ground (arith, kept h, known h)))
        (λ h. ground (arith, written h, exact, room h, low.0, eq_iff r.hint h, room r.hint)) in
    record {
      weighed = λ h.
          ground (
            arith,
            rest.weighed h,
            written h,
            exact,
            eq_iff r.hint h,
            congr_weight weight r.hint h,
          );
      listed = λ h. ground (arith, rest.listed h, kept h);
      present = rest.present;
    }

-- A hint that weighs at least as much as the others.
pub record IsHeaviest (weight : Map.Map String ℕ) (best : String) (hs : List String) (b : String)
    : Type 0 where
  pub among : (contains b (best ∷ hs)) ≡ true
  pub tops_best : weight_of weight best ≤ weight_of weight b
  pub tops : (h : String) → contains h hs ≡ true → weight_of weight h ≤ weight_of weight b

heavier-some :
    (weight : Map.Map String ℕ) (best h : String)
    → is_some (Map.get weight best) ≡ true
    → is_some (Map.get weight h) ≡ true
    → heavier weight best h
      ≡ some (if ltb (weight_of weight best) (weight_of weight h) then h else best)
unfolding heavier
heavier-some weight best h there here = elim (Option-cases (Map.get weight h)) [
  | inl miss ↦ absurd (cc (rw miss at here))
  | inr (w, hit) ↦ elim (Option-cases (Map.get weight best)) [
    | inl miss ↦ absurd (cc (rw miss at there))
    | inr (v, hit') ↦ rw (heavier, weight_of, hit, hit') refl
  ]
]

pub choose_best-IsHeaviest :
    (weight : Map.Map String ℕ) (best : String) (hs : List String)
    → is_some (Map.get weight best) ≡ true
    → ((h : String) → contains h hs ≡ true → is_some (Map.get weight h) ≡ true)
    → (b : String) × (choose_best weight best hs ≡ some b) × IsHeaviest weight best hs b
unfolding choose_best
choose_best-IsHeaviest weight best [] there all_ = (
  best,
  refl,
  record {
    among = ground (arith, eq_iff best best);
    tops_best = omega arith;
    tops = λ h bad. ground (arith, bad);
  },
)
choose_best-IsHeaviest weight best (h ∷ hs) there all_ =
    let here = all_ h (ground (arith, eq_iff h h)) in
    let next = if ltb (weight_of weight best) (weight_of weight h) then h else best in
    let (b, chosen, rest) =
      choose_best-IsHeaviest weight next hs (ground (arith, there, here))
        (λ x among. all_ x (ground (arith, among))) in
    (
      b,
      rw (choose_best, heavier-some weight best h there here) chosen,
      record {
        among = ground (arith, rest.among);
        tops_best = ground (arith, rest.tops_best);
        tops = λ x among.
            ground (arith, among, rest.tops x, rest.tops_best, eq_iff h x, congr_weight weight h x);
      },
    )
