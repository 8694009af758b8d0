-- ===== src/Runtime/Tokens.antt =====
-- Reading the tokens of priorities, capabilities and kinds of runtimes: kernel/src/task.rs,
-- kernel/src/capability.rs and runtime/src/lib.rs.
use text.Mathlib.TextEquality.{eq_iff}
use ckos.Base.{String, All, ◌≡◌, ◌↔◌, refl, arith, normalised, string_eq}
use ckos.Kernel.Error.{ok}
use ckos.Kernel.Capability.{as_token, from_str, builtin}
use ckos.Kernel.Task.{
  Priority, low, normal, high, critical, priority_token, priority_of, priority_from_str,
}
use ckos.Runtime.{RuntimeKind, cpu, gpu, npu, edge, cloud, kind_token, kind_of, kind_from_str}

priority_of_iff : (t : String) (p : Priority) → (priority_of t ≡ ok p) ↔ (t ≡ priority_token p)
unfolding priority_of priority_token
priority_of_iff t low = (λ e. ground (arith, eq_iff t "low", e), λ e. rw e refl)
priority_of_iff t normal = (λ e. ground (arith, eq_iff t "normal", e), λ e. rw e refl)
priority_of_iff t high = (λ e. ground (arith, eq_iff t "high", e), λ e. rw e refl)
priority_of_iff t critical = (λ e. ground (arith, eq_iff t "critical", e), λ e. rw e refl)

kind_of_iff : (t : String) (k : RuntimeKind) → (kind_of t ≡ ok k) ↔ (t ≡ kind_token k)
unfolding kind_of kind_token
kind_of_iff t cpu = (λ e. ground (arith, eq_iff t "cpu", e), λ e. rw e refl)
kind_of_iff t gpu = (λ e. ground (arith, eq_iff t "gpu", e), λ e. rw e refl)
kind_of_iff t npu = (λ e. ground (arith, eq_iff t "npu", e), λ e. rw e refl)
kind_of_iff t edge = (λ e. ground (arith, eq_iff t "edge", e), λ e. rw e refl)
kind_of_iff t cloud = (λ e. ground (arith, eq_iff t "cloud", e), λ e. rw e refl)

-- A priority, or a kind of runtime, is read from a text exactly when its token is the text without
-- the white space around it and in lower case.
pub from_str_iff :
    (s : String) (p : Priority) (k : RuntimeKind)
    → ((priority_from_str s ≡ ok p) ↔ (normalised s ≡ priority_token p))
      × ((kind_from_str s ≡ ok k) ↔ (normalised s ≡ kind_token k))
unfolding priority_from_str kind_from_str
from_str_iff s p k = (priority_of_iff (normalised s) p, kind_of_iff (normalised s) k)

-- The token of every built-in capability is read as that capability.
builtin-from_str : All (λ c. from_str (as_token c) ≡ c) builtin
unfolding builtin from_str as_token
builtin-from_str = (
  refl,
  (
    refl,
    (
      refl,
      (refl, (refl, (refl, (refl, (refl, (refl, (refl, (refl, (refl, (refl, (refl, tt))))))))))),
    ),
  ),
)
