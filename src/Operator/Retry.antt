-- ===== src/Operator/Retry.antt =====
-- internal/operator/retry/engine.go: which errors are worth a retry, how long to wait, and the loop. What
-- the operation and the context answer before each attempt is an argument.
pub mod Outcomes
pub mod Backoff
mod Examples
use summer_project.Prelude.{
  ℕ, zero, suc, ◌+◌, ◌*◌, ◌^◌, Bool, true, false, not, ◌||◌, if◌then◌else◌, Option, none, some,
  List, [], ◌∷◌, String, map, ltb, ◌==◌,
}
use summer_project.Prelude.Int.{ℤ, pos, negsuc, pos_part, leb_ℤ, ltb_ℤ}
use summer_project.Prelude.Text.{codes, lower, contains}
use summer_project.Operator.Models.{Duration, minute}

abbrev pub non_transient_rules : List String
non_transient_rules =
    "release: not found" ∷ "release not found" ∷ "namespace not found" ∷ "invalid namespace"
    ∷ "revision not found" ∷ "no healthy historical revision" ∷ "invalid release name"
    ∷ "unauthorized" ∷ "forbidden" ∷ []

unfoldable pub any_contained : List ℕ → List String → Bool
any_contained text [] = false
any_contained text (rule ∷ rules) = contains text (codes rule) || any_contained text rules

-- none is nil.
unfoldable pub is_transient : Option String → Bool
unfolding any_contained
is_transient none = false
is_transient (some e) = not (any_contained (map lower (codes e)) non_transient_rules)

abbrev pub max_backoff : Duration
max_backoff = pos (5 * minute)

-- A float64 scaled by a power of two is exact, and one in the range of an int64 converts exactly; what a
-- larger one converts to is the machine's, and is an argument.
abbrev pub to_duration : ℤ → ℕ → Duration
to_duration outside n = if ltb n (2 ^ 63) then pos n else outside

unfoldable pub calculate_backoff : ℤ → ℤ → ℕ → Duration
calculate_backoff outside (negsuc n) base = pos base
calculate_backoff outside (pos zero) base = pos base
calculate_backoff outside (pos (suc n)) base =
    let backoff = to_duration outside (base * 2 ^ suc n) in
    if ltb_ℤ max_backoff backoff then max_backoff else backoff

-- What the operation returns at each attempt, and what the context says while it is waited for it.
pub record Trials : Type 0 where
  pub operation : ℕ → Option String
  pub cancelled : ℕ → Option String

pub record Retried : Type 0 where
  pub calls : ℕ
  pub error : Option String

-- One pass of the loop leaves it, or goes on with the last error.
pub data Pass : Type 0 where
  stop : Retried → Pass
  go_on : Option String → Pass

abbrev pub retried : ℕ → Option String → Retried
retried calls error = record { calls = calls; error = error }

judged : ℕ → Option String → Pass
judged attempt none = stop (retried (suc attempt) none)
judged attempt (some e) =
    if is_transient (some e) then go_on (some e) else stop (retried (suc attempt) (some e))

abbrev interrupted : Trials → ℕ → Option String
interrupted t zero = none
interrupted t (suc n) = t.cancelled (suc n)

pass : Trials → ℕ → Pass
unfolding judged
pass t attempt = elim (interrupted t attempt) [
  | some e ↦ stop (retried attempt (some e))
  | none ↦ judged attempt (t.operation attempt)
]

-- The loop, over the number of attempts that are left and the number of the next one.
pub loop : Trials → ℕ → ℕ → Pass → Retried
unfolding pass
loop t left attempt (stop r) = r
loop t zero attempt (go_on last) = retried attempt last
loop t (suc left) attempt (go_on last) = loop t left (suc attempt) (pass t attempt)

-- `attempt <= maxRetries`: one more attempt than retries, and none below 0.
abbrev pub attempts_of : ℤ → ℕ
attempts_of (pos n) = suc n
attempts_of (negsuc n) = 0

unfoldable pub execute_with_retry : ℤ → Trials → Retried
execute_with_retry max_retries t = loop t (attempts_of max_retries) 0 (go_on none)
