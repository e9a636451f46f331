-- ===== src/Operator/Policies.antt =====
-- internal/operator/policy/engine.go: Match, without the counter that it increments.
mod Examples
use summer_project.Prelude.{
  Bool, true, false, ◌&&◌, if◌then◌else◌, ◌≡◌, refl, ap, ◌⊎◌, inl, inr, Option, none, some, List,
  [], ◌∷◌, ◌++◌, arith, All, Bool-cases,
}
use summer_project.Prelude.Text.{str_eq, eq_iff}
use summer_project.Operator.Models.{Alert, Policy}

-- The source returns nil and false where this returns none.
unfoldable pub match_policy : List Policy → Alert → Option Policy
match_policy [] alert = none
match_policy (p ∷ ps) alert =
    if str_eq p.service alert.service && str_eq p.alert_name alert.name
    then some p
    else match_policy ps alert

abbrev pub Applies : Alert → Policy → Type 0
Applies alert p = (p.service ≡ alert.service) × (p.alert_name ≡ alert.name)

hits :
    (p : Policy) (alert : Alert)
    → (str_eq p.service alert.service && str_eq p.alert_name alert.name) ≡ true
    → Applies alert p
hits p alert h = ground (arith, eq_iff p.service alert.service, eq_iff p.alert_name alert.name)

misses :
    (p : Policy) (alert : Alert)
    → (str_eq p.service alert.service && str_eq p.alert_name alert.name) ≡ false
    → ¬ Applies alert p
misses p alert h (s, n) =
    ground (arith, eq_iff p.service alert.service, eq_iff p.alert_name alert.name)

-- Either no configured policy applies to the alert and none is returned, or the policies are some that
-- do not apply, then one that does and is returned, then the rest.
pub match_policy_first :
    (ps : List Policy) (alert : Alert)
    → ((match_policy ps alert ≡ none) × All (λ p. ¬ Applies alert p) ps)
      ⊎ ((before : List Policy) × (p : Policy) × (after : List Policy) × (match_policy ps alert
            ≡ some p)
          × (ps ≡ before ++ p ∷ after)
          × Applies alert p
          × All (λ q. ¬ Applies alert q) before)
unfolding match_policy
match_policy_first [] alert = inl (refl, tt)
match_policy_first (p ∷ ps) alert =
    elim (Bool-cases (str_eq p.service alert.service && str_eq p.alert_name alert.name)) [
      | inl hit ↦ inr ([], p, ps, rw hit refl, refl, hits p alert hit, tt)
      | inr miss ↦ elim (match_policy_first ps alert) [
        | inl (e, none_applies) ↦ inl (rw miss e, (misses p alert miss, none_applies))
        | inr (before, q, after, e, parts, applies, earlier) ↦ inr (
          p ∷ before,
          q,
          after,
          rw miss e,
          ap (◌∷◌ p) parts,
          applies,
          (misses p alert miss, earlier),
        )
      ]
    ]
