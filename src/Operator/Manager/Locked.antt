-- ===== src/Operator/Manager/Locked.antt =====
-- The states of an incident that is already dealt with, and what the store holds for its alert.
use summer_project.Prelude.{
  true, false, ◌≡◌, refl, ◌∙◌, ap, sym, inl, inr, some, [], ◌∷◌, String, Bool-cases, Option-cases,
}
use summer_project.Prelude.Text.{str_eq}
use summer_project.Prelude.Maps.{lookup, insert}
use summer_project.Operator.Models.{
  Time, State, unset, healthy, warning, investigating, decision_made, recovery_planned,
  executing_rollback, rollback_complete, verifying, verification_failed, retrying, waiting,
  recovered, failed, Incident,
}
use summer_project.Operator.Incidents.{Store, get_by_fingerprint, clone_incident, update}
use summer_project.Operator.StateMachine.{
  transition, same_state, is_transition_allowed, from_state, refusal,
}
use summer_project.Operator.StateMachine.History.{transition_cases}

-- The states from the decision until the recovery is verified or given up, without Verifying: from
-- Verifying a resolved alert may lead the incident home.
abbrev pub IsLocked : State → Type 0
IsLocked decision_made = Unit
IsLocked recovery_planned = Unit
IsLocked executing_rollback = Unit
IsLocked rollback_complete = Unit
IsLocked verification_failed = Unit
IsLocked retrying = Unit
IsLocked _ = ⊥

-- No move that ProcessAlert tries first is allowed.
pub record Refuses (s : State) : Type 0 where
  pub not_healthy : same_state s healthy ≡ false
  pub no_investigating : is_transition_allowed (from_state s) investigating ≡ false
  pub no_recovered : is_transition_allowed (from_state s) recovered ≡ false
  pub no_healthy : is_transition_allowed (from_state s) healthy ≡ false

abbrev refuses :
    {s : State}
    → same_state s healthy ≡ false
    → is_transition_allowed (from_state s) investigating ≡ false
    → is_transition_allowed (from_state s) recovered ≡ false
    → is_transition_allowed (from_state s) healthy ≡ false
    → Refuses s
refuses a b c d = record { not_healthy = a; no_investigating = b; no_recovered = c; no_healthy = d }

pub IsLocked-Refuses : (s : State) → IsLocked s → Refuses s
unfolding is_transition_allowed
IsLocked-Refuses decision_made h = refuses refl refl refl refl
IsLocked-Refuses recovery_planned h = refuses refl refl refl refl
IsLocked-Refuses executing_rollback h = refuses refl refl refl refl
IsLocked-Refuses rollback_complete h = refuses refl refl refl refl
IsLocked-Refuses verification_failed h = refuses refl refl refl refl
IsLocked-Refuses retrying h = refuses refl refl refl refl
IsLocked-Refuses unset h = absurd h
IsLocked-Refuses healthy h = absurd h
IsLocked-Refuses warning h = absurd h
IsLocked-Refuses investigating h = absurd h
IsLocked-Refuses verifying h = absurd h
IsLocked-Refuses waiting h = absurd h
IsLocked-Refuses recovered h = absurd h
IsLocked-Refuses failed h = absurd h

pub refused_move :
    (now : Time) (i : Incident) (to : State) (reason : String)
    → is_transition_allowed (from_state i.current_state) to ≡ false
    → transition now i to reason ≡ (i, some (refusal (from_state i.current_state) to))
refused_move now i to reason h = elim (transition_cases now i to reason) [
  | inl (allowed, e) ↦ cc (h, allowed)
  | inr (refused, e) ↦ e
]

-- The incident that the store holds for the fingerprint is in the state.
abbrev pub Holds : Store → String → State → Type 0
Holds store fingerprint s =
    (i : Incident) × (get_by_fingerprint store fingerprint ≡ some i) × (i.current_state ≡ s)

pub found-alert_id :
    (store : Store) (fingerprint : String) (i : Incident)
    → get_by_fingerprint store fingerprint ≡ some i
    → str_eq i.alert_id fingerprint ≡ true
unfolding get_by_fingerprint
found-alert_id [] fingerprint i h = cc
found-alert_id ((id, j) ∷ rest) fingerprint i h =
    elim (Bool-cases (str_eq j.alert_id fingerprint)) [
      | inl own ↦
          let it : clone_incident j ≡ i = cc (rw own at h) in
          ap (λ (k : Incident). str_eq k.alert_id fingerprint) (sym it) ∙ own
      | inr other ↦ found-alert_id rest fingerprint i (rw other at h)
    ]

insert-Holds :
    (store : Store) (key fingerprint : String) (j : Incident) (s : State)
    → str_eq j.alert_id fingerprint ≡ true
    → j.current_state ≡ s
    → Holds store fingerprint s
    → Holds (insert key (clone_incident j) store) fingerprint s
unfolding get_by_fingerprint insert
insert-Holds [] key fingerprint j s own locked (i, h, e) = cc
insert-Holds ((name, k) ∷ rest) key fingerprint j s own locked (i, h, e) =
    elim (Bool-cases (str_eq key name)) [
      | inl replaced ↦ rw (replaced, own) (_, refl, locked)
      | inr kept ↦ elim (Bool-cases (str_eq k.alert_id fingerprint)) [
        | inl mine ↦ rw (kept, mine) (i, rw mine at h, e)
        | inr other ↦
            rw (kept, other)
              (insert-Holds rest key fingerprint j s own locked (i, rw other at h, e))
      ]
    ]

pub update-Holds :
    (store : Store) (fingerprint : String) (j : Incident) (s : State)
    → str_eq j.alert_id fingerprint ≡ true
    → j.current_state ≡ s
    → Holds store fingerprint s
    → Holds (update store j).0 fingerprint s
unfolding update
update-Holds store fingerprint j s own locked h = elim (Option-cases (lookup j.id store)) [
  | inl absent ↦ rw absent h
  | inr (k, there) ↦ rw there (insert-Holds store j.id fingerprint j s own locked h)
]
