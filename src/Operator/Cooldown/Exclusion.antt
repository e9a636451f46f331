-- ===== src/Operator/Cooldown/Exclusion.antt =====
-- The execution gate: `TryStartExecution` grants a service's slot at most once in a window.
use summer_project.Prelude.{
  true, false, if◌then◌else◌, ◌≡◌, ◌≢◌, ◌⊎◌, inl, inr, ◌&&◌, Option, none, some, List, [], ◌∷◌,
  String, arith, All, Option-cases, Bool-cases,
}
use summer_project.Prelude.Int.{pos, ◌+ℤ◌, ◌≤ℤ◌, int_laws, -ℤ_parts}
use summer_project.Prelude.Text.{str_eq, eq_iff, str_eq-false, append_cancel_left}
use summer_project.Prelude.Maps.{lookup, insert, lookup-insert, lookup-insert_self}
use summer_project.Operator.Models.{Time, Duration}
use summer_project.Operator.Cooldown.{
  CooldownManager, alert_key, exec_key, remaining, record_recovery, try_start_execution,
}

-- One call of the manager, by any of the goroutines that share it.
pub data Call : Type 0 where
  query : String → String → Call
  record_call : String → String → Duration → Call
  start : String → Duration → Call

-- The times at which the calls of a schedule were granted the slot of a service.
unfoldable pub grants : String → CooldownManager → List (Time × Call) → List Time
grants s cm [] = []
grants s cm ((now, query service name) ∷ calls) = grants s cm calls
grants s cm ((now, record_call service name d) ∷ calls) =
    grants s (record_recovery now cm service name d) calls
grants s cm ((now, start service window) ∷ calls) =
    let result = try_start_execution now cm service window in
    let rest = grants s result.0 calls in if result.1 && str_eq service s then now ∷ rest else rest

-- Each time is at least `w` after the one before it.
abbrev pub After : Duration → Option Time → Time → Type 0
After w none t = Unit
After w (some last) t = last +ℤ w ≤ℤ t

abbrev pub Spaced : Duration → Option Time → List Time → Type 0
Spaced w last [] = Unit
Spaced w last (t ∷ ts) = After w last t × Spaced w (some t) ts

-- Calls that respect the gate of `s`: no alert has its key, and its windows last at least `w`.
abbrev pub Respects : String → Duration → Time × Call → Type 0
Respects s w (now, query service name) = Unit
Respects s w (now, record_call service name d) = alert_key service name ≢ exec_key s
Respects s w (now, start service window) = service ≡ s → w ≤ℤ window

-- The entry that the last grant left is still there.
abbrev Holds : String → Duration → Option Time → CooldownManager → Type 0
Holds s w none cm = Unit
Holds s w (some last) cm =
    (until : Time) × (lookup (exec_key s) cm ≡ some until) × (last +ℤ w ≤ℤ until)

pub exec_key_inj : (a b : String) → exec_key a ≡ exec_key b → a ≡ b
exec_key_inj a b e = append_cancel_left "exec/" a b e

remaining-none : (now until : Time) → remaining now (some until) ≡ none → until ≤ℤ now
remaining-none now until e = ground (arith, -ℤ_parts until now)

-- A refused start changes nothing; a granted one found no time left, and opens its window.
pub start_cases :
    (now : Time) (cm : CooldownManager) (service : String) (window : Duration)
    → ((d : Duration) × (try_start_execution now cm service window ≡ (cm, false, d)))
      ⊎ ((remaining now (lookup (exec_key service) cm) ≡ none)
          × (try_start_execution now cm service window
              ≡ (insert (exec_key service) (now +ℤ window) cm, true, pos 0)))
unfolding try_start_execution
start_cases now cm service window =
    elim (Option-cases (remaining now (lookup (exec_key service) cm))) [
      | inl e ↦ inr (e, rw (e, try_start_execution))
      | inr (d, e) ↦ inl (d, rw (e, try_start_execution))
    ]

-- An entry under another key is not touched.
Holds-insert :
    (s k : String) (w : Duration) (last : Option Time) (t : Time) (cm : CooldownManager)
    → k ≢ exec_key s
    → Holds s w last cm
    → Holds s w last (insert k t cm)
Holds-insert s k w none t cm h held = tt
Holds-insert s k w (some last) t cm h (until, e, le) =
    (until, rw (lookup-insert, str_eq-false _ _ h) e, le)

-- A grant comes at the end of the window of the one before it, or later.
After-grant :
    (s : String) (w : Duration) (last : Option Time) (now : Time) (cm : CooldownManager)
    → Holds s w last cm
    → remaining now (lookup (exec_key s) cm) ≡ none
    → After w last now
After-grant s w none now cm held e = tt
After-grant s w (some last) now cm (until, found, le) e =
    omega (arith, remaining-none now until (rw found at e))

-- A grant to another service leaves the entry; one to the service itself renews it.
Holds-other :
    (s service : String) (w : Duration) (last : Option Time) (t : Time) (cm : CooldownManager)
    → str_eq service s ≡ false
    → Holds s w last cm
    → Holds s w last (insert (exec_key service) t cm)
Holds-other s service w last t cm other held =
    Holds-insert s (exec_key service) w last t cm
      (λ e. ground (arith, eq_iff service s, exec_key_inj service s e)) held

Holds-self :
    (s service : String) (w window : Duration) (now : Time) (cm : CooldownManager)
    → service ≡ s
    → w ≤ℤ window
    → Holds s w (some now) (insert (exec_key service) (now +ℤ window) cm)
Holds-self s service w window now cm e le =
    (now +ℤ window, rw e (lookup-insert_self (exec_key s) (now +ℤ window) cm), omega int_laws)

grants-Spaced :
    (s : String) (w : Duration) (last : Option Time) (cm : CooldownManager)
    (calls : List (Time × Call))
    → All (Respects s w) calls
    → Holds s w last cm
    → Spaced w last (grants s cm calls)
unfolding grants
grants-Spaced s w last cm [] ok held = tt
grants-Spaced s w last cm ((now, query service name) ∷ calls) ok held =
    grants-Spaced s w last cm calls ok.1 held
grants-Spaced s w last cm ((now, record_call service name d) ∷ calls) ok held =
    grants-Spaced s w last (record_recovery now cm service name d) calls ok.1
      (unfold record_recovery in Holds-insert s _ w last (now +ℤ d) cm ok.0 held)
grants-Spaced s w last cm ((now, start service window) ∷ calls) ok held =
    elim (start_cases now cm service window) [
      | inl (d, e) ↦ rw e (grants-Spaced s w last cm calls ok.1 held)
      | inr (free, e) ↦ rw e (elim (Bool-cases (str_eq service s)) [
        | inl same ↦
            let it = (eq_iff service s).0 same in
            rw same (
              After-grant s w last now cm held (rw it at free),
              grants-Spaced s w (some now) (insert (exec_key service) (now +ℤ window) cm) calls ok.1
                  (Holds-self s service w window now cm it (ok.0 it)),
            )
        | inr other ↦ rw other (
            grants-Spaced s w last (insert (exec_key service) (now +ℤ window) cm) calls ok.1
              (Holds-other s service w last (now +ℤ window) cm other held))
      ])
    ]

-- Whatever calls are made, by whatever goroutines and in whatever order, the slot of a service is
-- granted at times of which each is at least `w` after the one before, if every window asked for the
-- service lasts at least `w` and no alert's key is the service's.
pub executions_exclusive :
    (s : String) (w : Duration) (cm : CooldownManager) (calls : List (Time × Call))
    → All (Respects s w) calls
    → Spaced w none (grants s cm calls)
executions_exclusive s w cm calls ok = grants-Spaced s w none cm calls ok tt
