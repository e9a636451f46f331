-- ===== src/Operator/Helm.antt =====
-- internal/operator/helm/manager.go: GetLastHealthyRevision. The Helm SDK is not under src/: what it
-- answers is an argument. A release's user-supplied values are of a type `C` with the test that stands
-- for reflect.DeepEqual; none is a nil map.
pub mod Eligible
pub mod Sorting
pub mod LastHealthy
mod Examples
use summer_project.Prelude.{
  Bool, true, false, not, ◌&&◌, ◌||◌, if◌then◌else◌, Option, none, some, List, [], ◌∷◌, String, ◌≡◌,
  refl, ◌⊎◌, inl, inr,
}
use summer_project.Prelude.Int.{ℤ, pos, leb_ℤ, eqb_ℤ}
use summer_project.Prelude.Text.{sprint}
use summer_project.Operator.Models.{Time}

pub data Result {ℓ} (A : Type ℓ) : Type ℓ where
  ok : A → Result A
  err : String → Result A

pub Result-cases {ℓ} :
    {A : Type ℓ} (r : Result A) → ((a : A) × (r ≡ ok a)) ⊎ ((e : String) × (r ≡ err e))
Result-cases (ok a) = inl (a, refl)
Result-cases (err e) = inr (e, refl)

-- The SDK's release.Status.
pub data Status : Type 0 where
  unknown deployed uninstalled superseded failed uninstalling : Status
  pending_install pending_upgrade pending_rollback : Status

pub record Info : Type 0 where
  pub status : Status
  pub last_deployed : Time

pub record Release (C : Type 0) : Type 0 where
  pub version : ℤ
  pub config : Option C
  pub info : Option Info

abbrev pub is_viable : Option Info → Bool
is_viable none = false
is_viable (some i) = elim i.status [ deployed ↦ true | superseded ↦ true | _ ↦ false ]

abbrev pub or_unknown : Result ℤ → ℤ
or_unknown (ok v) = v
or_unknown (err e) = pos 0

abbrev pub no_target : String → String
no_target name = sprint ("no healthy historical revision found for release \"" ∷ name ∷ "\"" ∷ [])

abbrev found_or : String → Option ℤ → Result ℤ
found_or name (some v) = ok v
found_or name none = err (no_target name)

module _ {C : Type 0} (deep_equal : C → C → Bool) where
  insert_release : Release C → List (Release C) → List (Release C)
  insert_release r [] = r ∷ []
  insert_release r (s ∷ ss) =
      if leb_ℤ r.version s.version then r ∷ s ∷ ss else s ∷ insert_release r ss

  -- sort.Slice by version, oldest first.
  pub sort_releases : List (Release C) → List (Release C)
  unfolding insert_release
  sort_releases [] = []
  sort_releases (r ∷ rs) = insert_release r (sort_releases rs)

  -- The values of the first release that has the current revision.
  pub current_config : ℤ → List (Release C) → Option C
  current_config current [] = none
  current_config current (r ∷ rs) =
      if eqb_ℤ r.version current then r.config else current_config current rs

  -- `currentConfig != nil && reflect.DeepEqual(rel.Config, currentConfig)`
  abbrev pub same_config : Option C → Option C → Bool
  same_config none mine = false
  same_config (some c) none = false
  same_config (some c) (some d) = deep_equal d c

  abbrev pub is_target : ℤ → Option C → Release C → Bool
  is_target current config r =
      not (eqb_ℤ r.version current) && not (same_config config r.config) && is_viable r.info

  -- The backward loop: what stands later is looked at first.
  walk_back : ℤ → Option C → List (Release C) → Option ℤ
  walk_back current config [] = none
  walk_back current config (r ∷ rs) = elim (walk_back current config rs) [
    | some v ↦ some v
    | none ↦ if is_target current config r then some r.version else none
  ]

  -- What GetHistory and GetCurrentRevision answer comes first; then the release's name.
  pub get_last_healthy_revision : Result (List (Release C)) → Result ℤ → String → Result ℤ
  unfolding walk_back sort_releases current_config
  get_last_healthy_revision (err e) current name = err e
  get_last_healthy_revision (ok history) current name =
      let rev = or_unknown current in
      found_or name (walk_back rev (current_config rev history) (sort_releases history))
