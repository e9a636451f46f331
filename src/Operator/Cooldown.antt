-- ===== src/Operator/Cooldown.antt =====
-- internal/operator/utils/cooldown.go: the cooldown manager. Its map is passed from call to call; each
-- method runs under the manager's lock, so a run of it is one step. `now` is the clock's reading.
pub mod Windows
pub mod Exclusion
mod Examples
use summer_project.Prelude.{
  Bool, true, false, if◌then◌else◌, Option, none, some, List, [], ◌∷◌, String,
}
use summer_project.Prelude.Int.{ℤ, pos, ◌+ℤ◌, ◌-ℤ◌, ltb_ℤ}
use summer_project.Prelude.Text.{sprint}
use summer_project.Prelude.Maps.{Map, lookup, insert}
use summer_project.Operator.Models.{Time, Duration}

-- `cooldownUntil`.
abbrev pub CooldownManager : Type 0
CooldownManager = Map Time

abbrev pub new : CooldownManager
new = []

abbrev pub alert_key : String → String → String
alert_key service alert_name = sprint (service ∷ "/" ∷ alert_name ∷ [])

abbrev pub exec_key : String → String
exec_key service = sprint ("exec/" ∷ service ∷ [])

-- What both tests share: the time left of an entry, if it is positive.
abbrev pub remaining : Time → Option Time → Option Duration
remaining now none = none
remaining now (some until) = if ltb_ℤ (pos 0) (until -ℤ now) then some (until -ℤ now) else none

abbrev flag : Option Duration → Bool × Duration
flag none = (false, pos 0)
flag (some d) = (true, d)

unfoldable pub is_cooling_down : Time → CooldownManager → String → String → Bool × Duration
is_cooling_down now cm service alert_name =
    flag (remaining now (lookup (alert_key service alert_name) cm))

unfoldable pub record_recovery :
    Time → CooldownManager → String → String → Duration → CooldownManager
record_recovery now cm service alert_name duration =
    insert (alert_key service alert_name) (now +ℤ duration) cm

-- The new map, whether the slot was claimed, and the time left if not.
unfoldable pub try_start_execution :
    Time → CooldownManager → String → Duration → CooldownManager × Bool × Duration
try_start_execution now cm service window = elim (remaining now (lookup (exec_key service) cm)) [
  | some d ↦ (cm, false, d)
  | none ↦ (insert (exec_key service) (now +ℤ window) cm, true, pos 0)
]
