-- ===== src/Operator/Cooldown/Windows.antt =====
-- The window that `RecordRecovery` opens, as `IsCoolingDown` reports it.
use summer_project.Prelude.{true, false, if◌then◌else◌, ◌≡◌, ◌≢◌, String, arith}
use summer_project.Prelude.Int.{pos, ◌+ℤ◌, ◌-ℤ◌, ltb_ℤ, -ℤ_parts}
use summer_project.Prelude.Text.{eq_refl, str_eq-false}
use summer_project.Prelude.Maps.{lookup-insert}
use summer_project.Operator.Models.{Time, Duration}
use summer_project.Operator.Cooldown.{CooldownManager, alert_key, is_cooling_down, record_recovery}

-- After a recovery is recorded at `now` for a duration, the pair is cooling down at exactly the times
-- before the window's end, with the time that is left to it.
pub is_cooling_down-record_recovery :
    (now later : Time) (cm : CooldownManager) (service name : String) (d : Duration)
    → is_cooling_down later (record_recovery now cm service name d) service name
      ≡ (if ltb_ℤ later (now +ℤ d) then (true, now +ℤ d -ℤ later) else (false, pos 0))
unfolding is_cooling_down record_recovery
is_cooling_down-record_recovery now later cm service name d =
    simp (lookup-insert, eq_refl) (ground (arith, -ℤ_parts (now +ℤ d) later))

-- A recovery recorded for one pair says nothing of a pair with another key.
pub is_cooling_down-record_recovery_ne :
    (now later : Time) (cm : CooldownManager) (service name other other_name : String)
    (d : Duration)
    → alert_key service name ≢ alert_key other other_name
    → is_cooling_down later (record_recovery now cm service name d) other other_name
      ≡ is_cooling_down later cm other other_name
unfolding is_cooling_down record_recovery
is_cooling_down-record_recovery_ne now later cm service name other other_name d h =
    simp (lookup-insert, str_eq-false _ _ h)
