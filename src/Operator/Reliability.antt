-- ===== src/Operator/Reliability.antt =====
-- internal/operator/reliability/engine.go: CalculateMTTR. What the stores list is an argument; none is their
-- error. Durations are Go's int64, whose sums wrap. The loops over the incidents and the rollbacks keep a total and a count for each figure, and each
-- of those is a loop of its own here.
pub mod Sorting
pub mod Means
pub mod Figures
pub mod Scores
pub mod Ratings
mod Examples
use summer_project.Prelude.{
  ℕ, zero, suc, ◌*◌, ◌/◌, length, Bool, true, false, not, ◌&&◌, if◌then◌else◌, Option, none, some,
  List, [], ◌∷◌, String,
}
use summer_project.Prelude.Int.{ℤ, pos, negsuc, ◌+ℤ◌, ◌-ℤ◌, ltb_ℤ, eqb_ℤ}
use summer_project.Prelude.Int64.{wrap_int64, saturated}
use summer_project.Prelude.Text.{str_eq}
use summer_project.Operator.Models.{
  Time, Duration, minute, hour, second, State, investigating, warning, decision_made,
  StateTransition, Incident, RollbackHistory,
}

pub record MttrReport : Type 0 where
  pub scope : String
  pub target : String
  pub mttd : Duration
  pub mttr : Duration
  pub mtbf : Duration
  pub average_rollback_time : Duration
  pub average_verification_time : Duration
  pub average_recovery_time : Duration
  pub average_investigation_time : Duration

-- Go's Time.Sub, which stops at the ends of int64.
abbrev pub sub_time : Time → Time → Duration
sub_time t u = saturated (t -ℤ u)

abbrev pub is_zero : Time → Bool
is_zero t = eqb_ℤ t (pos 0)

-- The switch on the scope; every other scope is the whole cluster.
abbrev pub in_scope : String → String → String → String → String → Bool
in_scope scope target service namespace release =
    if str_eq scope "service"
    then str_eq service target
    else if str_eq scope "namespace"
    then str_eq namespace target
    else if str_eq scope "release"
    then str_eq release target
    else true

module _ {ℓ} {A : Type ℓ} where
  unfoldable pub kept : (A → Bool) → List A → List A
  kept p [] = []
  kept p (x ∷ xs) = let rest = kept p xs in if p x then x ∷ rest else rest

abbrev pub incidents_of : String → String → List Incident → List Incident
incidents_of scope target = kept (λ i. in_scope scope target i.service i.namespace i.helm_release)

abbrev pub rollbacks_of : String → String → List RollbackHistory → List RollbackHistory
rollbacks_of scope target = kept (λ r. in_scope scope target r.service r.namespace r.helm_release)

-- A total with the number of its samples.
pub record Sum : Type 0 where
  pub total : Duration
  pub count : ℕ

abbrev pub no_samples : Sum
no_samples = record { total = pos 0; count = 0 }

abbrev pub add_sample : Option Duration → Sum → Sum
add_sample none s = s
add_sample (some d) s = record { total = wrap_int64 (s.total +ℤ d); count = suc s.count }

module _ {A : Type 0} where
  unfoldable pub gather : (A → Option Duration) → List A → Sum → Sum
  gather sample [] s = s
  gather sample (x ∷ xs) s = gather sample xs (add_sample (sample x) s)

-- A sample counts only if it is positive.
abbrev pub positive : Duration → Option Duration
positive d = if ltb_ℤ (pos 0) d then some d else none

abbrev is_investigating : State → Bool
is_investigating investigating = true
is_investigating _ = false

abbrev is_start : State → Bool
is_start investigating = true
is_start warning = true
is_start _ = false

abbrev is_decision : State → Bool
is_decision decision_made = true
is_decision _ = false

unfoldable pub investigated_at : List StateTransition → Option Time
investigated_at [] = none
investigated_at (h ∷ hs) =
    let rest = investigated_at hs in if is_investigating h.to_state then some h.timestamp else rest

-- From the start of the alert to the investigation, or to the last update if there was none.
abbrev detection_time : Incident → Duration
detection_time i = elim (investigated_at i.history) [
  | none ↦ sub_time i.last_update i.start_time
  | some t ↦ sub_time t i.start_time
]

abbrev pub not_negative : Duration → Duration
not_negative d = if ltb_ℤ d (pos 0) then pos 0 else d

abbrev pub detection : Incident → Option Duration
detection i = if is_zero i.start_time then none else some (not_negative (detection_time i))

abbrev pub repair : Incident → Option Duration
repair i =
    if str_eq i.status "resolved" && not (is_zero i.end_time)
    then positive (sub_time i.end_time i.start_time)
    else none

unfoldable pub inv_start : Time → List StateTransition → Time
inv_start at [] = at
inv_start at (h ∷ hs) = inv_start (if is_start h.to_state && is_zero at then h.timestamp else at) hs

unfoldable pub decision_time : Time → List StateTransition → Time
decision_time at [] = at
decision_time at (h ∷ hs) = decision_time (if is_decision h.to_state then h.timestamp else at) hs

abbrev pub between : Time → Time → Option Duration
between start decided =
    if not (is_zero start) && not (is_zero decided) then positive (sub_time decided start) else none

abbrev pub investigation : Incident → Option Duration
investigation i = between (inv_start (pos 0) i.history) (decision_time (pos 0) i.history)

-- The exchange sort: one turn of the outer loop, with what the inner one leaves of the rest.
abbrev pub exchanged : Incident → Incident → Incident × Incident
exchanged x y = if ltb_ℤ y.start_time x.start_time then (y, x) else (x, y)

unfoldable pub sweep : Incident → List Incident → Incident × List Incident
sweep x [] = (x, [])
sweep x (y ∷ ys) =
    let (low, high) = exchanged x y in let (least, rest) = sweep low ys in (least, high ∷ rest)

unfoldable pub exchange_sort : ℕ → List Incident → List Incident
exchange_sort zero xs = xs
exchange_sort (suc n) [] = []
exchange_sort (suc n) (x ∷ xs) = let (least, rest) = sweep x xs in least ∷ exchange_sort n rest

abbrev pub sorted_by_start : List Incident → List Incident
sorted_by_start xs = exchange_sort (length xs) xs

abbrev ended_at : Incident → Time
ended_at i = if is_zero i.end_time then i.last_update else i.end_time

-- The pairs of neighbours, of which there are none below two incidents.
unfoldable pub neighbours : List Incident → List (Incident × Incident)
neighbours [] = []
neighbours (x ∷ []) = []
neighbours (x ∷ y ∷ ys) = (x, y) ∷ neighbours (y ∷ ys)

abbrev pub uptime : Incident × Incident → Option Duration
uptime (x, y) = positive (sub_time y.start_time (ended_at x))

abbrev pub recovery : RollbackHistory → Option Duration
recovery r =
    if ltb_ℤ r.start_time r.finish_time then some (sub_time r.finish_time r.start_time) else none

abbrev pub rollback : RollbackHistory → Option Duration
rollback r = positive r.recovery_duration

abbrev pub verification : RollbackHistory → Option Duration
verification r = positive (wrap_int64 (sub_time r.finish_time r.start_time -ℤ r.recovery_duration))

-- Go's division of durations, which cuts off towards zero.
abbrev pub quot : Duration → ℕ → Duration
quot (pos a) n = pos (a / n)
quot (negsuc a) n = pos 0 -ℤ pos (suc a / n)

abbrev pub quot_or : Duration → Duration → ℕ → Duration
quot_or default_d total zero = default_d
quot_or default_d total (suc n) = quot total (suc n)

abbrev pub mean : {A : Type 0} → Duration → (A → Option Duration) → List A → Duration
mean default_d sample xs = let s = gather sample xs no_samples in quot_or default_d s.total s.count

abbrev pub report_of : String → String → List Incident → List RollbackHistory → MttrReport
report_of scope target is rs = record {
  scope = scope;
  target = target;
  mttd = mean (pos minute) detection is;
  mttr = mean (pos (5 * minute)) repair is;
  mtbf = mean (pos (24 * hour)) uptime (neighbours (sorted_by_start is));
  average_rollback_time = mean (pos (45 * second)) rollback rs;
  average_verification_time = mean (pos (30 * second)) verification rs;
  average_recovery_time = mean (pos (75 * second)) recovery rs;
  average_investigation_time = mean (pos (15 * second)) investigation is;
}

unfoldable pub calculate_mttr :
    Option (List Incident) → Option (List RollbackHistory) → String → String → Option MttrReport
calculate_mttr none rollbacks scope target = none
calculate_mttr (some is) none scope target = none
calculate_mttr (some is) (some rs) scope target =
    some (report_of scope target (incidents_of scope target is) (rollbacks_of scope target rs))
