-- ===== src/Conditions.antt =====
-- The conditions of a Report's status: pkg/apis/metering/v1/util/report_util.go. A pointer to a
-- condition is an Option; a condition's type, status and reason are the strings that they are there.
pub mod Laws
use operator_metering.Prelude.{
  String, Bool, ◌&&◌, Option, none, some, List, [], ◌∷◌, ◌++◌, str_eq, if◌then◌else◌,
}
use operator_metering.Prom.Chunks.{Time}

-- metering.ReportCondition
pub record ReportCondition : Type 0 where
  pub type : String
  pub status : String
  pub last_update_time : Time
  pub last_transition_time : Time
  pub reason : String
  pub message : String

abbrev pub scheduled_reason : String
scheduled_reason = "Scheduled"

abbrev pub run_immediately_reason : String
run_immediately_reason = "RunImmediately"

abbrev pub reporting_period_waiting_reason : String
reporting_period_waiting_reason = "ReportingPeriodWaiting"

abbrev pub report_finished_reason : String
report_finished_reason = "Finished"

abbrev pub invalid_report_reason : String
invalid_report_reason = "InvalidReport"

abbrev pub reporting_period_unmet_dependencies_reason : String
reporting_period_unmet_dependencies_reason = "ReportingPeriodUnmetDependencies"

abbrev pub generate_report_failed_reason : String
generate_report_failed_reason = "GenerateReportFailed"

-- v1.ConditionTrue, v1.ConditionFalse and metering.ReportRunning
abbrev pub condition_true : String
condition_true = "True"

abbrev pub condition_false : String
condition_false = "False"

abbrev pub report_running : String
report_running = "Running"

-- NewReportCondition, at the instant `now`
unfoldable pub new_report_condition : Time → String → String → String → String → ReportCondition
new_report_condition now type status reason message = record {
  type = type;
  status = status;
  last_update_time = now;
  last_transition_time = now;
  reason = reason;
  message = message;
}

-- GetReportCondition
unfoldable pub get_report_condition : List ReportCondition → String → Option ReportCondition
get_report_condition [] cond_type = none
get_report_condition (c ∷ cs) cond_type =
    let rest = get_report_condition cs cond_type in if str_eq c.type cond_type then some c else rest

-- filterOutCondition
unfoldable pub filter_out_condition : List ReportCondition → String → List ReportCondition
filter_out_condition [] cond_type = []
filter_out_condition (c ∷ cs) cond_type =
    let rest = filter_out_condition cs cond_type in
    if str_eq c.type cond_type then rest else c ∷ rest

-- The test for an early return, and the condition as it is stored.
abbrev pub is_current : Option ReportCondition → ReportCondition → Bool
is_current none c = Bool.false
is_current (some cur) c = str_eq cur.status c.status && str_eq cur.reason c.reason

abbrev pub with_transition : Option ReportCondition → ReportCondition → ReportCondition
with_transition none c = c
with_transition (some cur) c =
    if str_eq cur.status c.status
    then record c { last_transition_time = cur.last_transition_time }
    else c

-- SetReportCondition
unfoldable pub set_report_condition : List ReportCondition → ReportCondition → List ReportCondition
set_report_condition cs c =
    let cur = get_report_condition cs c.type in
    if is_current cur c then cs else filter_out_condition cs c.type ++ with_transition cur c ∷ []

-- RemoveReportCondition
unfoldable pub remove_report_condition : List ReportCondition → String → List ReportCondition
remove_report_condition cs cond_type = filter_out_condition cs cond_type
