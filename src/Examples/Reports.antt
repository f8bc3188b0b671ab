-- ===== src/Examples/Reports.antt =====
-- Conditions, schedules and periods of concrete reports (pkg/operator/reports.go).
use operator_metering.Prelude.{
  String, ℕ, ◌+◌, ◌≤◌, ◌≡◌, ◌≢◌, ◌↔◌, refl, true, false, none, some, [], ◌∷◌, inr,
}
use operator_metering.Prom.Chunks.{Time, pos}
use operator_metering.Conditions.{
  ReportCondition, report_running, condition_false, invalid_report_reason, get_report_condition,
  set_report_condition, reporting_period_unmet_dependencies_reason, reporting_period_waiting_reason,
  new_report_condition, filter_out_condition,
}
use operator_metering.Conditions.Laws.{IsStored, get-set_report_condition}
use operator_metering.Report.{ReportSchedule, ReportSpec, Report}
use operator_metering.Report.Schedule.{
  ok, star, field, Cron, get_schedule, schedule_fields, daily_schedule, in_range,
}
use operator_metering.Report.Schedule.Fields.{IsCron, schedule_fields-IsCron}
use operator_metering.Report.Status.{is_report_finished, validate_spec, with_condition}
use operator_metering.Report.Period.{
  ReportPeriod, panics, truncate_to_millisecond, get_report_period, get_next_report_period,
  limit_to_reporting_end, scheduled_period, check_period,
}
use operator_metering.Report.Completion.{
  completed, complete_report, complete-is_report_finished, complete-next_period,
}
use operator_metering.Report.Period.Laws.{period_starts_at_last_end}
use operator_metering.Report.Period.Panics.{IsExhausted, get_report_period-panics}

-- A cron library whose schedules are periods in nanoseconds.
abbrev every : Cron ℕ
every = record {
  to_lower = λ s. s;
  parse = λ fs. ok 60000000000;
  parse_standard = λ s. ok 60000000000;
  next = λ s t. t + 60000000000;
}

abbrev daily : ReportSchedule
daily = record {
  period = "daily";
  cron = none;
  hourly = none;
  daily = some (record { hour = pos 4; minute = pos 30; second = pos 0 });
  weekly = none;
  monthly = none;
}

abbrev invalid : ReportCondition
invalid = record {
  type = report_running;
  status = condition_false;
  last_update_time = 1;
  last_transition_time = 1;
  reason = invalid_report_reason;
  message = "no query";
}

abbrev monthly_report : Report
monthly_report = record {
  name = "usage";
  namespace = "ns";
  finalizers = [];
  deletion_timestamp = none;
  spec = record {
    query_name = "usage";
    schedule = some daily;
    reporting_start = none;
    reporting_end = some 60000000000;
    overwrite_existing_data = false;
    run_immediately = false;
  };
  status = record {
    conditions = invalid ∷ [];
    last_report_time = some 120000000000;
    next_report_time = none;
    table_ref = "";
  };
}

-- A schedule that no time satisfies.
abbrev never : Cron ℕ
never = record every { next = λ s t. 0 }

get_report_period-panics_example :
    (get_report_period never 0 monthly_report ≡ panics) ↔ IsExhausted never 0 monthly_report
unfolding validate_spec
get_report_period-panics_example =
    get_report_period-panics never (λ s t. inr refl) 0 monthly_report refl

never_panics : get_report_period never 0 monthly_report ≡ panics
unfolding get_schedule schedule_fields daily_schedule in_range get_report_period scheduled_period
    get_next_report_period check_period
never_panics = refl

abbrev open_spec : ReportSpec
open_spec = record (monthly_report.spec) { reporting_end = none }

abbrev open_ended : Report
open_ended = record monthly_report { spec = open_spec }

abbrev next_period : ReportPeriod
next_period = record { period_start = 120000000000; period_end = 180000000000 }

period_starts_at_last_end_example :
    next_period.period_start ≡ (get_next_report_period every 60000000000 60000000000).period_end
unfolding get_schedule schedule_fields daily_schedule in_range get_report_period scheduled_period
    get_next_report_period check_period limit_to_reporting_end
period_starts_at_last_end_example =
    period_starts_at_last_end every 0 open_ended open_ended daily 60000000000 60000000000
      next_period refl refl refl refl

-- Still not running, for another reason: the new condition has the old transition time.
abbrev unmet : ReportCondition
unmet = record invalid {
  last_update_time = 5;
  last_transition_time = 5;
  reason = reporting_period_unmet_dependencies_reason;
}

get-set_report_condition_example :
    IsStored
      (get_report_condition (invalid ∷ []) report_running)
      unmet
      (get_report_condition (set_report_condition (invalid ∷ []) unmet) report_running)
    × ((t : String)
        → report_running ≢ t
        → get_report_condition (set_report_condition (invalid ∷ []) unmet) t
          ≡ get_report_condition (invalid ∷ []) t)
get-set_report_condition_example = get-set_report_condition (invalid ∷ []) unmet

schedule_fields-IsCron_example :
    IsCron (field (pos 0) ∷ field (pos 30) ∷ field (pos 4) ∷ star ∷ star ∷ star ∷ [])
unfolding schedule_fields daily_schedule in_range
schedule_fields-IsCron_example = schedule_fields-IsCron every _ daily refl

abbrev finished_text : Time → String
finished_text t = "finished"

abbrev waiting_text : ReportPeriod → Time → String
waiting_text p t = "waiting"

abbrev first_period : ReportPeriod
first_period = record { period_start = 0; period_end = 60000000000 }

complete-is_report_finished_example :
    (r' : Report) × (complete_report every finished_text waiting_text 7 first_period monthly_report
      ≡ completed r' none)
    × (r'.status.last_report_time ≡ some 60000000000)
    × (is_report_finished r' ≡ true)
complete-is_report_finished_example =
    complete-is_report_finished every finished_text waiting_text 7 first_period monthly_report refl

abbrev generated : Report
generated = record open_ended {
  status = record {
    conditions =
        record {
          type = report_running;
          status = condition_false;
          last_update_time = 7;
          last_transition_time = 1;
          reason = reporting_period_waiting_reason;
          message = "waiting";
        }
        ∷ [];
    last_report_time = some 180000000000;
    next_report_time = some 240000000000;
    table_ref = "";
  };
}

abbrev later_period : ReportPeriod
later_period = record { period_start = 180000000000; period_end = 240000000000 }

complete-next_period_example :
    (later_period.period_start ≡ truncate_to_millisecond next_period.period_end)
    × (later_period.period_end ≤ 240000000000)
unfolding get_schedule schedule_fields daily_schedule in_range complete_report with_condition
    new_report_condition set_report_condition get_report_condition filter_out_condition
    get_report_period scheduled_period get_next_report_period check_period limit_to_reporting_end
complete-next_period_example =
    complete-next_period every finished_text waiting_text 7 9 next_period later_period open_ended
      generated generated 240000000000 refl refl
