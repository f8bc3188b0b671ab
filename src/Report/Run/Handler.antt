-- ===== src/Report/Run/Handler.antt =====
-- `runReport`, `handleReport` and `syncReport` of pkg/operator/reports.go, and `addReportFinalizer` and `removeReportFinalizer` with
-- the update that they send.
use operator_metering.Prelude.{String, Bool, ◌&&◌, Option, none, some, if◌then◌else◌}
use operator_metering.Prom.Chunks.{Time}
use operator_metering.Kube.{
  invalid, call_failed, not_found, panicked, Result, ok, err, Act, ◌>>=◌, return, fail,
}
use operator_metering.Conditions.{ReportCondition, get_report_condition, report_running}
use operator_metering.Dependencies.{Query}
use operator_metering.Dependencies.Validate.{QueryDependencies}
use operator_metering.Report.{Report}
use operator_metering.Report.Schedule.{Cron}
use operator_metering.Report.Status.{is_report_finished}
use operator_metering.Report.Finalizers.{
  report_needs_finalizer, add_report_finalizer, remove_report_finalizer,
}
use operator_metering.Report.Period.{
  PeriodResult, period, failed, must_have_both, panics, get_report_period,
}
use operator_metering.Report.Run.{
  ReportApi, Texts, Validation, accepted, refused, validate_report, set_invalid,
}
use operator_metering.Report.Run.Table.{ensure_table}
use operator_metering.Report.Run.Generate.{run_period}

module _ {W Schedule : Type 0} (api : ReportApi W) (cron : Cron Schedule) (texts : Texts)
    (to_lower replace : String → String) (enable_finalizers : Bool) where
  abbrev pub running_of : Report → Option ReportCondition
  running_of r = get_report_condition r.status.conditions report_running

  abbrev pub by_period :
      Option ReportCondition → Time → Query → QueryDependencies → PeriodResult → Act W (Unit {0})
  by_period running now query deps (failed e) = fail (invalid "schedule")
  by_period running now query deps must_have_both =
      fail (invalid "run-once reports must have both ReportingEnd and ReportingStart")
  by_period running now query deps panics =
      fail (panicked "periodStart should never come after periodEnd")
  by_period running now query deps (period p r) =
      ensure_table api to_lower replace enable_finalizers r query >>= λ t.
      run_period api cron texts running now p t.0 query deps t.1

  abbrev pub by_validation : Report → Validation × W → Result (Unit {0}) × W
  by_validation r (refused e, w) = set_invalid api texts r e w
  by_validation r (accepted query deps, w) =
      let now = api.clock w in
      by_period (running_of r) now query deps (get_report_period cron now r) w

  -- runReport
  unfoldable pub run_report : Report → Act W (Unit {0})
  run_report r =
      if is_report_finished r
      then return tt
      else (λ w. by_validation r (validate_report api texts r w))

  -- handleReport
  unfoldable pub handle_report : Report → Act W (Unit {0})
  handle_report r =
      if enable_finalizers && report_needs_finalizer r
      then (api.update_report (add_report_finalizer r) >>= λ r'. run_report r')
      else run_report r

  abbrev pub finalizer_removed : Option Report → Act W (Unit {0})
  finalizer_removed none = return tt
  finalizer_removed (some r) = api.update_report r >>= λ r'. return tt

  abbrev pub sync_found : Option Time → Report → Act W (Unit {0})
  sync_found (some at) r = finalizer_removed (remove_report_finalizer r)
  sync_found none r = handle_report r

  abbrev pub sync_got : Result Report × W → Result (Unit {0}) × W
  sync_got (ok r, w) = sync_found r.deletion_timestamp r w
  sync_got (err (not_found what), w) = (ok tt, w)
  sync_got (err (invalid what), w) = (err (invalid what), w)
  sync_got (err (call_failed what e), w) = (err (call_failed what e), w)
  sync_got (err (panicked what), w) = (err (panicked what), w)

  -- syncReport, on a key that splits
  unfoldable pub sync_report : String → String → Act W (Unit {0})
  sync_report namespace name = λ w. sync_got (api.get_report namespace name w)
