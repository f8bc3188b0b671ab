-- ===== src/Report/Period.antt =====
-- `getReportPeriod`, `getNextReportPeriod` and `getRunOnceReportPeriod` of pkg/operator/reports.go.
pub mod Laws
pub mod Panics
use operator_metering.Prelude.{
  ℕ, ◌-◌, ◌%◌, String, Bool, true, false, ◌&&◌, not, Option, none, some, ltb, if◌then◌else◌,
}
use operator_metering.Prom.Chunks.{Time}
use operator_metering.Report.{ReportSchedule, ReportSpec, ReportStatus, Report}
use operator_metering.Report.Schedule.{Checked, ok, err, ScheduleError, Cron, get_schedule}

-- reportPeriod
pub record ReportPeriod : Type 0 where
  pub period_start : Time
  pub period_end : Time

-- `t.Truncate(time.Millisecond)`
abbrev pub truncate_to_millisecond : Time → Time
truncate_to_millisecond t = t - t % 1000000

-- The period and the report, whose NextReportTime may have been set; or an error; or the panic.
pub data PeriodResult : Type 0 where
  period : ReportPeriod → Report → PeriodResult
  failed : ScheduleError → PeriodResult
  must_have_both : PeriodResult
  panics : PeriodResult

module _ {Schedule : Type 0} (cron : Cron Schedule) where
  -- getNextReportPeriod
  unfoldable pub get_next_report_period : Schedule → Time → ReportPeriod
  get_next_report_period schedule last_scheduled = record {
    period_start = truncate_to_millisecond last_scheduled;
    period_end = truncate_to_millisecond (cron.next schedule last_scheduled);
  }

  abbrev pub set_next_report_time : Report → Time → Report
  set_next_report_time r t =
      let s = r.status in record r { status = record s { next_report_time = some t } }

  -- the last report time, else spec.reportingStart, else status.nextReportTime
  abbrev pub first_known : Option Time → Option Time → Option Time → Option Time
  first_known (some last) start next = some last
  first_known none (some start) next = some start
  first_known none none next = next

  -- With none of them: the first full period after the current one.
  abbrev pub period_from : Option Time → Schedule → Time → Report → ReportPeriod × Report
  period_from (some t) schedule now r = (get_next_report_period schedule t, r)
  period_from none schedule now r =
      let current = get_next_report_period schedule now in
      let full = get_next_report_period schedule current.period_end in
      (full, set_next_report_time r full.period_start)

  -- the period of a scheduled report
  unfoldable pub scheduled_period : Schedule → Time → Report → ReportPeriod × Report
  scheduled_period schedule now r =
      period_from
        (first_known r.status.last_report_time r.spec.reporting_start r.status.next_report_time)
        schedule now r

  abbrev pub both_set : Option Time → Option Time → Option ReportPeriod
  both_set (some start) (some end) = some (record { period_start = start; period_end = end })
  both_set _ _ = none

  -- getRunOnceReportPeriod
  unfoldable pub get_run_once_report_period : Report → Option ReportPeriod
  get_run_once_report_period r = both_set r.spec.reporting_start r.spec.reporting_end

  -- the panic, and the truncation of the period to the end of the report
  unfoldable pub limit_to_reporting_end : ReportPeriod → Option Time → ReportPeriod
  limit_to_reporting_end p none = p
  limit_to_reporting_end p (some e) = if ltb e p.period_end then record p { period_end = e } else p

  unfoldable pub check_period : ReportPeriod × Report → PeriodResult
  check_period (p, r) =
      if ltb p.period_end p.period_start
      then panics
      else period (limit_to_reporting_end p r.spec.reporting_end) r

  abbrev pub scheduled : Checked Schedule → Time → Report → PeriodResult
  scheduled (err e) now r = failed e
  scheduled (ok schedule) now r = check_period (scheduled_period schedule now r)

  abbrev pub run_once : Option ReportPeriod → Report → PeriodResult
  run_once none r = must_have_both
  run_once (some p) r = check_period (p, r)

  abbrev pub period_by : Option ReportSchedule → Time → Report → PeriodResult
  period_by (some s) now r = scheduled (get_schedule cron s) now r
  period_by none now r = run_once (get_run_once_report_period r) r

  -- getReportPeriod
  unfoldable pub get_report_period : Time → Report → PeriodResult
  get_report_period now r = period_by r.spec.schedule now r
