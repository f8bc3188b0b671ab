-- ===== src/Report/Run/Generate.antt =====
-- The part of `runReport` (pkg/operator/reports.go) that comes after the table of the Report is there: it waits for the end
-- of the period, checks the dependencies, generates the report and stores what was done.
use operator_metering.Prelude.{
  ◌-◌, String, Bool, false, ◌&&◌, Option, none, some, List, [], ◌∷◌, map, ltb, str_eq,
  if◌then◌else◌,
}
use operator_metering.Prom.Chunks.{Time}
use operator_metering.Kube.{invalid, call_failed, Result, ok, Act, ◌>>=◌, return, fail, ignored}
use operator_metering.Conditions.{
  ReportCondition, get_report_condition, report_running, condition_true, condition_false,
  scheduled_reason, run_immediately_reason, reporting_period_waiting_reason,
  reporting_period_unmet_dependencies_reason, generate_report_failed_reason,
}
use operator_metering.Dependencies.{Query, DataSource, ReportRef}
use operator_metering.Dependencies.Validate.{QueryDependencies}
use operator_metering.Hive.Tables.{PrestoTable}
use operator_metering.Report.{Report}
use operator_metering.Report.Schedule.{Cron}
use operator_metering.Report.Period.{ReportPeriod}
use operator_metering.Report.Completion.{Completion, completed, failed, complete_report}
use operator_metering.Report.Gate.{Unmet, is_queued, is_behind, has_unmet, unmet_dependencies}
use operator_metering.Report.Run.Dependents.{queue_dependents}
use operator_metering.Report.Run.{ReportApi, Texts, update_report_status}
use operator_metering.Report.Run.Table.{fully_qualified_table_name}

module _ {W Schedule : Type 0} (api : ReportApi W) (cron : Cron Schedule) (texts : Texts) where
  -- the loops over the dependencies put those that are behind into their queues
  unfoldable pub queue_data_sources : ReportPeriod → List DataSource → W → W
  queue_data_sources p [] w = w
  queue_data_sources p (d ∷ ds) w =
      queue_data_sources p ds
        (if is_queued p (api.importer d) then api.enqueue_data_source d w else w)

  unfoldable pub queue_reports : ReportPeriod → List ReportRef → W → W
  queue_reports p [] w = w
  queue_reports p (r ∷ rs) w =
      queue_reports p rs (if is_behind p (api.reported_until r) then api.enqueue_report r w else w)

  abbrev pub unmet_of : ReportPeriod → QueryDependencies → Unmet
  unmet_of p deps =
      unmet_dependencies p (map api.importer deps.report_data_sources)
        (map api.reported_until deps.reports)

  -- the running condition has this status and reason
  abbrev pub says : Option ReportCondition → String → String → Bool
  says none status reason = false
  says (some c) status reason = str_eq c.status status && str_eq c.reason reason

  abbrev pub says_message : Option ReportCondition → String → String → String → Bool
  says_message none status reason message = false
  says_message (some c) status reason message =
      str_eq c.status status && (str_eq c.reason reason && str_eq c.message message)

  abbrev pub enqueue_after : Report → Time → Act W (Unit {0})
  enqueue_after r t w = (ok tt, api.enqueue_report_after r t w)

  -- The period has not ended: the report is put into the queue for its end.
  unfoldable pub wait : Time → ReportPeriod → Report → Act W (Unit {0})
  wait now p r =
      let wait_time = p.period_end - now in
      if says (get_report_condition r.status.conditions report_running) condition_true
        reporting_period_waiting_reason
      then enqueue_after r wait_time
      else (update_report_status api texts r condition_false reporting_period_waiting_reason
            (texts.waiting p p.period_end)
          >>= λ r'. enqueue_after r' wait_time)

  -- Some dependency is unmet: the status says so, unless it did before; `running` is the condition that the report began with.
  unfoldable pub report_unmet :
      Option ReportCondition → ReportPeriod → Unmet → Report → Act W (Unit {0})
  report_unmet running p u r =
      if says_message running condition_false reporting_period_unmet_dependencies_reason
        (texts.unmet p u)
      then return tt
      else (update_report_status api texts r condition_false
            reporting_period_unmet_dependencies_reason (texts.unmet p u)
          >>= λ r'. return tt)

  abbrev pub requeue : Option Time → Report → W → W
  requeue none r w = w
  requeue (some t) r w = api.enqueue_report_after r (t - api.clock w) w

  -- The report as it is after its generation is stored, and its dependents are queued.
  abbrev pub store_completion : Completion → Act W (Unit {0})
  store_completion (failed e) = fail (invalid "schedule")
  store_completion (completed r again) = λ w.
      ((λ v. api.update_report r v) >>= λ r'. λ v. ignored (queue_dependents api r' v))
        (requeue again r w)

  -- the outcome of `GenerateReport`
  abbrev pub after_generation : ReportPeriod → Report → Option String × W → Result (Unit {0}) × W
  after_generation p r (some e, w) =
      (update_report_status api texts r condition_false generate_report_failed_reason
            (texts.failed e)
          >>= λ r'. fail (call_failed "generateReport" e))
        w
  after_generation p r (none, w) =
      store_completion (complete_report cron texts.finished texts.waiting (api.clock w) p r) w

  unfoldable pub generate : ReportPeriod → PrestoTable → Query → Report → Act W (Unit {0})
  generate p table query r =
      update_report_status api texts r condition_true
        (if r.spec.run_immediately then run_immediately_reason else scheduled_reason)
        (texts.running r.spec.run_immediately p)
      >>= λ r'. api.render_query query p r' >>= λ text.
          (λ w. (fully_qualified_table_name table, w)) >>= λ name w.
          after_generation p r' (api.generate_report name text r'.spec.overwrite_existing_data w)

  unfoldable pub check_dependencies :
      Option ReportCondition
      → ReportPeriod
      → PrestoTable
      → Query
      → QueryDependencies
      → Report
      → Act W (Unit {0})
  check_dependencies running p table query deps r w =
      let u = unmet_of p deps in
      let w' = queue_reports p deps.reports (queue_data_sources p deps.report_data_sources w) in
      (if has_unmet u then report_unmet running p u r else generate p table query r) w'

  unfoldable pub run_period :
      Option ReportCondition
      → Time
      → ReportPeriod
      → PrestoTable
      → Query
      → QueryDependencies
      → Report
      → Act W (Unit {0})
  run_period running now p table query deps r =
      if r.spec.run_immediately
      then generate p table query r
      else if ltb now p.period_end
      then wait now p r
      else check_dependencies running p table query deps r
