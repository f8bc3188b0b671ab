-- ===== src/Report/Run/Keeps.antt =====
-- What a handler built of calls leaves alone: an observation of the world that every call but `GenerateReport` keeps is kept
-- by the parts of `runReport` (pkg/operator/reports.go) that do not generate.
pub mod Table
use operator_metering.Prelude.{
  ℕ, String, ◌≡◌, refl, ap, ◌∙◌, Bool, true, false, Option, none, some, List, [], ◌∷◌, str_eq,
  if◌then◌else◌,
}
use operator_metering.Prom.Chunks.{Time}
use operator_metering.Report.Schedule.{Cron}
use operator_metering.Kube.Keeps.{Keeps, keeps-continue, keeps-then, keeps-if, keeps-reject}
use operator_metering.Kube.{
  Failure, invalid, Result, ok, err, Act, continue, ◌>>=◌, ◌>>◌, return, reject, ignored-world,
}
use operator_metering.Columns.{
  Column, Converted, rejected, converted, panics, presto_columns_to_hive_columns,
}
use operator_metering.Conditions.{ReportCondition}
use operator_metering.Dependencies.{Query, DataSource, ReportRef, Reply, found, missing}
use operator_metering.Dependencies.Validate.{QueryDependencies}
use operator_metering.Dependencies.Validated.{
  Validated, valid, not_resolved, not_valid, get_and_validate_query_dependencies,
}
use operator_metering.Hive.Tables.{HiveTable, PrestoTable, Creation, made, already_exists, not_made}
use operator_metering.Hive.Tables.Resource.{create_hive_table_cr, created_or_found}
use operator_metering.Report.{Report}
use operator_metering.Report.Status.{SpecError, validate_spec, set_report_status_invalid_report}
use operator_metering.Report.Period.{ReportPeriod}
use operator_metering.Report.Gate.{Unmet, is_queued, is_behind}
use operator_metering.Report.Run.Dependents.{queue_dependents, QueuesQuietly, dependents-keep}
use operator_metering.Report.Run.{
  ReportApi, Texts, HiveStorage, InvalidReport, validate_report, by_spec, by_query, by_dependencies,
  enqueue_data_sources, set_invalid, sent, update_report_status,
}
use operator_metering.Report.Run.Table.{
  ensure_table, create_table, create_in, use_tables, store_table_ref, set_table_ref, create_source,
  queue_all, find_table, create_tables, report_hive_table, data_source_made, hive_columns, lift,
  fully_qualified_table_name,
}
use operator_metering.Report.Run.Generate.{queue_data_sources, queue_reports, wait, report_unmet}

module _ {W : Type 0} (f : W → ℕ) where
  -- An observation of the world that no call changes but the generation of a report.
  pub record IsQuiet (api : ReportApi W) : Type 0 where
    pub update_report : (r : Report) → Keeps f (api.update_report r)
    pub get_presto_table : (n m : String) → Keeps f (api.get_presto_table n m)
    pub get_hive_storage : (r : Report) → Keeps f (api.get_hive_storage r)
    pub create_hive_table : (t : HiveTable) (w : W) → f (api.create_hive_table t w).1 ≡ f w
    pub get_hive_table : (n m : String) → Keeps f (api.get_hive_table n m)
    pub wait_for_hive_table : (n m : String) → Keeps f (api.wait_for_hive_table n m)
    pub wait_for_presto_table : (n m : String) → Keeps f (api.wait_for_presto_table n m)
    pub create_data_source :
        (n : String) (t : PrestoTable) (w : W) → f (api.create_data_source n t w).1 ≡ f w
    pub queues : QueuesQuietly f api
    pub enqueue_data_source : (d : DataSource) (w : W) → f (api.enqueue_data_source d w) ≡ f w
    pub enqueue_report : (r : ReportRef) (w : W) → f (api.enqueue_report r w) ≡ f w
    pub enqueue_report_after :
        (r : Report) (t : Time) (w : W) → f (api.enqueue_report_after r t w) ≡ f w

  module _ (api : ReportApi W) (texts : Texts) (quiet : IsQuiet api) where
    enqueue-keeps : (ds : List DataSource) (w : W) → f (enqueue_data_sources api ds w) ≡ f w
    unfolding enqueue_data_sources
    enqueue-keeps [] w = refl
    enqueue-keeps (d ∷ ds) w =
        enqueue-keeps ds (api.enqueue_data_source d w) ∙ quiet.enqueue_data_source d w

    by_dependencies-keeps :
        (q : Query) (v : List DataSource × Validated) (w : W)
        → f (by_dependencies api texts q v w).1 ≡ f w
    by_dependencies-keeps q (ds, valid deps) w = enqueue-keeps ds w
    by_dependencies-keeps q (ds, not_resolved e) w = enqueue-keeps ds w
    by_dependencies-keeps q (ds, not_valid e) w = enqueue-keeps ds w

    by_query-keeps : (r : Report) (q : Reply Query) (w : W) → f (by_query api texts r q w).1 ≡ f w
    by_query-keeps r (missing e) w = refl
    by_query-keeps r (found q) w =
        by_dependencies-keeps q
          (get_and_validate_query_dependencies (api.sources w) q (api.report_inputs r) true) w

    by_spec-keeps :
        (r : Report) (o : Option SpecError) (w : W) → f (by_spec api texts r o w).1 ≡ f w
    by_spec-keeps r (some e) w = refl
    by_spec-keeps r none w = by_query-keeps r ((api.sources w).get_report_query r.spec.query_name) w

    pub validate-keeps : (r : Report) (w : W) → f (validate_report api texts r w).1 ≡ f w
    unfolding validate_report
    validate-keeps r w = by_spec-keeps r (validate_spec r.spec) w

    sent-keeps : (o : Option Report) → Keeps f (sent api texts o)
    sent-keeps none w = refl
    sent-keeps (some r) w =
        keeps-then f (api.update_report r) (λ r'. return tt) (quiet.update_report r) (λ r' w. refl)
          w

    pub set_invalid-keeps : (r : Report) (e : InvalidReport) → Keeps f (set_invalid api texts r e)
    unfolding set_invalid
    set_invalid-keeps r e w =
        sent-keeps (set_report_status_invalid_report (api.clock w) r (texts.invalid e)) w

    pub status-keeps :
        (r : Report) (status reason message : String)
        → Keeps f (update_report_status api texts r status reason message)
    unfolding update_report_status
    status-keeps r status reason message w = quiet.update_report _ w

    pub wait-keeps :
        {Schedule : Type 0} (cron : Cron Schedule) (now : Time) (p : ReportPeriod) (r : Report)
        → Keeps f (wait api cron texts now p r)
    unfolding wait
    wait-keeps cron now p r =
        keeps-if f _ _ _ (quiet.enqueue_report_after r _)
          (keeps-then f _ _ (status-keeps r _ _ _) (λ r'. quiet.enqueue_report_after r' _))

    pub unmet-keeps :
        {Schedule : Type 0} (cron : Cron Schedule) (running : Option ReportCondition)
        (p : ReportPeriod) (u : Unmet) (r : Report)
        → Keeps f (report_unmet api cron texts running p u r)
    unfolding report_unmet
    unmet-keeps cron running p u r =
        keeps-if f _ _ _ (λ w. refl) (keeps-then f _ _ (status-keeps r _ _ _) (λ r' w. refl))

    queue_data_sources-keeps :
        {Schedule : Type 0} (cron : Cron Schedule) (p : ReportPeriod) (ds : List DataSource) (w : W)
        → f (queue_data_sources api cron texts p ds w) ≡ f w
    unfolding queue_data_sources
    queue_data_sources-keeps cron p [] w = refl
    queue_data_sources-keeps cron p (d ∷ ds) w =
        queue_data_sources-keeps cron p ds _
        ∙ on_if (is_queued p (api.importer d)) (quiet.enqueue_data_source d w)
      where
        on_if :
            (b : Bool)
            → f (api.enqueue_data_source d w) ≡ f w
            → f (if b then api.enqueue_data_source d w else w) ≡ f w
        on_if true h = h
        on_if false h = refl

    queue_reports-keeps :
        {Schedule : Type 0} (cron : Cron Schedule) (p : ReportPeriod) (rs : List ReportRef) (w : W)
        → f (queue_reports api cron texts p rs w) ≡ f w
    unfolding queue_reports
    queue_reports-keeps cron p [] w = refl
    queue_reports-keeps cron p (r ∷ rs) w =
        queue_reports-keeps cron p rs _
        ∙ on_if (is_behind p (api.reported_until r)) (quiet.enqueue_report r w)
      where
        on_if :
            (b : Bool)
            → f (api.enqueue_report r w) ≡ f w
            → f (if b then api.enqueue_report r w else w) ≡ f w
        on_if true h = h
        on_if false h = refl

    -- putting the dependencies that are behind into their queues
    pub queues-keep :
        {Schedule : Type 0} (cron : Cron Schedule) (p : ReportPeriod) (deps : QueryDependencies)
        (w : W)
        → f (
            queue_reports api cron texts p deps.reports
              (queue_data_sources api cron texts p deps.report_data_sources w))
          ≡ f w
    queues-keep cron p deps w =
        queue_reports-keeps cron p deps.reports _
        ∙ queue_data_sources-keeps cron p deps.report_data_sources w
