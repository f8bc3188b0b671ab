-- ===== src/Examples/Runs.antt =====
-- Reports that are run on concrete worlds (pkg/operator/reports.go).
use operator_metering.Prelude.{
  ℕ, suc, ◌+◌, ◌≡◌, ◌≢◌, ◌↔◌, refl, true, false, none, some, [], ◌∷◌, All, arith, sym, ◌∙◌,
}
use operator_metering.Kube.{ok, err, not_found}
use operator_metering.Prom.Chunks.{pos}
use operator_metering.Dependencies.{Query, DataSource, ReportRef, Sources, found, missing}
use operator_metering.Hive.Tables.{PrestoTable, no_presto_parameters, made}
use operator_metering.Report.{ReportSpec, Report}
use operator_metering.Report.Schedule.{Cron, ok}
use operator_metering.Report.Period.{ReportPeriod}
use operator_metering.Report.Gate.{
  imports, no_importer, not_started, Covers, Reported, has_unmet, unmet_dependencies,
  unmet_dependencies-Covers,
}
use operator_metering.Report.Run.Dependents.{QueuesQuietly}
use operator_metering.Report.Run.{ReportApi, Texts, HiveStorage}
use operator_metering.Report.Run.Generate.{generate}
use operator_metering.Report.Run.Handler.{run_report}
use operator_metering.Report.Run.Keeps.{IsQuiet}
use operator_metering.Report.Run.Ready.{IsReady, run_report-IsReady}
use operator_metering.Report.Run.Progress.{IsReportStore, outcome, generate-last_report_time}

abbrev june : ReportPeriod
june = record { period_start = 10; period_end = 20 }

unmet_dependencies-Covers_example :
    (has_unmet (
        unmet_dependencies june
          (imports (some 5) (some 25) ∷ no_importer ∷ not_started ∷ [])
          (some 20 ∷ none ∷ []))
      ≡ false)
    ↔ (All (Covers june) (imports (some 5) (some 25) ∷ no_importer ∷ not_started ∷ [])
        × All (Reported june) (some 20 ∷ none ∷ []))
unmet_dependencies-Covers_example =
    unmet_dependencies-Covers june (imports (some 5) (some 25) ∷ no_importer ∷ not_started ∷ [])
      (some 20 ∷ none ∷ [])

abbrev every : Cron ℕ
every = record {
  to_lower = λ s. s;
  parse = λ fs. ok 60;
  parse_standard = λ s. ok 60;
  next = λ s t. t + 60;
}

abbrev pods : DataSource
pods = record { name = "pods"; report_query_view = none; table_ref = "pods" }

abbrev pub sources : Sources
sources = record {
  get_report_query = λ n. found (record {
    name = n;
    inputs = record { name = "Pods"; type = "reportdatasource"; default = some "pods" } ∷ [];
  });
  get_report_data_source = λ n. found pods;
  get_report = λ n. missing n;
  to_lower = λ s. s;
  unmarshal_string = λ s. found s;
  unmarshal_time = λ s. found 0;
  unmarshal_int = λ s. found (pos 0);
}

-- The stored report, and how many reports were generated.
abbrev World : Type 0
World = Report × ℕ

abbrev pub usage_table : PrestoTable
usage_table = record {
  meta = record {
    namespace = "ns";
    name = "report-ns-usage";
    finalizers = [];
    deletion_timestamp = none;
  };
  unmanaged = true;
  spec = no_presto_parameters;
  status = record no_presto_parameters {
    catalog = "hive";
    schema = "metering";
    table_name = "usage";
  };
}

abbrev api : ReportApi World
api = record {
  clock = λ w. 100;
  sources = λ w. sources;
  report_inputs = λ r. [];
  query_columns = λ q. record { name = "amount"; type = "DOUBLE" } ∷ [];
  importer = λ d. imports (some 5) (some 25);
  reported_until = λ r. none;
  update_report = λ r w. (ok r, (r, w.1));
  get_report = λ n m w. (ok w.0, w);
  get_presto_table = λ n m w. (ok usage_table, w);
  get_hive_storage = λ r w. (ok (record { database_name = "metering"; formats = none }), w);
  create_hive_table = λ t w. (made t, w);
  get_hive_table = λ n m w. (err (not_found m), w);
  wait_for_hive_table = λ n m w. (err (not_found m), w);
  wait_for_presto_table = λ n m w. (err (not_found m), w);
  create_data_source = λ n t w. (made tt, w);
  list_reports = λ n w. (ok (w.0 ∷ []), w);
  list_queries = λ n w. (ok [], w);
  enqueue_dependent_report = λ r w. w;
  enqueue_report_query = λ q w. w;
  enqueue_data_source = λ d w. w;
  enqueue_report = λ r w. w;
  enqueue_report_after = λ r t w. w;
  render_query = λ q p r w. (ok "SELECT 1", w);
  generate_report = λ t q o w. (none, (w.0, suc w.1));
}

abbrev texts : Texts
texts = record {
  invalid = λ e. "invalid";
  waiting = λ p t. "waiting";
  unmet = λ p u. "unmet";
  running = λ b p. "running";
  failed = λ e. e;
  finished = λ t. "finished";
}

abbrev report : Report
report = record {
  name = "usage";
  namespace = "ns";
  finalizers = [];
  deletion_timestamp = none;
  spec = record {
    query_name = "usage";
    schedule = none;
    reporting_start = some 10;
    reporting_end = some 20;
    overwrite_existing_data = false;
    run_immediately = false;
  };
  status = record {
    conditions = [];
    last_report_time = none;
    next_report_time = none;
    table_ref = "report-ns-usage";
  };
}

queues : QueuesQuietly (λ w. w.1) api
queues = record {
  list_reports = λ n w. refl;
  list_queries = λ n w. refl;
  enqueue_dependent_report = λ r w. refl;
  enqueue_report_query = λ q w. refl;
}

stores : QueuesQuietly (λ w. w.0.status.last_report_time) api
stores = record {
  list_reports = λ n w. refl;
  list_queries = λ n w. refl;
  enqueue_dependent_report = λ r w. refl;
  enqueue_report_query = λ q w. refl;
}

quiet : IsQuiet (λ w. w.1) api
quiet = record {
  update_report = λ r w. refl;
  get_presto_table = λ n m w. refl;
  get_hive_storage = λ r w. refl;
  create_hive_table = λ t w. refl;
  get_hive_table = λ n m w. refl;
  wait_for_hive_table = λ n m w. refl;
  wait_for_presto_table = λ n m w. refl;
  create_data_source = λ n t w. refl;
  queues = queues;
  enqueue_data_source = λ d w. refl;
  enqueue_report = λ r w. refl;
  enqueue_report_after = λ r t w. refl;
}

store : IsReportStore api (λ w. w.0.status.last_report_time)
store = record {
  updated = λ r r' w h. (cc, refl);
  not_updated = λ r e w h. absurd (cc);
  queues = stores;
  requeued = λ r t w. refl;
  rendered = λ q p r w. refl;
  generated = λ t q o w. refl;
}

generated_once : (run_report api every texts (λ s. s) (λ s. s) true report (report, 0)).1.1 ≡ 1
unfolding operator_metering.Report.Run.Handler.run_report
    operator_metering.Report.Status.is_report_finished operator_metering.Report.Status.finished_by
    operator_metering.Report.Status.validate_spec operator_metering.Report.Status.with_condition
    operator_metering.Conditions.get_report_condition
    operator_metering.Conditions.new_report_condition
    operator_metering.Conditions.set_report_condition
    operator_metering.Conditions.filter_out_condition operator_metering.Report.Run.validate_report
    operator_metering.Report.Run.enqueue_data_sources
    operator_metering.Report.Run.update_report_status
    operator_metering.Dependencies.Validated.get_and_validate_query_dependencies
    operator_metering.Dependencies.Validated.get_query_dependencies
    operator_metering.Dependencies.Validated.dependencies_of
    operator_metering.Dependencies.Validated.sort_by_name
    operator_metering.Dependencies.Validated.insert_by_name
    operator_metering.Dependencies.Validate.validate_query_dependencies
    operator_metering.Dependencies.Validate.uninitialized_data_sources
    operator_metering.Dependencies.Validate.uninitialized_reports
    operator_metering.Dependencies.Resolver.resolve
    operator_metering.Dependencies.Resolver.resolve_dependencies
    operator_metering.Dependencies.Resolver.resolve_inputs
    operator_metering.Dependencies.Resolver.resolve_input
    operator_metering.Dependencies.Resolver.resolve_value
    operator_metering.Dependencies.Resolver.input_type
    operator_metering.Dependencies.Resolver.resolve_data_source
    operator_metering.Dependencies.check_supported operator_metering.Dependencies.given_value
    operator_metering.Dependencies.parse_type operator_metering.Report.Period.get_report_period
    operator_metering.Report.Period.get_run_once_report_period
    operator_metering.Report.Period.check_period
    operator_metering.Report.Period.limit_to_reporting_end
    operator_metering.Report.Run.Table.ensure_table operator_metering.Report.Run.Table.find_table
    operator_metering.Report.Run.Table.fully_qualified_table_name
    operator_metering.Report.Run.Generate.run_period
    operator_metering.Report.Run.Generate.check_dependencies
    operator_metering.Report.Run.Generate.queue_data_sources
    operator_metering.Report.Run.Generate.queue_reports
    operator_metering.Report.Run.Generate.generate operator_metering.Report.Gate.is_queued
    operator_metering.Report.Gate.unmet_dependencies
    operator_metering.Report.Gate.check_data_sources operator_metering.Report.Gate.check_data_source
    operator_metering.Report.Gate.check_reports operator_metering.Report.Gate.has_unmet
    operator_metering.Report.Completion.complete_report
    operator_metering.Report.Run.Dependents.queue_dependents
    operator_metering.Report.Run.Dependents.queue_dependent_reports_for_report
    operator_metering.Report.Run.Dependents.queue_dependent_report_queries_for_report
    operator_metering.Report.Run.Dependents.queue_reports_of
    operator_metering.Report.Run.Dependents.queue_queries_of
    operator_metering.Report.Run.Dependents.query_dependencies
generated_once = refl

one_ne_zero : (n : ℕ) → suc n ≢ 0
one_ne_zero n h = ground (arith, h)

run_report-IsReady_example : IsReady api every texts (λ s. s) (λ s. s) true report (report, 0)
run_report-IsReady_example =
    run_report-IsReady api every texts (λ s. s) (λ s. s) true (λ w. w.1) quiet report (report, 0)
      (λ h. one_ne_zero 0 (sym generated_once ∙ h))

generate-last_report_time_example :
    let g =
      generate api every texts june usage_table
        (record { name = "usage"; inputs = [] })
        report
        (report, 0) in
    g.1.0.status.last_report_time ≡ outcome g.0 none (some 20)
generate-last_report_time_example =
    generate-last_report_time api every texts (λ w. w.0.status.last_report_time) store june
      usage_table (record { name = "usage"; inputs = [] }) report (report, 0) refl
