-- ===== src/Examples/DataSources.antt =====
-- Data sources that are handled on concrete worlds (pkg/operator/datasources.go).
use operator_metering.Prelude.{
  ℕ, suc, ◌*◌, ◌<◌, ◌≡◌, inl, refl, String, true, false, none, some, List, [], ◌∷◌, map, All, arith,
}
use operator_metering.Kube.{ok, err, not_found, panicked, Meta}
use operator_metering.Prom.Chunks.{minute, second, Range, pos}
use operator_metering.Prom.Import.{
  matrix, Config, Env, import_chunks, matrix_metrics, import_from_time_range, limit_end,
}
use operator_metering.Prom.Importer.{
  Importer, found, import_from_last_timestamp, import_from, start_time_of, end_time_of, remember,
}
use operator_metering.Prom.Importer.Runs.{Ends}
use operator_metering.Hive.Tables.{made}
use operator_metering.Report.Run.{ReportApi, HiveStorage}
use operator_metering.Examples.Runs.{sources, usage_table}
use operator_metering.Examples.Imports.{config, no_counts}
use operator_metering.DataSource.{
  MetricsImporter, QueryView, AwsBilling, S3Bucket, DataSourceSpec, ReportDataSource, ImportStatus,
  Labels, Entry, Operator, DataSourceApi, no_import_status,
}
use operator_metering.DataSource.Config.{OperatorConfig, new_prom_importer_cfg, chunk_size_of}
use operator_metering.DataSource.Config.Bounds.{config-Ends, config-panics}
use operator_metering.DataSource.Importers.{find, importer_for}
use operator_metering.DataSource.Importers.Resumes.{next_import_starts_after}
use operator_metering.DataSource.Status.{record_results}
use operator_metering.DataSource.Status.Coverage.{Extends, Records, record_results-Extends}
use operator_metering.DataSource.Dependents.{queue_data_sources_of}
use operator_metering.DataSource.Dependents.Names.{with_query, queue_data_sources-with_query}
use operator_metering.DataSource.Import.{run_import, handle_prometheus_metrics}
use operator_metering.DataSource.Import.Others.{handle-KeepsImporter}
use operator_metering.DataSource.Log.{Event, stored, queued}

-- The time, and the events so far.
pub record World : Type 0 where
  pub now : ℕ
  pub log : List Event
  pub views : ℕ

abbrev reports : ReportApi World
reports = record {
  clock = λ w. w.now;
  sources = λ w. sources;
  report_inputs = λ r. [];
  query_columns = λ q. record { name = "amount"; type = "DOUBLE" } ∷ [];
  importer = λ d. operator_metering.Report.Gate.no_importer;
  reported_until = λ r. none;
  update_report = λ r w. (ok r, w);
  get_report = λ n m w. (err (not_found m), w);
  get_presto_table = λ n m w. (ok usage_table, w);
  get_hive_storage = λ r w. (ok (record { database_name = "metering"; formats = none }), w);
  create_hive_table = λ t w. (made t, w);
  get_hive_table = λ n m w. (err (not_found m), w);
  wait_for_hive_table = λ n m w. (err (not_found m), w);
  wait_for_presto_table = λ n m w. (ok usage_table, w);
  create_data_source = λ n t w. (made tt, w);
  list_reports = λ n w. (ok [], w);
  list_queries = λ n w. (ok [], w);
  enqueue_dependent_report = λ r w. w;
  enqueue_report_query = λ q w. w;
  enqueue_data_source = λ d w. w;
  enqueue_report = λ r w. w;
  enqueue_report_after = λ r t w. w;
  render_query = λ q p r w. (ok "SELECT 1", w);
  generate_report = λ t q o w. (none, w);
}

abbrev one_sample : Env World
one_sample = record {
  query_range = λ q r w.
      (matrix (record { labels = []; values = record { time = r.start; value = 1 } ∷ [] } ∷ []), w);
  store_metrics = λ t ms w. (none, w);
  done = λ w. (false, w);
}

abbrev meta : String → Meta
meta namespace = record {
  namespace = namespace;
  name = "pods";
  finalizers = [];
  deletion_timestamp = none;
}

abbrev importer_spec : MetricsImporter
importer_spec = record { query = "up"; query_config = none; storage = none; prometheus_url = "" }

abbrev pub pods_in : String → ReportDataSource
pods_in namespace = record {
  meta = meta namespace;
  spec = record {
    prometheus_metrics_importer = some importer_spec;
    aws_billing = none;
    presto_table = none;
    report_query_view = none;
  };
  status = record { table_ref = "pods"; import_status = none };
}

abbrev pub view : QueryView
view = record { query_name = "usage"; inputs = []; storage = none }

abbrev pub view_source : ReportDataSource
view_source = record {
  meta = meta "ns";
  spec = record {
    prometheus_metrics_importer = none;
    aws_billing = none;
    presto_table = none;
    report_query_view = some view;
  };
  status = record { table_ref = ""; import_status = none };
}

abbrev pub api : DataSourceApi World
api = record {
  reports = reports;
  lister_data_source = λ n m w. (ok (pods_in n), w);
  get_data_source = λ n m w. (ok (record (pods_in n) { meta = record (meta n) { name = m } }), w);
  update_data_source = λ d w. (ok d, record w { log = stored d ∷ w.log });
  retry_on_conflict = λ act w. act w;
  list_data_sources = λ n w. (ok [], w);
  enqueue_data_source = λ d w. w;
  enqueue_data_source_after = λ d t w. record w { log = queued d t ∷ w.log };
  jitter = λ a b w. (a, w);
  get_hive_storage = λ n m w. (
    ok (record {
      spec_database_name = "metering";
      storage = record { database_name = ""; formats = none };
    }),
    w,
  );
  connect = λ u w. (none, w);
  env = λ c. one_sample;
  get_last = λ t w. (found none, w);
  collectors = λ l w. no_counts;
  set_collectors = λ l c w. w;
  retrieve_manifests = λ s w. (ok [], w);
  uncached_hive_table = λ n m w. (err (not_found m), w);
  update_hive_table = λ t w. (ok t, w);
  create_presto_table = λ t w. (made usage_table, record w { views = suc w.views });
  render_view = λ q deps d w. (ok "SELECT 1", w);
}

abbrev pub at : ℕ → World
at now = record { now = now; log = []; views = 0 }

abbrev entry : Entry
entry = record {
  importer = record { cfg = config; last_timestamp = none };
  connection = none;
  labels = record { name = "pods"; namespace = "a"; table_name = "datasource_up" };
}

abbrev pub operator : World → Operator World
operator w = record { importers = []; world = w }

abbrev pub op : OperatorConfig
op = record {
  enable_finalizers = true;
  disable_prometheus_metrics_importer = false;
  query_interval = 5 * minute;
  step_size = minute;
  chunk_size = 5 * minute;
  max_query_range_duration = 10 * minute;
  max_backfill_import_duration = 0;
  global_import_from_time = some 0;
}

abbrev made_config : Config
made_config = record {
  prometheus_query = "up";
  presto_table_name = "hive.metering.usage";
  chunk_size = 5 * minute;
  step_size = minute;
  max_time_ranges = pos 2;
  max_query_range_duration = 10 * minute;
  import_from_time = some 0;
  max_backfill_import_duration = 0;
}

config-Ends_example : Ends one_sample (
    import_from_last_timestamp one_sample
      (λ t w. (found none, w))
      (record { cfg = made_config; last_timestamp = none })
      (10 * minute)
      true
      no_counts
      (at 0))
unfolding operator_metering.DataSource.Config.new_prom_importer_cfg chunk_size_of
    operator_metering.Report.Run.Table.fully_qualified_table_name
    operator_metering.DataSource.Config.step_size_of
config-Ends_example =
    config-Ends op importer_spec usage_table made_config refl (inl (omega arith)) one_sample
      (λ t w. (found none, w)) none (10 * minute) true no_counts (at 0)

config-panics_example :
    new_prom_importer_cfg (record op { chunk_size = 500000000 }) importer_spec usage_table
    ≡ err (panicked "integer divide by zero")
config-panics_example =
    config-panics (record op { chunk_size = 500000000 }) importer_spec usage_table (omega arith)

record_results-Extends_example :
    Records
      (Extends (record { start = 0; end = 5 * minute; step = minute } ∷ []) no_import_status)
      (record_results
        (record {
          processed_time_ranges = record { start = 0; end = 5 * minute; step = minute } ∷ [];
          metrics = [];
        })
        no_import_status)
record_results-Extends_example =
    record_results-Extends
      (record {
        processed_time_ranges = record { start = 0; end = 5 * minute; step = minute } ∷ [];
        metrics = [];
      })
      no_import_status

queue_data_sources-with_query_example :
    queue_data_sources_of api "pods" (map (λ d. with_query "other" d) (view_source ∷ [])) (at 0)
    ≡ queue_data_sources_of api "pods" (view_source ∷ []) (at 0)
queue_data_sources-with_query_example =
    queue_data_sources-with_query api (λ d d' w h. refl) "pods" (λ d. "other") (view_source ∷ [])
      (at 0)

handle-KeepsImporter_example :
    find "nodes"
      (handle_prometheus_metrics api op
        (λ s. s)
        (λ s. s)
        (pods_in "a")
        (operator (at (10 * minute)))).1.importers
    ≡ none
handle-KeepsImporter_example =
    handle-KeepsImporter "nodes" api op (λ s. s) (λ s. s) (pods_in "a") (λ h. cc)
      (operator (at (10 * minute)))

-- The data source of the other namespace goes on where that of the first one ended.
next_import_starts_after_example :
    All
      (λ (r : Range). 10 * minute < r.start)
      (record { start = 11 * minute; end = 13 * minute; step = minute } ∷ [])
    × ((entry.labels ≡ entry.labels) × (entry.connection ≡ entry.connection))
unfolding run_import import_from_last_timestamp import_from start_time_of import_from_time_range
    operator_metering.Prom.Chunks.get_time_ranges_chunked limit_end end_time_of remember
    import_chunks matrix_metrics importer_for operator_metering.Prom.Importer.update_config
next_import_starts_after_example =
    next_import_starts_after api op (λ s. s) (λ s. s) (pods_in "a") (pods_in "b") importer_spec
      config entry
      (record entry { importer = record { cfg = config; last_timestamp = some (10 * minute) } })
      (operator (at (10 * minute)))
      (run_import api op (λ s. s) (λ s. s) "pods" entry (operator (at (10 * minute)))).1
      (operator (at (13 * minute))) _ _ _ refl (omega arith) refl refl refl refl refl
