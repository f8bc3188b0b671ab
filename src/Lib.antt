-- ===== src/Lib.antt =====
-- Verification of the reporting operator's core: how it imports metrics from Prometheus, how it
-- schedules and runs reports, how it resolves what a query depends on, how its controllers keep Hive and
-- Presto tables, and how its work queues retry.
--
-- The program's parts and the files that model them (paths from the repository's root):
-- - Prom/Chunks: `getTimeRangesChunked` of pkg/operator/prestostore/query.go, which splits a time range
--   into the ranges that Prometheus is asked for. Prom/Import: `ImportFromTimeRange` of the same file,
--   which asks for each range and hands the metrics to the store. Prom/Importer: `PrometheusImporter` of
--   pkg/operator/prestostore/importer.go, which remembers where the last import ended. `get_time_ranges_chunked`
--   is used by `import_from_time_range`, and that by `import_from_last_timestamp`.
-- - MetricStore: `StorePrometheusMetricsWithBuffer` of pkg/operator/prestostore/prometheusmetric.go, which
--   writes metrics to Presto in statements that fit a buffer; MetricStore/Read reads them.
-- - Conditions: pkg/apis/metering/v1/util/report_util.go, the conditions of a Report's status.
-- - Report: the Reports of pkg/apis/metering/v1/report.go, and from pkg/operator/reports.go their schedules
--   (Report/Schedule), periods (Report/Period), the end of a run (Report/Completion), the tests of the
--   spec and of being finished (Report/Status), the tests of the dependencies (Report/Gate) and their
--   finalizer (Report/Finalizers), which uses Slice: pkg/util/slice/slice.go. Report/Run puts these together:
--   what depends on a report (Report/Run/Dependents), its table (Report/Run/Table), waiting and generating
--   (Report/Run/Generate), and `runReport`, `handleReport` and `syncReport` (Report/Run/Handler); the other
--   files below it are proofs.
--   Report/Generator: `GenerateReport` of pkg/operator/reporting/report_generator.go.
-- - Hive: pkg/operator/hivetables.go, the difference of two lists of partitions and what applying it does
--   (Hive/Partitions), and the controller of Hive tables (Hive/Tables) with its resource
--   (pkg/apis/metering/v1/hive_table.go), which uses both Hive/Partitions and Columns.
--   Hive/Billing: the table of AWS billing data, pkg/operator/aws_usage_hive.go and pkg/aws/manifest.go.
-- - Storage: pkg/operator/storagelocations.go and pkg/operator/storage.go, the choice of a storage location
--   (Storage) and its controller (Storage/Handler).
-- - Presto: pkg/operator/prestotables.go, the controller of Presto tables, and the copy of a specification
--   to the status (Presto/Copy).
-- - Sql: the statements of pkg/hive/query.go (Sql/HiveQuery), with those of `HiveManager` in
--   pkg/operator/reporting/db.go, and of pkg/presto/util.go (Sql/PrestoQuery).
-- - DataSource: pkg/operator/datasources.go, the controller of data sources (DataSource/Handler) and its four kinds: those
--   that import metrics (DataSource/Tables makes the table, DataSource/Import runs the import with an importer of
--   Prom/Importer), AWS billing data (DataSource/Billing, which uses Hive/Billing), and Presto tables and views
--   (DataSource/View). DataSource/Config and DataSource/Importers are pkg/operator/promsum.go with the importers that the
--   operator keeps, DataSource/Status the import status, which Report/Gate reads, DataSource/Dependents what depends on a
--   data source, DataSource/Queries the controller of queries (pkg/operator/reportquery.go), and DataSource/OnDemand the import of a given range. DataSource/Log is what the handlers store and queue, as a log; the files below these are proofs.
-- - Columns: the conversions between Hive and Presto columns of pkg/operator/reportingutil/util.go.
-- - Kube: what the controllers share, calls that may fail and finalizers.
-- - Dependencies: the resolver of pkg/operator/reporting/dependencies.go and the validation of
--   pkg/operator/reporting/validate.go.
-- - Queue: pkg/operator/queues.go, the workers (Queue) and the handlers of watch events (Queue/Events,
--   Queue/Kinds).
-- - Examples: the theorems at concrete inputs. Prelude: the names and lemmas that all share.
--
-- A function keeps its name, in snake case. Code that changes state takes the state and returns the next
-- one with its result: the importer, its counters and a world `W` that the calls of Prometheus, the store
-- and the context change; the buffer of the metric store; the context of the resolver. A client of an
-- interface takes it as a record: `Env`, `Db`, `Cron`, `WorkQueue`, `Sources`, `HiveApi`, `PrestoApi`,
-- `ReportApi`, `StorageApi`, `DataSourceApi`, `PartitionManager`. A handler is an `Act`, a function from a world to a result
-- or an error and the next world, and a panic is an error that no handler catches. An instant is its count
-- of nanoseconds since Go's zero time, a duration a count of nanoseconds, both unbounded and not negative.
--
-- Fuel: `chunk_loop` has one round more than the limit of ranges, or without a limit one for each
-- minute up to the end time, and Prom/Chunks/Total shows when that is enough; with chunks shorter
-- than a minute and no limit the loop of the source may not end, and the model has no result. The
-- resolver's fuel is the source's own limit on the depth, 50. A data source whose import has no result in this sense fails
-- with an error of its own; DataSource/Config/Bounds shows which configurations do not come to that.
--
-- Not modelled: logging, histograms, the rendering of a report's template, the polls
-- that wait for a table, the parallel group of imports on demand, the HTTP interface,
-- the start of the operator, and generated code. The order that `sort.Slice` gives to metrics of one
-- timestamp is taken to be the given one, and that of columns is a parameter. The namespace of a query is fixed in its `Sources`. The names in the lists of
-- unmet dependencies are kept as their number, and labels, owners and types of resources are left out.
pub mod Prelude
pub mod Prom
pub mod MetricStore
pub mod Conditions
pub mod Queue
pub mod Slice
pub mod Report
pub mod Columns
pub mod DataSource
pub mod Kube
pub mod Hive
pub mod Presto
pub mod Storage
pub mod Sql
pub mod Dependencies
pub mod Examples
