-- ===== src/Report/Run.antt =====
-- The calls of `runReport` (pkg/operator/reports.go) and what it reads of resources beyond the records of the
-- components: `ReportApi`. `validateReport` and `setReportStatusInvalidReport` are here; the modules below have the parts of
-- the handler. The clock is read from the world; the texts of messages are parameters.
pub mod Dependents
pub mod Table
pub mod Generate
pub mod Handler
pub mod Keeps
pub mod Ready
pub mod Progress
use operator_metering.Prelude.{
  ℕ, String, Bool, true, false, Option, none, some, List, [], ◌∷◌, map, if◌then◌else◌,
}
use operator_metering.Prom.Chunks.{Time}
use operator_metering.Kube.{Failure, Result, ok, err, Act, ◌>>=◌, return}
use operator_metering.Columns.{Column}
use operator_metering.Conditions.{ReportCondition, new_report_condition, report_running}
use operator_metering.Hive.Tables.{HiveTable, PrestoTable, Creation}
use operator_metering.Dependencies.{
  Sources, Query, DataSource, ReportRef, InputValue, ResolveError, Reply, found, missing,
}
use operator_metering.Dependencies.Validate.{QueryDependencies, DependencyError}
use operator_metering.Dependencies.Validated.{
  Validated, valid, not_resolved, not_valid, get_and_validate_query_dependencies,
}
use operator_metering.Report.{Report, ReportSpec}
use operator_metering.Report.Status.{
  SpecError, validate_spec, with_condition, set_report_status_invalid_report,
}
use operator_metering.Report.Period.{ReportPeriod}
use operator_metering.Report.Gate.{ImportState, Unmet}

-- A StorageLocation with Hive storage: the database of its status and the formats of its default table properties.
pub record HiveStorage : Type 0 where
  pub database_name : String
  pub formats : Option (String × String)

-- The errors of `validateReport`.
pub data InvalidReport : Type 0 where
  invalid_spec : SpecError → InvalidReport
  query_missing : String → InvalidReport
  unresolved : ResolveError → InvalidReport
  invalid_dependencies : DependencyError → InvalidReport

-- The texts that `runReport` formats.
pub record Texts : Type 0 where
  pub invalid : InvalidReport → String
  pub waiting : ReportPeriod → Time → String
  pub unmet : ReportPeriod → Unmet → String
  pub running : Bool → ReportPeriod → String
  pub failed : String → String
  pub finished : Time → String

pub record ReportApi (W : Type 0) : Type 0 where
  pub clock : W → Time
  pub sources : W → Sources
  pub report_inputs : Report → List InputValue
  pub query_columns : Query → List Column
  pub importer : DataSource → ImportState
  pub reported_until : ReportRef → Option Time
  pub update_report : Report → Act W Report
  pub get_report : String → String → Act W Report
  pub get_presto_table : String → String → Act W PrestoTable
  pub get_hive_storage : Report → Act W HiveStorage
  pub create_hive_table : HiveTable → W → Creation HiveTable × W
  pub get_hive_table : String → String → Act W HiveTable
  pub wait_for_hive_table : String → String → Act W HiveTable
  pub wait_for_presto_table : String → String → Act W PrestoTable
  pub create_data_source : String → PrestoTable → W → Creation (Unit {0}) × W
  pub list_reports : String → Act W (List Report)
  pub list_queries : String → Act W (List Query)
  pub enqueue_dependent_report : Report → W → W
  pub enqueue_report_query : Query → W → W
  pub enqueue_data_source : DataSource → W → W
  pub enqueue_report : ReportRef → W → W
  pub enqueue_report_after : Report → Time → W → W
  pub render_query : Query → ReportPeriod → Report → Act W String
  pub generate_report : String → String → Bool → W → Option String × W

-- What a validation gives: the query and its dependencies.
pub data Validation : Type 0 where
  accepted : Query → QueryDependencies → Validation
  refused : InvalidReport → Validation

module _ {W : Type 0} (api : ReportApi W) where
  -- the handler of the data sources that are not initialised
  unfoldable pub enqueue_data_sources : List DataSource → W → W
  enqueue_data_sources [] w = w
  enqueue_data_sources (d ∷ ds) w = enqueue_data_sources ds (api.enqueue_data_source d w)

module _ {W : Type 0} (api : ReportApi W) (texts : Texts) where
  abbrev pub by_dependencies : Query → List DataSource × Validated → W → Validation × W
  by_dependencies q (called, valid deps) w = (accepted q deps, enqueue_data_sources api called w)
  by_dependencies q (called, not_resolved e) w =
      (refused (unresolved e), enqueue_data_sources api called w)
  by_dependencies q (called, not_valid e) w =
      (refused (invalid_dependencies e), enqueue_data_sources api called w)

  abbrev pub by_query : Report → Reply Query → W → Validation × W
  by_query r (missing e) w = (refused (query_missing e), w)
  by_query r (found q) w =
      by_dependencies q
        (get_and_validate_query_dependencies (api.sources w) q (api.report_inputs r) true) w

  abbrev pub by_spec : Report → Option SpecError → W → Validation × W
  by_spec r (some e) w = (refused (invalid_spec e), w)
  by_spec r none w = by_query r ((api.sources w).get_report_query r.spec.query_name) w

  -- validateReport
  unfoldable pub validate_report : Report → W → Validation × W
  validate_report r w = by_spec r (validate_spec r.spec) w

  abbrev pub sent : Option Report → Act W (Unit {0})
  sent none = return tt
  sent (some r) = api.update_report r >>= λ r'. return tt

  -- setReportStatusInvalidReport
  unfoldable pub set_invalid : Report → InvalidReport → Act W (Unit {0})
  set_invalid r e w = sent (set_report_status_invalid_report (api.clock w) r (texts.invalid e)) w

  -- updateReportStatus with a running condition
  unfoldable pub update_report_status : Report → String → String → String → Act W Report
  update_report_status r status reason message w =
      api.update_report
        (with_condition r (new_report_condition (api.clock w) report_running status reason message))
        w
