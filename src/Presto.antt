-- ===== src/Presto.antt =====
-- The controller of Presto tables: pkg/operator/prestotables.go. Its resource is that of pkg/apis/metering/v1/presto_table.go;
-- what the calls do is the record `PrestoApi`. Loggers are left out, and so are the type, labels
-- and owner of a resource.
pub mod Resource
pub mod Copy
pub mod Handler
pub mod Managed
pub mod Deleted
use operator_metering.Prelude.{String, Bool, Option, List}
use operator_metering.Kube.{Act}
use operator_metering.Columns.{Column}
use operator_metering.Report.{Report}
use operator_metering.Hive.Tables.{PrestoTable}

abbrev pub Properties : Type 0
Properties = List (String × String)

-- A ReportDataSource, as far as it names a Presto table.
pub record TableDataSource : Type 0 where
  pub name : String
  pub presto_table : Option String

-- The calls of the controller: Presto, the API server, the listers and the queues.
pub record PrestoApi (W : Type 0) : Type 0 where
  pub create_view : String → String → String → String → W → Option String × W
  pub create_table :
      String → String → String → List Column → String → Properties → Bool → W → Option String × W
  pub create_table_as :
      String
      → String
      → String
      → List Column
      → String
      → Properties
      → Bool
      → String
      → W
      → Option String × W
  pub drop_view : String → String → String → Bool → W → Option String × W
  pub drop_table : String → String → String → Bool → W → Option String × W
  pub update_presto_table : PrestoTable → Act W PrestoTable
  pub get_presto_table : String → String → Act W PrestoTable
  pub list_reports : String → Act W (List Report)
  pub list_data_sources : String → Act W (List TableDataSource)
  pub enqueue_report : Report → W → W
  pub enqueue_data_source : TableDataSource → W → W

-- prestoTableFinalizer
abbrev pub presto_table_finalizer : String
presto_table_finalizer = "metering.openshift.io/prestotable"
