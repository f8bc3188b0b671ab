-- ===== src/Hive/Tables.antt =====
-- The controller of Hive tables: pkg/operator/hivetables.go, and its types in pkg/apis/metering/v1/hive_table.go,
-- presto_table.go and pkg/hive/hive.go. Loggers and the gauge are left out, and so are the type, labels
-- and owner of a resource; what the calls do is the record `HiveApi`.
pub mod Resource
pub mod Handler
pub mod Created
pub mod Partitioned
pub mod Deleted
use operator_metering.Prelude.{
  ℕ, String, ◌<>◌, Bool, true, false, ◌&&◌, not, Option, none, some, List, [], ◌∷◌, ◌++◌, map,
  str_eq, if◌then◌else◌,
}
use operator_metering.Kube.{Meta, Failure, Result, Act}
use operator_metering.Columns.{Column}
use operator_metering.Hive.Partitions.{Partition, PartitionManager}

-- hive.SortColumn, metering.SortColumn
pub record SortColumn : Type 0 where
  pub name : String
  pub decending : Option Bool

-- hive.TableParameters
pub record TableParameters : Type 0 where
  pub database : String
  pub name : String
  pub columns : List Column
  pub partitioned_by : List Column
  pub clustered_by : List String
  pub sorted_by : List SortColumn
  pub num_buckets : ℕ
  pub location : String
  pub row_format : String
  pub file_format : String
  pub table_properties : List (String × String)
  pub external : Bool

-- HiveTableSpec: the parameters of the table, and its partitions
pub record HiveTableSpec : Type 0 where
  pub table : TableParameters
  pub manage_partitions : Bool
  pub partitions : List Partition

-- HiveTableStatus
pub record HiveTableStatus : Type 0 where
  pub table : TableParameters
  pub partitions : List Partition

-- HiveTable
pub record HiveTable : Type 0 where
  pub meta : Meta
  pub spec : HiveTableSpec
  pub status : HiveTableStatus

-- PrestoTableSpec and PrestoTableStatus have these fields in common.
pub record PrestoParameters : Type 0 where
  pub catalog : String
  pub schema : String
  pub table_name : String
  pub columns : List Column
  pub properties : List (String × String)
  pub comment : String
  pub view : Bool
  pub create_table_as : Bool
  pub query : String

-- PrestoTable
pub record PrestoTable : Type 0 where
  pub meta : Meta
  pub unmanaged : Bool
  pub spec : PrestoParameters
  pub status : PrestoParameters

abbrev pub no_presto_parameters : PrestoParameters
no_presto_parameters = record {
  catalog = "";
  schema = "";
  table_name = "";
  columns = [];
  properties = [];
  comment = "";
  view = false;
  create_table_as = false;
  query = "";
}

-- What `Create` of a client gives: the client returns a resource beside the error, too.
pub data Creation (T : Type 0) : Type 0 where
  made : T → Creation T
  already_exists : T → Creation T
  not_made : String → Creation T

-- The calls of the controller: Hive, the API server and the lister.
pub record HiveApi (W : Type 0) : Type 0 where
  pub create_table : TableParameters → Bool → W → Option String × W
  pub drop_table : String → String → Bool → W → Option String × W
  pub partition_manager : String → List Column → PartitionManager W
  pub update_hive_table : HiveTable → Act W HiveTable
  pub create_presto_table : PrestoTable → W → Creation PrestoTable × W
  pub get_hive_table : String → String → Act W HiveTable

-- hiveTableFinalizer
abbrev pub hive_table_finalizer : String
hive_table_finalizer = "metering.openshift.io/hivetable"
