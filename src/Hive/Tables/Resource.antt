-- ===== src/Hive/Tables/Resource.antt =====
-- `createHiveTableCR` of pkg/operator/hivetables.go and `TableResourceNameFromKind` of pkg/operator/reportingutil/util.go.
use operator_metering.Prelude.{String, ◌<>◌, Bool, false, none, List, [], ◌∷◌, if◌then◌else◌}
use operator_metering.Kube.{Result, ok, err, call_failed, Act}
use operator_metering.Hive.Partitions.{Partition}
use operator_metering.Hive.Tables.{
  HiveTable, TableParameters, Creation, made, already_exists, not_made, hive_table_finalizer,
}

abbrev pub no_table_parameters : TableParameters
no_table_parameters = record {
  database = "";
  name = "";
  columns = [];
  partitioned_by = [];
  clustered_by = [];
  sorted_by = [];
  num_buckets = 0;
  location = "";
  row_format = "";
  file_format = "";
  table_properties = [];
  external = false;
}

-- TableResourceNameFromKind
unfoldable pub table_resource_name_from_kind : (String → String) → String → String → String → String
table_resource_name_from_kind to_lower kind namespace name =
    to_lower (kind <> ("-" <> (namespace <> ("-" <> name))))

-- The resource that is created. The specification has no file format.
unfoldable pub new_hive_table :
    (String → String)
    → Bool
    → String
    → String
    → String
    → TableParameters
    → Bool
    → List Partition
    → HiveTable
new_hive_table to_lower enable_finalizers kind namespace name params manage_partitions partitions =
    record {
      meta = record {
        namespace = namespace;
        name = table_resource_name_from_kind to_lower kind namespace name;
        finalizers = if enable_finalizers then hive_table_finalizer ∷ [] else [];
        deletion_timestamp = none;
      };
      spec = record {
        table = record params { file_format = "" };
        manage_partitions = manage_partitions;
        partitions = partitions;
      };
      status = record { table = no_table_parameters; partitions = [] };
    }

module _ {W : Type 0} (create_hive_table : HiveTable → W → Creation HiveTable × W)
    (get_hive_table : String → String → Act W HiveTable) where
  -- A table that exists already is the one that the lister has.
  abbrev pub created_or_found : HiveTable → Creation HiveTable × W → Result HiveTable × W
  created_or_found t (made t', w) = (ok t', w)
  created_or_found t (already_exists t', w) = get_hive_table t.meta.namespace t.meta.name w
  created_or_found t (not_made e, w) = (err (call_failed "create HiveTable" e), w)

  -- createHiveTableCR, with the resource that it makes
  unfoldable pub create_hive_table_cr : HiveTable → Act W HiveTable
  create_hive_table_cr t = λ w. created_or_found t (create_hive_table t w)
