-- ===== src/Presto/Resource.antt =====
-- `createPrestoTableCR` of pkg/operator/prestotables.go.
use operator_metering.Prelude.{String, Bool, none, List, [], ◌∷◌, if◌then◌else◌}
use operator_metering.Kube.{Result, ok, err, call_failed, Act}
use operator_metering.Columns.{Column}
use operator_metering.Hive.Tables.{
  PrestoTable, PrestoParameters, no_presto_parameters, Creation, made, already_exists, not_made,
}
use operator_metering.Hive.Tables.Resource.{table_resource_name_from_kind}
use operator_metering.Presto.{presto_table_finalizer}

-- the resource that is made
unfoldable pub new_presto_table :
    (String → String) → Bool → String → String → String → PrestoParameters → Bool → PrestoTable
new_presto_table to_lower enable_finalizers kind namespace name spec unmanaged = record {
  meta = record {
    namespace = namespace;
    name = table_resource_name_from_kind to_lower kind namespace name;
    finalizers = if enable_finalizers then presto_table_finalizer ∷ [] else [];
    deletion_timestamp = none;
  };
  unmanaged = unmanaged;
  spec = spec;
  status = no_presto_parameters;
}

module _ {W : Type 0} (create_presto_table : PrestoTable → W → Creation PrestoTable × W)
    (get_presto_table : String → String → Act W PrestoTable) where
  abbrev pub presto_created_or_found :
      PrestoTable → Creation PrestoTable × W → Result PrestoTable × W
  presto_created_or_found t (made t', w) = (ok t', w)
  presto_created_or_found t (already_exists t', w) = get_presto_table t.meta.namespace t.meta.name w
  presto_created_or_found t (not_made e, w) = (err (call_failed "create PrestoTable" e), w)

  -- createPrestoTableCR, for the arguments that it has
  unfoldable pub create_presto_table_cr :
      (String → String)
      → Bool
      → String
      → String
      → String
      → String
      → String
      → String
      → List Column
      → Bool
      → Bool
      → String
      → Act W PrestoTable
  create_presto_table_cr to_lower enable_finalizers kind namespace name catalog schema table_name
        columns unmanaged view query =
      let spec : PrestoParameters = record no_presto_parameters {
        catalog = catalog;
        schema = schema;
        table_name = table_name;
        columns = columns;
        view = view;
        query = query;
      } in
      let t = new_presto_table to_lower enable_finalizers kind namespace name spec unmanaged in
      λ w. presto_created_or_found t (create_presto_table t w)
