-- ===== src/Hive/Tables/Handler.antt =====
-- `syncHiveTable`, `handleHiveTable` and the functions it calls (pkg/operator/hivetables.go). A handler is a chain
-- of calls on the world that ends at its first error.
use operator_metering.Prelude.{
  ℕ, String, Bool, true, false, ◌&&◌, Option, none, some, List, [], ◌∷◌, ◌++◌, str_eq,
  if◌then◌else◌,
}
use operator_metering.Slice.{contains_string}
use operator_metering.Kube.{
  invalid, call_failed, not_found, panicked, Result, ok, err, Act, called, ◌>>=◌, ◌>>◌, return,
  fail, when, reject, needs_finalizer, with_finalizer, without_finalizer,
}
use operator_metering.Columns.{
  Column, Converted, rejected, converted, panics, hive_columns_to_presto_columns,
}
use operator_metering.Hive.Partitions.{get_partition_changes, apply_changes}
use operator_metering.Hive.Tables.{
  HiveTable, PrestoTable, no_presto_parameters, Creation, made, already_exists, not_made, HiveApi,
  hive_table_finalizer,
}

abbrev pub is_empty : {A : Type 0} → List A → Bool
is_empty [] = true
is_empty (x ∷ xs) = false

abbrev pub presto_table_of : HiveTable → List Column → PrestoTable
presto_table_of t columns = record {
  meta = record {
    namespace = t.meta.namespace;
    name = t.meta.name;
    finalizers = [];
    deletion_timestamp = none;
  };
  unmanaged = true;
  spec = record no_presto_parameters {
    catalog = "hive";
    schema = t.status.table.database;
    table_name = t.status.table.name;
    columns = columns;
  };
  status = no_presto_parameters;
}

-- the assignments to `hiveTable.Status`
abbrev pub with_spec_status : HiveTable → HiveTable
with_spec_status t = record t {
  status = record { table = t.spec.table; partitions = t.spec.partitions };
}

abbrev pub with_partitions : HiveTable → HiveTable
with_partitions t = record t {
  status = record { table = t.status.table; partitions = t.spec.partitions };
}

module _ {W : Type 0} (api : HiveApi W) (order : List String → List String) where
  -- addHiveTableFinalizer
  unfoldable pub add_hive_table_finalizer : HiveTable → Act W HiveTable
  add_hive_table_finalizer t =
      api.update_hive_table (record t { meta = with_finalizer hive_table_finalizer t.meta })

  -- removeHiveTableFinalizer
  unfoldable pub remove_hive_table_finalizer : HiveTable → Act W HiveTable
  remove_hive_table_finalizer t =
      if contains_string t.meta.finalizers hive_table_finalizer none
      then api.update_hive_table (record t { meta = without_finalizer hive_table_finalizer t.meta })
      else return t

  -- dropHiveTable
  unfoldable pub drop_hive_table : HiveTable → Act W (Unit {0})
  drop_hive_table t = if str_eq t.status.table.name "" then return tt else λ w.
      called "drop table" (api.drop_table t.status.table.database t.status.table.name true w)

  -- the checks of the specification
  unfoldable pub check_spec : HiveTable → Act W (Unit {0})
  check_spec t =
      reject (str_eq t.spec.table.name "") (invalid "spec.tableName must be set")
      >> reject (is_empty t.spec.table.columns) (invalid "spec.columns must be non-empty")

  -- The error of `Create` counts unless the table that comes with it has a name.
  abbrev pub presto_created : Creation PrestoTable × W → Result (Unit {0}) × W
  presto_created (made p, w) = (ok tt, w)
  presto_created (already_exists p, w) = (
    if str_eq p.status.table_name ""
        then err (call_failed "create PrestoTable" "already exists")
        else ok tt,
    w,
  )
  presto_created (not_made e, w) = (err (call_failed "create PrestoTable" e), w)

  abbrev pub create_presto_table : HiveTable → Converted (List Column) → Act W (Unit {0})
  create_presto_table t (rejected e) = fail (invalid "unable to convert the columns")
  create_presto_table t panics = fail (panicked "HiveColumnToPrestoColumn")
  create_presto_table t (converted cs) =
      λ w. presto_created (api.create_presto_table (presto_table_of t cs) w)

  -- the branch that creates the table
  unfoldable pub create_hive_table : HiveTable → Act W HiveTable
  create_hive_table t =
      (λ w. called "create table" (api.create_table t.spec.table true w))
      >> (api.update_hive_table (with_spec_status t) >>= λ t'.
          create_presto_table t'
            (hive_columns_to_presto_columns (t'.spec.table.columns ++ t'.spec.table.partitioned_by))
          >> return t')

  -- the branch that manages the partitions
  unfoldable pub manage_partitions : HiveTable → Act W (Unit {0})
  manage_partitions t =
      let columns = t.spec.table.partitioned_by in
      let changes = get_partition_changes order columns t.status.partitions t.spec.partitions in
      (λ w.
        called "change partitions"
          (apply_changes (api.partition_manager t.status.table.name columns) changes w))
      >> (api.update_hive_table (with_partitions t) >>= λ t'. return tt)

  unfoldable pub ensure_finalizer : Bool → HiveTable → Act W HiveTable
  ensure_finalizer enable_finalizers t =
      if enable_finalizers && needs_finalizer hive_table_finalizer t.meta
      then add_hive_table_finalizer t
      else return t

  unfoldable pub ensure_created : HiveTable → Act W HiveTable
  ensure_created t = if str_eq t.status.table.name "" then create_hive_table t else return t

  -- handleHiveTable
  unfoldable pub handle_hive_table : Bool → HiveTable → Act W (Unit {0})
  handle_hive_table enable_finalizers t = ensure_finalizer enable_finalizers t >>= λ t₁.
      check_spec t₁
      >> (ensure_created t₁ >>= λ t₂. when t₂.spec.manage_partitions (manage_partitions t₂))

  abbrev pub cleanup : HiveTable → Act W (Unit {0})
  cleanup t = drop_hive_table t >> (remove_hive_table_finalizer t >>= λ t'. return tt)

  abbrev pub sync_found : Bool → Option ℕ → HiveTable → Act W (Unit {0})
  sync_found enable_finalizers none t = handle_hive_table enable_finalizers t
  sync_found enable_finalizers (some at) t = cleanup t

  abbrev pub sync_got : Bool → Result HiveTable × W → Result (Unit {0}) × W
  sync_got enable_finalizers (ok t, w) = sync_found enable_finalizers t.meta.deletion_timestamp t w
  sync_got enable_finalizers (err (not_found what), w) = (ok tt, w)
  sync_got enable_finalizers (err (invalid what), w) = (err (invalid what), w)
  sync_got enable_finalizers (err (call_failed what e), w) = (err (call_failed what e), w)
  sync_got enable_finalizers (err (panicked what), w) = (err (panicked what), w)

  -- syncHiveTable, on a key that splits
  unfoldable pub sync_hive_table : Bool → String → String → Act W (Unit {0})
  sync_hive_table enable_finalizers namespace name =
      λ w. sync_got enable_finalizers (api.get_hive_table namespace name w)
