-- ===== src/Presto/Handler.antt =====
-- `syncPrestoTable`, `handlePrestoTable` and the functions it calls (pkg/operator/prestotables.go). The texts
-- of errors keep what failed.
use operator_metering.Prelude.{
  ℕ, String, Bool, true, false, ◌&&◌, not, Option, none, some, List, [], ◌∷◌, str_eq, if◌then◌else◌,
}
use operator_metering.Slice.{contains_string}
use operator_metering.Kube.{
  invalid, call_failed, not_found, panicked, Result, ok, err, Act, called, ignored, ◌>>=◌, ◌>>◌,
  return, fail, when, reject, needs_finalizer, with_finalizer, without_finalizer,
}
use operator_metering.Columns.{Column}
use operator_metering.Report.{Report}
use operator_metering.Hive.Tables.{PrestoTable, PrestoParameters}
use operator_metering.Hive.Tables.Handler.{is_empty}
use operator_metering.Presto.{Properties, TableDataSource, PrestoApi, presto_table_finalizer}
use operator_metering.Presto.Copy.{copy_presto_table_spec_to_status}

abbrev names : Option String → String → Bool
names none n = false
names (some m) n = str_eq m n

module _ {W : Type 0} (api : PrestoApi W) (sort : List Column → List Column)
    (same_properties : Properties → Properties → Bool) where
  -- addPrestoTableFinalizer
  unfoldable pub add_presto_table_finalizer : PrestoTable → Act W PrestoTable
  add_presto_table_finalizer t =
      api.update_presto_table (record t { meta = with_finalizer presto_table_finalizer t.meta })

  -- removePrestoTableFinalizer
  unfoldable pub remove_presto_table_finalizer : PrestoTable → Act W PrestoTable
  remove_presto_table_finalizer t =
      if contains_string t.meta.finalizers presto_table_finalizer none
      then api.update_presto_table
          (record t { meta = without_finalizer presto_table_finalizer t.meta })
      else return t

  -- the drop of a view or of a table, by the status
  unfoldable pub drop : PrestoParameters → W → Option String × W
  drop s =
      if s.view
      then api.drop_view s.catalog s.schema s.table_name true
      else api.drop_table s.catalog s.schema s.table_name true

  -- dropPrestoTable
  unfoldable pub drop_presto_table : PrestoTable → Act W (Unit {0})
  drop_presto_table t =
      if t.unmanaged
      then fail (invalid "cannot drop unmanaged PrestoTable")
      else if str_eq t.status.table_name ""
      then return tt
      else (λ w. called "drop" (drop t.status w))

  -- the loops of `queueDependentsOfPrestoTable`
  unfoldable pub enqueue_data_sources : String → List TableDataSource → W → W
  enqueue_data_sources name [] w = w
  enqueue_data_sources name (d ∷ ds) w =
      enqueue_data_sources name ds
        (if names d.presto_table name then api.enqueue_data_source d w else w)

  unfoldable pub enqueue_reports : String → List Report → W → W
  enqueue_reports name [] w = w
  enqueue_reports name (r ∷ rs) w =
      enqueue_reports name rs (if str_eq r.status.table_ref name then api.enqueue_report r w else w)

  -- queueDependentsOfPrestoTable
  unfoldable pub queue_dependents_of_presto_table : PrestoTable → Act W (Unit {0})
  queue_dependents_of_presto_table t = api.list_reports t.meta.namespace >>= λ reports.
      api.list_data_sources t.meta.namespace >>= λ sources w.
      (ok tt, enqueue_reports t.meta.name reports (enqueue_data_sources t.meta.name sources w))

  -- the checks of the specification
  unfoldable pub check_spec : PrestoTable → Act W (Unit {0})
  check_spec t =
      reject (str_eq t.spec.catalog "") (invalid "spec.catalog must be set")
      >> (reject (str_eq t.spec.schema "") (invalid "spec.schema must be set")
          >> (reject (str_eq t.spec.table_name "") (invalid "spec.tableName must be set")
              >> (reject (is_empty t.spec.columns) (invalid "spec.columns must be non-empty")
                  >> reject (t.spec.create_table_as && t.spec.view)
                      (invalid "spec.createTableAs and spec.view are mutually exclusive"))))

  -- the switch over the kinds of tables
  unfoldable pub create : PrestoParameters → W → Option String × W
  create s =
      if s.view
      then api.create_view s.catalog s.schema s.table_name s.query
      else if s.create_table_as
      then api.create_table_as s.catalog s.schema s.table_name s.columns s.comment s.properties
          false s.query
      else api.create_table s.catalog s.schema s.table_name s.columns s.comment s.properties true

  unfoldable pub store : Bool → PrestoTable → Act W (Unit {0})
  store needs_update t =
      when needs_update
        (api.update_presto_table t >>= λ t' w. ignored (queue_dependents_of_presto_table t' w))

  unfoldable pub ensure_finalizer : Bool → PrestoTable → Act W PrestoTable
  ensure_finalizer enable_finalizers t =
      if enable_finalizers && needs_finalizer presto_table_finalizer t.meta
      then add_presto_table_finalizer t
      else return t

  unfoldable pub ensure_created : PrestoTable → Act W (Unit {0})
  ensure_created t = if t.unmanaged then return tt else (λ w. called "create" (create t.spec w))

  unfoldable pub create_and_store : PrestoTable → Act W (Unit {0})
  create_and_store t =
      let (needs_update, t') = copy_presto_table_spec_to_status sort same_properties t in
      ensure_created t >> store needs_update t'

  -- handlePrestoTable
  unfoldable pub handle_presto_table : Bool → PrestoTable → Act W (Unit {0})
  handle_presto_table enable_finalizers t = ensure_finalizer enable_finalizers t >>= λ t₁.
      check_spec t₁ >> (if str_eq t₁.status.table_name "" then create_and_store t₁ else return tt)

  abbrev pub cleanup : PrestoTable → Act W (Unit {0})
  cleanup t =
      when (not t.unmanaged) (drop_presto_table t)
      >> (remove_presto_table_finalizer t >>= λ t'. return tt)

  abbrev pub sync_found : Bool → Option ℕ → PrestoTable → Act W (Unit {0})
  sync_found enable_finalizers none t = handle_presto_table enable_finalizers t
  sync_found enable_finalizers (some at) t = cleanup t

  abbrev pub sync_got : Bool → Result PrestoTable × W → Result (Unit {0}) × W
  sync_got enable_finalizers (ok t, w) = sync_found enable_finalizers t.meta.deletion_timestamp t w
  sync_got enable_finalizers (err (not_found what), w) = (ok tt, w)
  sync_got enable_finalizers (err (invalid what), w) = (err (invalid what), w)
  sync_got enable_finalizers (err (call_failed what e), w) = (err (call_failed what e), w)
  sync_got enable_finalizers (err (panicked what), w) = (err (panicked what), w)

  -- syncPrestoTable, on a key that splits
  unfoldable pub sync_presto_table : Bool → String → String → Act W (Unit {0})
  sync_presto_table enable_finalizers namespace name =
      λ w. sync_got enable_finalizers (api.get_presto_table namespace name w)
