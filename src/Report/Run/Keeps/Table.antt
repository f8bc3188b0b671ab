-- ===== src/Report/Run/Keeps/Table.antt =====
-- The part of `runReport` (pkg/operator/reports.go) that makes or finds the table of a Report keeps what the other calls keep.
use operator_metering.Prelude.{ℕ, String, ◌≡◌, refl, ap, ◌∙◌, Bool, List, str_eq}
use operator_metering.Kube.{invalid, ◌>>=◌, ◌>>◌, return, reject, ignored-world}
use operator_metering.Columns.{
  Column, Converted, rejected, converted, panics, presto_columns_to_hive_columns,
}
use operator_metering.Dependencies.{Query}
use operator_metering.Hive.Tables.{HiveTable, PrestoTable, Creation, made, already_exists, not_made}
use operator_metering.Hive.Tables.Resource.{create_hive_table_cr, created_or_found}
use operator_metering.Report.{Report}
use operator_metering.Report.Run.Dependents.{queue_dependents, dependents-keep}
use operator_metering.Report.Run.{ReportApi, Texts, HiveStorage}
use operator_metering.Report.Run.Table.{
  ensure_table, create_table, create_in, use_tables, store_table_ref, set_table_ref, create_source,
  queue_all, find_table, create_tables, report_hive_table, data_source_made, hive_columns, lift,
  fully_qualified_table_name,
}
use operator_metering.Kube.Keeps.{Keeps, keeps-then, keeps-if, keeps-reject}
use operator_metering.Report.Run.Keeps.{IsQuiet}

module _ {W : Type 0} (f : W → ℕ) (api : ReportApi W) (texts : Texts) (quiet : IsQuiet f api) where
  module _ (to_lower replace : String → String) (enable_finalizers : Bool) where
    creation-keeps :
        (t : HiveTable) → Keeps f (create_hive_table_cr api.create_hive_table api.get_hive_table t)
    unfolding create_hive_table_cr
    creation-keeps t w = found-keeps (api.create_hive_table t w) ∙ quiet.create_hive_table t w
      where
        found-keeps :
            (c : Creation HiveTable × W)
            → f (created_or_found api.create_hive_table api.get_hive_table t c).1 ≡ f c.1
        found-keeps (made t', v) = refl
        found-keeps (already_exists t', v) = quiet.get_hive_table t.meta.namespace t.meta.name v
        found-keeps (not_made e, v) = refl

    columns-keeps :
        (c : Converted (List Column))
        → Keeps f (hive_columns api to_lower replace enable_finalizers c)
    columns-keeps (rejected e) w = refl
    columns-keeps panics w = refl
    columns-keeps (converted cs) w = refl

    source_made-keeps :
        (c : Creation (Unit {0}) × W)
        → f (data_source_made api to_lower replace enable_finalizers c).1 ≡ f c.1
    source_made-keeps (made u, w) = refl
    source_made-keeps (already_exists u, w) = refl
    source_made-keeps (not_made e, w) = refl

    tables-keep :
        (r : Report) (s : HiveStorage) (cs : List Column)
        → Keeps f (create_tables api to_lower replace enable_finalizers r s cs)
    unfolding create_tables
    tables-keep r s cs =
        keeps-then f {T = HiveTable}
          (create_hive_table_cr api.create_hive_table api.get_hive_table
            (report_hive_table api to_lower replace enable_finalizers r s cs))
          _ (creation-keeps (report_hive_table api to_lower replace enable_finalizers r s cs))
          (λ t.
            keeps-then f (api.wait_for_hive_table t.meta.namespace t.meta.name) _
              (quiet.wait_for_hive_table t.meta.namespace t.meta.name)
              (λ t'.
                keeps-then f (api.wait_for_presto_table t'.meta.namespace t'.meta.name) _
                  (quiet.wait_for_presto_table t'.meta.namespace t'.meta.name) (λ p w. refl)))

    store-keeps :
        (r : Report) (ts : HiveTable × PrestoTable)
        → Keeps f (store_table_ref api to_lower replace enable_finalizers r ts)
    unfolding store_table_ref
    store-keeps r ts =
        keeps-then f (api.update_report (set_table_ref r ts.0.meta.name))
          (λ r'. queue_all api to_lower replace enable_finalizers r' >> return (ts.1, r'))
          (quiet.update_report _)
          (λ r'.
            keeps-then f {V = PrestoTable × Report}
              (queue_all api to_lower replace enable_finalizers r') (λ u. return (ts.1, r'))
              (λ w.
                ap f (ignored-world (queue_dependents api r' w))
                ∙ dependents-keep f api quiet.queues r' w)
              (λ x w. refl))

    use-keeps :
        (r : Report) (ts : HiveTable × PrestoTable)
        → Keeps f (use_tables api to_lower replace enable_finalizers r ts)
    unfolding use_tables
    use-keeps r ts =
        keeps-then f (lift api to_lower replace enable_finalizers (fully_qualified_table_name ts.1))
          (λ name.
            create_source api to_lower replace enable_finalizers r ts.1
            >> store_table_ref api to_lower replace enable_finalizers r ts)
          (λ w. refl)
          (λ name.
            keeps-then f (create_source api to_lower replace enable_finalizers r ts.1)
              (λ u. store_table_ref api to_lower replace enable_finalizers r ts)
              (λ w. source_made-keeps _ ∙ quiet.create_data_source _ _ w) (λ u. store-keeps r ts))

    create_in-keeps :
        (r : Report) (q : Query) (s : HiveStorage)
        → Keeps f (create_in api to_lower replace enable_finalizers r q s)
    unfolding create_in
    create_in-keeps r q s =
        let cs = presto_columns_to_hive_columns (api.query_columns q) in
        keeps-then f (hive_columns api to_lower replace enable_finalizers cs)
          (λ cs.
            create_tables api to_lower replace enable_finalizers r s cs
            >>= use_tables api to_lower replace enable_finalizers r)
          (columns-keeps cs)
          (λ cs.
            keeps-then f (create_tables api to_lower replace enable_finalizers r s cs)
              (use_tables api to_lower replace enable_finalizers r) (tables-keep r s cs)
              (use-keeps r))

    create-keeps :
        (r : Report) (q : Query) → Keeps f (create_table api to_lower replace enable_finalizers r q)
    unfolding create_table
    create-keeps r q =
        keeps-then f (api.get_hive_storage r)
          (λ s.
            reject (str_eq s.database_name "") (invalid "Hive database does not exist yet")
            >> create_in api to_lower replace enable_finalizers r q s)
          (quiet.get_hive_storage r)
          (λ s.
            keeps-then f
              (reject (str_eq s.database_name "") (invalid "Hive database does not exist yet"))
              (λ u. create_in api to_lower replace enable_finalizers r q s) (keeps-reject f _ _)
              (λ u. create_in-keeps r q s))

    find-keeps : (r : Report) → Keeps f (find_table api to_lower replace enable_finalizers r)
    unfolding find_table
    find-keeps r =
        keeps-then f (api.get_presto_table r.namespace r.status.table_ref) _
          (quiet.get_presto_table r.namespace r.status.table_ref)
          (λ p.
            keeps-then f
              (lift api to_lower replace enable_finalizers (fully_qualified_table_name p)) _
              (λ w. refl) (λ n w. refl))

    pub table-keeps :
        (r : Report) (q : Query) → Keeps f (ensure_table api to_lower replace enable_finalizers r q)
    unfolding ensure_table
    table-keeps r q =
        keeps-if f (str_eq r.status.table_ref "")
          (create_table api to_lower replace enable_finalizers r q)
          (find_table api to_lower replace enable_finalizers r) (create-keeps r q) (find-keeps r)
