-- ===== src/Presto/Deleted.antt =====
-- What `syncPrestoTable` (pkg/operator/prestotables.go) does with a table that is marked for deletion.
use operator_metering.Prelude.{
  String, ◌≡◌, ◌≢◌, refl, ap, ◌∙◌, Bool, not, true, false, some, List, str_eq, eq_iff, arith,
}
use operator_metering.Kube.{call_failed, ok, err, Act, continue, when, called-some, last-world}
use operator_metering.Prom.Chunks.{Time}
use operator_metering.Columns.{Column}
use operator_metering.Hive.Tables.{PrestoTable}
use operator_metering.Presto.{Properties, PrestoApi}
use operator_metering.Presto.Handler.{
  sync_presto_table, drop_presto_table, drop, remove_presto_table_finalizer, cleanup,
}

module _ {W : Type 0} (api : PrestoApi W) (sort : List Column → List Column)
    (same_properties : Properties → Properties → Bool) (enable_finalizers : Bool)
    (namespace name : String) (t : PrestoTable) (w w' : W) (at : Time)
    (got : api.get_presto_table namespace name w ≡ (ok t, w'))
    (deleted : t.meta.deletion_timestamp ≡ some at) where
  abbrev rest : Unit {0} → Act W (Unit {0})
  rest u v =
      continue (remove_presto_table_finalizer api sort same_properties t v) (λ x v'. (ok tt, v'))

  sync-cleanup :
      sync_presto_table api sort same_properties enable_finalizers namespace name w
      ≡ cleanup api sort same_properties t w'
  unfolding sync_presto_table
  sync-cleanup = rw got (rw deleted refl)

  -- An unmanaged table that is marked for deletion is not dropped: only its finalizer is removed.
  pub sync_presto_table-unmanaged :
      t.unmanaged ≡ true
      → (sync_presto_table api sort same_properties enable_finalizers namespace name w).1
        ≡ (remove_presto_table_finalizer api sort same_properties t w').1
  sync_presto_table-unmanaged h =
      ap (λ r. r.1) sync-cleanup
      ∙ ap (λ b. (continue (when (not b) (drop_presto_table api sort same_properties t) w') rest).1)
          h
      ∙ (last-world (remove_presto_table_finalizer api sort same_properties t w'))

  -- If a managed table with a name in its status is marked for deletion and cannot be dropped, the error is returned
  -- and nothing else is called: its finalizer stays.
  pub sync_presto_table-failed_drop :
      (e : String)
      → t.unmanaged ≡ false
      → t.status.table_name ≢ ""
      → (drop api sort same_properties t.status w').0 ≡ some e
      → sync_presto_table api sort same_properties enable_finalizers namespace name w
        ≡ (err (call_failed "drop" e), (drop api sort same_properties t.status w').1)
  unfolding drop_presto_table
  sync_presto_table-failed_drop e h named f =
      let u : str_eq t.status.table_name "" ≡ false =
        ground (arith, eq_iff t.status.table_name "") in
      let d : drop_presto_table api sort same_properties t w'
          ≡ (err (call_failed "drop" e), (drop api sort same_properties t.status w').1) =
        rw h (rw u (called-some "drop" e (drop api sort same_properties t.status w') f)) in
      sync-cleanup
      ∙ ap (λ b. continue (when (not b) (drop_presto_table api sort same_properties t) w') rest) h
      ∙ ap (λ r. continue r rest) d
