-- ===== src/Hive/Tables/Deleted.antt =====
-- What `syncHiveTable` (pkg/operator/hivetables.go) does with a table that is marked for deletion.
use operator_metering.Prelude.{
  String, ◌≡◌, ◌≢◌, refl, sym, ap, ◌∙◌, Bool, true, false, Option, none, some, List, str_eq, eq_iff,
  arith,
}
use operator_metering.Kube.{
  call_failed, ok, err, Act, continue, continue-ok, called, called-ok, called-some, last-world,
}
use operator_metering.Prom.Chunks.{Time}
use operator_metering.Hive.Tables.{HiveTable, HiveApi}
use operator_metering.Hive.Tables.Handler.{
  sync_hive_table, drop_hive_table, remove_hive_table_finalizer, cleanup,
}

module _ {W : Type 0} (api : HiveApi W) (order : List String → List String)
    (enable_finalizers : Bool) (namespace name : String) (t : HiveTable) (w w' : W) (at : Time)
    (got : api.get_hive_table namespace name w ≡ (ok t, w'))
    (deleted : t.meta.deletion_timestamp ≡ some at) (named : t.status.table.name ≢ "") where
  abbrev dropped : Option String × W
  dropped = api.drop_table t.status.table.database t.status.table.name true w'

  named-drop : drop_hive_table api order t w' ≡ called "drop table" dropped
  unfolding drop_hive_table
  named-drop =
      let e : str_eq t.status.table.name "" ≡ false =
        ground (arith, eq_iff t.status.table.name "") in
      rw e refl

  sync-cleanup :
      sync_hive_table api order enable_finalizers namespace name w ≡ cleanup api order t w'
  unfolding sync_hive_table
  sync-cleanup = rw got (rw deleted refl)

  -- If a table with a name in its status is marked for deletion and cannot be dropped, the error is returned and nothing else is called:
  -- its finalizer stays.
  pub sync_hive_table-failed_drop :
      (e : String)
      → dropped.0 ≡ some e
      → sync_hive_table api order enable_finalizers namespace name w
        ≡ (err (call_failed "drop table" e), dropped.1)
  sync_hive_table-failed_drop e h =
      sync-cleanup ∙ rw (named-drop ∙ called-some "drop table" e dropped h) refl

  -- If the sync of a Hive table that is marked for deletion and has a table name in its status succeeds, then the table was dropped, and
  -- the world is the one that removing the finalizer leaves after it.
  pub sync_hive_table-dropped :
      (sync_hive_table api order enable_finalizers namespace name w).0 ≡ ok tt
      → (dropped.0 ≡ none)
        × ((sync_hive_table api order enable_finalizers namespace name w).1
            ≡ (remove_hive_table_finalizer api order t dropped.1).1)
  sync_hive_table-dropped h =
      let rest : Act W (Unit {0}) =
        λ v. continue (remove_hive_table_finalizer api order t v) (λ x v'. (ok tt, v')) in
      let e : sync_hive_table api order enable_finalizers namespace name w
          ≡ continue (called "drop table" dropped) (λ x. rest) =
        sync-cleanup ∙ rw named-drop refl in
      let (u, (a, b)) =
        continue-ok (called "drop table" dropped) (λ x. rest) tt (sym (ap (λ r. r.0) e) ∙ h) in
      let (c, d) = called-ok "drop table" dropped a in
      (
        c,
        ap (λ r. r.1) (e ∙ b)
            ∙ ap (λ v. (rest v).1) d
            ∙ last-world (remove_hive_table_finalizer api order t dropped.1),
      )
