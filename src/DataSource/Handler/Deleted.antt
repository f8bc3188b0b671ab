-- ===== src/DataSource/Handler/Deleted.antt =====
-- `syncReportDataSource` (pkg/operator/datasources.go) for a data source that is marked for deletion.
use operator_metering.Prelude.{
  String, ◌≡◌, refl, ap, ◌∙◌, Bool, true, false, Option, none, some, if◌then◌else◌,
}
use operator_metering.Slice.{contains_string}
use operator_metering.Prom.Chunks.{Time}
use operator_metering.Kube.{ok, last-world, without_finalizer}
use operator_metering.Hive.Billing.{Text}
use operator_metering.DataSource.{
  ReportDataSource, Operator, DataSourceApi, report_data_source_finalizer, on_world, with_world,
}
use operator_metering.DataSource.Config.{OperatorConfig}
use operator_metering.DataSource.Handler.{
  remove_report_data_source_finalizer, cleaned_up, sync_found, sync_got, sync_report_data_source,
}

module _ {W : Type 0} (api : DataSourceApi W) (text : Text) (op : OperatorConfig)
    (replace : String → String) where
  -- the world after the removal of the finalizer, if it is there
  abbrev pub without : Bool → ReportDataSource → W → W
  without true d w =
      (api.update_data_source
        (record d { meta = without_finalizer report_data_source_finalizer d.meta }) w).1
  without false d w = w

  removed-world :
      (b : Bool) (d : ReportDataSource) (w : W)
      → ((if b
            then api.update_data_source
                (record d { meta = without_finalizer report_data_source_finalizer d.meta })
            else λ v. (ok d, v))
          w).1
        ≡ without b d w
  removed-world true d w = refl
  removed-world false d w = refl

  cleaned_up-world :
      (d : ReportDataSource) (w : W)
      → (cleaned_up api text op replace d w).1
        ≡ without (contains_string d.meta.finalizers report_data_source_finalizer none) d w
  unfolding remove_report_data_source_finalizer
  cleaned_up-world d w =
      last-world (remove_report_data_source_finalizer api text op replace d w)
      ∙ removed-world (contains_string d.meta.finalizers report_data_source_finalizer none) d w

  found-deleted :
      (d : ReportDataSource) (t : Option Time) (at : Time) (o : Operator W)
      → t ≡ some at
      → sync_found api text op replace t d o ≡ on_world (cleaned_up api text op replace d) o
  found-deleted d t at o e = ap (λ x. sync_found api text op replace x d o) e

  -- A data source that is marked for deletion is not handled: at most its finalizer is removed, and the importer that
  -- the operator keeps for its name stays.
  pub sync-deleted :
      (namespace name : String) (d : ReportDataSource) (at : Time) (o : Operator W) (w : W)
      → api.lister_data_source namespace name o.world ≡ (ok d, w)
      → d.meta.deletion_timestamp ≡ some at
      → ((sync_report_data_source api text op replace namespace name o).1.importers ≡ o.importers)
        × ((sync_report_data_source api text op replace namespace name o).1.world
            ≡ without (contains_string d.meta.finalizers report_data_source_finalizer none) d w)
  unfolding sync_report_data_source
  sync-deleted namespace name d at o w got marked =
      let synced =
        ap (λ x. sync_got api text op replace (with_world o x)) got
        ∙ found-deleted d d.meta.deletion_timestamp at (record o { world = w }) marked in
      (ap (λ x. x.1.importers) synced, ap (λ x. x.1.world) synced ∙ cleaned_up-world d w)
