-- ===== src/Examples/Views.antt =====
-- Data sources that are views or AWS billing data, on concrete worlds (pkg/operator/datasources.go).
use operator_metering.Prelude.{
  ℕ, suc, ◌≡◌, ◌≢◌, refl, sym, ◌∙◌, true, none, some, List, [], ◌∷◌, arith,
}
use operator_metering.Kube.{ok}
use operator_metering.Hive.Partitions.{Partition}
use operator_metering.Hive.Tables.{HiveTable}
use operator_metering.Hive.Tables.Resource.{no_table_parameters}
use operator_metering.Hive.Billing.{Text, Manifest}
use operator_metering.Examples.Storages.{text, may}
use operator_metering.Examples.DataSources.{World, api, at, op, view, view_source}
use operator_metering.DataSource.{AwsBilling, S3Bucket, ReportDataSource, Operator, DataSourceApi}
use operator_metering.DataSource.View.{handle_report_query_view}
use operator_metering.DataSource.View.Ready.{IsQuiet, ViewReady, view-ViewReady}
use operator_metering.DataSource.Billing.{new_usage_table, set_partitions}
use operator_metering.DataSource.Billing.Partitions.{AreLocated, update_partitions-AreLocated}

one_ne_zero : (n : ℕ) → suc n ≢ 0
one_ne_zero n h = ground (arith, h)

abbrev ready_api : DataSourceApi World
ready_api = record api {
  get_hive_storage = λ n m w. (
    ok (record {
      spec_database_name = "metering";
      storage = record { database_name = "metering"; formats = none };
    }),
    w,
  );
}

ready_api-IsQuiet : IsQuiet (λ (w : World). w.views) ready_api
ready_api-IsQuiet = record { enqueue_data_source = λ d w. refl; get_presto_table = λ n m w. refl }

one_view :
    (handle_report_query_view ready_api op (λ s. s) (λ s. s) view_source view (at 0)).1.views ≡ 1
unfolding handle_report_query_view operator_metering.DataSource.View.view_name
    operator_metering.Dependencies.Validated.get_query_dependencies
    operator_metering.Dependencies.Resolver.resolve
    operator_metering.Dependencies.Resolver.resolve_dependencies
    operator_metering.Dependencies.check_supported
    operator_metering.Dependencies.Resolver.resolve_inputs
    operator_metering.Dependencies.Resolver.resolve_input operator_metering.Dependencies.given_value
    operator_metering.Dependencies.Resolver.resolve_value
    operator_metering.Dependencies.Resolver.input_type
    operator_metering.Dependencies.Resolver.resolve_data_source
    operator_metering.Dependencies.Validate.validate_query_dependencies
    operator_metering.Dependencies.Validate.uninitialized_data_sources
    operator_metering.Dependencies.Validated.dependencies_of
    operator_metering.Dependencies.Validated.sort_by_name
    operator_metering.Dependencies.Validated.insert_by_name
    operator_metering.DataSource.Dependents.queue_data_sources_of
    operator_metering.DataSource.Dependents.queue_dependent_data_sources
    operator_metering.DataSource.Dependents.queue_dependent_reports
    operator_metering.DataSource.Dependents.queue_dependents
    operator_metering.DataSource.Dependents.queue_reports_using
    operator_metering.DataSource.View.create_view operator_metering.DataSource.View.ensure_view
    operator_metering.DataSource.update_report_data_source operator_metering.Dependencies.parse_type
    operator_metering.Dependencies.Validate.uninitialized_reports
    operator_metering.Presto.Resource.create_presto_table_cr
    operator_metering.Report.Run.enqueue_data_sources
one_view = refl

view-ViewReady_example : ViewReady ready_api op (λ s. s) (λ s. s) view_source view (at 0)
view-ViewReady_example =
    view-ViewReady ready_api op (λ s. s) (λ s. s) (λ (w : World). w.views) ready_api-IsQuiet
      view_source view (at 0) (λ h. one_ne_zero 0 (sym one_view ∙ h))

abbrev bucket : S3Bucket
bucket = record { bucket = "bills"; region = "eu"; prefix = "usage" }

abbrev billing : AwsBilling
billing = record { source = some bucket; database_name = "" }

abbrev usage_table : HiveTable
usage_table = record {
  meta = record { namespace = "ns"; name = "bills"; finalizers = []; deletion_timestamp = none };
  spec = record { table = no_table_parameters; manage_partitions = true; partitions = [] };
  status = record { table = no_table_parameters; partitions = [] };
}

update_partitions-AreLocated_example :
    (ps : List Partition) × (AreLocated text "bills" (may ∷ []) ps
      × ((t : HiveTable) × ((api.update_hive_table (set_partitions usage_table ps) (at 0)).0
            ≡ ok t)))
unfolding operator_metering.DataSource.Billing.update_aws_billing_partitions
    operator_metering.Hive.Billing.get_desired_partitions operator_metering.Hive.Billing.s3_location
    operator_metering.Hive.Billing.data_directory operator_metering.Hive.Billing.paths
update_partitions-AreLocated_example =
    update_partitions-AreLocated api text op (λ s. s) bucket usage_table (may ∷ []) (at 0) refl refl
