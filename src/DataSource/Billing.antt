-- ===== src/DataSource/Billing.antt =====
-- Data sources of AWS billing data: `handleAWSBillingDataSource` of pkg/operator/datasources.go, and `createAWSUsageHiveTableCR` and
-- `updateAWSBillingPartitions` of pkg/operator/aws_usage_hive.go. The object of the cache, which the latter changes, is not shared here.
pub mod Partitions
use operator_metering.Prelude.{
  ℕ, ◌*◌, String, Bool, true, false, Option, none, some, List, [], ◌∷◌, is_empty, str_eq,
  if◌then◌else◌,
}
use operator_metering.Prom.Chunks.{Duration, minute}
use operator_metering.Kube.{
  invalid, call_failed, not_found, panicked, Result, ok, err, Act, continue, ◌>>=◌, ◌>>◌, return,
  fail, reject,
}
use operator_metering.Hive.Partitions.{Partition}
use operator_metering.Hive.Tables.{HiveTable, PrestoTable, TableParameters}
use operator_metering.Hive.Tables.Resource.{
  no_table_parameters, table_resource_name_from_kind, new_hive_table,
}
use operator_metering.Hive.Billing.{
  Text, Manifest, aws_usage_hive_partitions, s3_location, all_columns, get_desired_partitions,
}
use operator_metering.Report.Run.Table.{fully_qualified_table_name}
use operator_metering.DataSource.{
  S3Bucket, AwsBilling, ReportDataSource, DataSourceApi, set_table_ref, of_result,
  update_report_data_source,
}
use operator_metering.DataSource.Config.{OperatorConfig}
use operator_metering.DataSource.Dependents.{queue_dependents}
use operator_metering.DataSource.Tables.{
  data_source_table_name, made_tables, data_source_hive_table,
}

-- AWSUsageHiveRowFormat
abbrev aws_usage_hive_row_format : String
aws_usage_hive_row_format =
    "\nSERDE 'org.apache.hadoop.hive.serde2.lazy.LazySimpleSerDe'\nWITH SERDEPROPERTIES (\n    \"serialization.format\" = \",\",\n    \"field.delim\"          = \",\",\n    \"collection.delim\"     = \"undefined\",\n    \"mapkey.delim\"         = \"undefined\",\n    \"timestamp.formats\"    = \"yyyy-MM-dd'T'HH:mm:ssZ\"\n)\n"

-- partitionUpdateInterval
abbrev pub partition_update_interval : Duration
partition_update_interval = 30 * minute

abbrev pub set_partitions : HiveTable → List Partition → HiveTable
set_partitions t ps = let s = t.spec in record t { spec = record s { partitions = ps } }

module _ {W : Type 0} (api : DataSourceApi W) (text : Text) (op : OperatorConfig)
    (replace : String → String) where
  -- The database: of the data source, or of the default storage. The test is of the specification's name.
  unfoldable pub database_for : ReportDataSource → AwsBilling → Act W String
  database_for d b =
      if str_eq b.database_name ""
      then (api.get_hive_storage none d.meta.namespace >>= λ s.
          reject (str_eq s.spec_database_name "") (invalid "Hive database does not exist yet")
          >> return s.storage.database_name)
      else return b.database_name

  abbrev pub usage_table : ReportDataSource → String → String → List Manifest → TableParameters
  usage_table d database location manifests = record no_table_parameters {
    database = database;
    name = data_source_table_name api op text.to_lower replace d;
    columns = all_columns text [] manifests;
    partitioned_by = aws_usage_hive_partitions;
    location = location;
    file_format = "textfile";
    row_format = aws_usage_hive_row_format;
    external = true;
  }

  unfoldable pub usage_table_in :
      ReportDataSource → String → List Manifest → String → Act W HiveTable
  usage_table_in d location manifests database =
      if str_eq database ""
      then fail (panicked "unable to get dbName")
      else (made_tables api op text.to_lower replace (
            data_source_hive_table api op text.to_lower replace d
              (usage_table d database location manifests) true)
          >>= λ ts. return ts.0)

  -- createAWSUsageHiveTableCR
  unfoldable pub create_aws_usage_hive_table :
      ReportDataSource → AwsBilling → S3Bucket → List Manifest → Act W HiveTable
  create_aws_usage_hive_table d b source manifests =
      of_result (s3_location text source.bucket source.prefix) >>= λ location.
      database_for d b >>= usage_table_in d location manifests

  abbrev pub updated_table : Result HiveTable × W → Result (Unit {0}) × W
  updated_table (ok t, w) = (ok tt, w)
  updated_table (err e, w) = (err e, w)

  -- updateAWSBillingPartitions
  unfoldable pub update_aws_billing_partitions :
      S3Bucket → HiveTable → List Manifest → Act W (Unit {0})
  update_aws_billing_partitions source t manifests =
      if is_empty manifests
      then return tt
      else (of_result (get_desired_partitions text source.bucket manifests) >>= λ ps.
          λ w. updated_table (api.update_hive_table (set_partitions t ps) w))

  -- the Presto table of a Hive table is there, with a complete name
  unfoldable pub presto_table_there : HiveTable → Act W (Unit {0})
  presto_table_there t = api.reports.get_presto_table t.meta.namespace t.meta.name >>= λ p.
      of_result (fully_qualified_table_name p) >>= λ name. return tt

  -- the branch of a data source without a table
  unfoldable pub new_usage_table :
      ReportDataSource
      → AwsBilling
      → S3Bucket
      → List Manifest
      → Act W (HiveTable × ReportDataSource)
  new_usage_table d b source manifests = create_aws_usage_hive_table d b source manifests >>= λ t.
      presto_table_there t
      >> (update_report_data_source api d.meta.namespace d.meta.name (set_table_ref t.meta.name)
          >>= λ d'. return (t, d'))

  -- A Hive table that the cache does not have is asked for.
  abbrev pub cached_or_asked : String → String → Result HiveTable × W → Result HiveTable × W
  cached_or_asked namespace name (ok t, w) = (ok t, w)
  cached_or_asked namespace name (err (not_found what), w) =
      api.uncached_hive_table namespace name w
  cached_or_asked namespace name (err (invalid what), w) = (err (invalid what), w)
  cached_or_asked namespace name (err (call_failed what e), w) = (err (call_failed what e), w)
  cached_or_asked namespace name (err (panicked what), w) = (err (panicked what), w)

  -- the branch of a data source that has a table
  unfoldable pub known_usage_table : ReportDataSource → Act W (HiveTable × ReportDataSource)
  known_usage_table d =
      let name =
        table_resource_name_from_kind text.to_lower "ReportDataSource" d.meta.namespace
          d.meta.name in
      (λ w.
        cached_or_asked d.meta.namespace name (api.reports.get_hive_table d.meta.namespace name w))
      >>= λ t. presto_table_there t >> return (t, d)

  unfoldable pub ensure_usage_table :
      ReportDataSource
      → AwsBilling
      → S3Bucket
      → List Manifest
      → Act W (HiveTable × ReportDataSource)
  ensure_usage_table d b source manifests =
      if str_eq d.status.table_ref ""
      then new_usage_table d b source manifests
      else known_usage_table d

  -- The partitions are updated, and the data source is queued for the next update.
  unfoldable pub update_and_queue :
      S3Bucket → List Manifest → HiveTable × ReportDataSource → Act W (Unit {0})
  update_and_queue source manifests (t, d) =
      update_aws_billing_partitions source t manifests >> λ w.
      queue_dependents api d (api.enqueue_data_source_after d partition_update_interval w)

  abbrev pub with_manifests :
      ReportDataSource → AwsBilling → S3Bucket → List Manifest → Act W (Unit {0})
  with_manifests d b source manifests =
      if is_empty manifests
      then return tt
      else (ensure_usage_table d b source manifests >>= update_and_queue source manifests)

  abbrev pub from_source : ReportDataSource → AwsBilling → Option S3Bucket → Act W (Unit {0})
  from_source d b none = fail (invalid "improperly configured datasource, source is empty")
  from_source d b (some source) = api.retrieve_manifests source >>= with_manifests d b source

  -- handleAWSBillingDataSource
  unfoldable pub handle_aws_billing : ReportDataSource → AwsBilling → Act W (Unit {0})
  handle_aws_billing d b = from_source d b b.source
