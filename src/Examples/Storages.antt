-- ===== src/Examples/Storages.antt =====
-- Storage locations and AWS billing data on concrete worlds (pkg/operator/storagelocations.go, pkg/operator/aws_usage_hive.go).
use operator_metering.Prelude.{
  String, ◌<>◌, ◌≡◌, ◌≢◌, refl, true, false, ◌&&◌, none, some, List, [], ◌∷◌, leb, ◌==◌,
  if◌then◌else◌,
}
use operator_metering.Kube.{ok, err, not_found}
use operator_metering.Hive.Partitions.{set_id, ids_from}
use operator_metering.Hive.Billing.{
  Text, BillingColumn, Manifest, aws_usage_hive_partitions, get_desired_partitions, partition_at,
  all_columns,
}
use operator_metering.Hive.Billing.Identifiers.{desired_partitions-HasOneId}
use operator_metering.Storage.{HiveStorageSpec, StorageLocation, StorageApi}
use operator_metering.Storage.Handler.{
  Unicode, is_valid_sql_identifier, set_database, handle_storage_location,
  queue_dependents_of_storage_location,
}
use operator_metering.Storage.Databases.{handle_storage_location-creates}

abbrev pub text : Text
text = record {
  trim_space = λ s. s;
  replace = λ s a b. s;
  to_lower = λ s. s;
  join = λ a b. a <> ("/" <> b);
  dir = λ s. s;
  parse_url = λ s. some s;
  format_date = λ t. if t == 5 then "20180501" else "20180601";
}

abbrev pub may : Manifest
may = record {
  columns =
      record { category = "bill"; name = "id" } ∷ record { category = "bill"; name = "id" } ∷ [];
  start = 5;
  end = 6;
  report_keys = "may/1" ∷ [];
}

abbrev june : Manifest
june = record {
  columns =
      record { category = "bill"; name = "id" } ∷ record { category = "bill"; name = "cost" } ∷ [];
  start = 6;
  end = 7;
  report_keys = "june/1" ∷ [];
}

desired_partitions-HasOneId_example :
    ids_from (set_id aws_usage_hive_partitions) [] (
      partition_at text may "s3a://bucket/may/1/"
      ∷ partition_at text june "s3a://bucket/june/1/"
      ∷ [])
    ≡ "-" ∷ []
unfolding get_desired_partitions operator_metering.Hive.Billing.s3_location
    operator_metering.Hive.Billing.data_directory operator_metering.Hive.Billing.paths
desired_partitions-HasOneId_example =
    desired_partitions-HasOneId text "bucket" (may ∷ june ∷ [])
      (partition_at text may "s3a://bucket/may/1/")
      (partition_at text june "s3a://bucket/june/1/" ∷ []) refl

-- The stored location, and the databases that Hive has.
abbrev World : Type 0
World = StorageLocation × List String

abbrev api : StorageApi World
api = record {
  create_database = λ n l w. (none, (w.0, n ∷ w.1));
  drop_database = λ n i c w. (none, w);
  update_storage_location = λ l w. (ok l, (l, w.1));
  get_storage_location = λ n m w. (err (not_found m), w);
  list_storage_locations = λ n w. (ok (w.0 ∷ []), w);
  list_reports = λ n w. (ok [], w);
  list_data_sources = λ n w. (ok [], w);
  report_output = λ r. none;
  enqueue_report = λ r w. w;
  enqueue_data_source = λ d w. w;
}

abbrev ascii : Unicode
ascii = record {
  is_letter = λ n. leb 97 n && leb n 122;
  is_digit = λ n. leb 48 n && leb n 57;
  runes = λ bs. bs;
}

abbrev hive : HiveStorageSpec
hive = record { database_name = "metering"; location = "s3"; unmanaged_database = false }

abbrev location : StorageLocation
location = record {
  meta = record { namespace = "ns"; name = "hive"; finalizers = []; deletion_timestamp = none };
  is_default = true;
  hive = some hive;
  database_name = "";
  location = "";
}

handle_storage_location-creates_example :
    let w : World = (location, []) in
    let created = api.create_database "metering" "s3" w in
    let stored = api.update_storage_location (set_database location hive) created.1 in
    (hive.database_name ≢ "")
    × (is_valid_sql_identifier ascii "metering" ≡ true)
    × (created.0 ≡ none)
    × ((l' : StorageLocation) × ((stored.0 ≡ ok l')
          × ((handle_storage_location api ascii false location w).1
              ≡ (queue_dependents_of_storage_location api ascii l' stored.1).1)))
unfolding handle_storage_location operator_metering.Storage.Handler.ensure_finalizer
    operator_metering.Storage.Handler.ensure_database is_valid_sql_identifier
    operator_metering.Storage.Handler.store_location
handle_storage_location-creates_example =
    handle_storage_location-creates api ascii false location hive refl refl refl refl (location, [])
      ran
  where
    ran : (handle_storage_location api ascii false location (location, [])).0 ≡ ok tt
    ran = refl
