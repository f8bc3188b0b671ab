-- ===== src/DataSource/Billing/Partitions.antt =====
-- The partitions and the database of a table of AWS billing data (pkg/operator/aws_usage_hive.go).
use operator_metering.Prelude.{
  String, ◌≡◌, ◌≢◌, refl, sym, ap, ◌∙◌, true, false, none, List, [], ◌∷◌, str_eq, eq_iff, is_empty,
  arith,
}
use mathlib.Core.Path.{subst}
use operator_metering.Kube.{panicked, Result, ok, err, ok-injective, continue-ok}
use operator_metering.Hive.Partitions.{Partition}
use operator_metering.Hive.Tables.{HiveTable}
use operator_metering.Hive.Billing.{
  Text, Manifest, s3_location, data_directory, and_partition, get_desired_partitions,
}
use operator_metering.DataSource.{
  S3Bucket, AwsBilling, ReportDataSource, DataStorage, DataSourceApi,
}
use operator_metering.DataSource.Config.{OperatorConfig}
use operator_metering.DataSource.Billing.{
  set_partitions, database_for, usage_table_in, create_aws_usage_hive_table, new_usage_table,
  updated_table, update_aws_billing_partitions,
}

module _ (text : Text) (bucket : String) where
  -- The partition of each manifest, in order: it lies where the data directory of the manifest is.
  abbrev pub AreLocated : List Manifest → List Partition → Type 0
  AreLocated [] [] = Unit
  AreLocated [] (p ∷ ps) = ⊥
  AreLocated (m ∷ ms) [] = ⊥
  AreLocated (m ∷ ms) (p ∷ ps) =
      (s3_location text bucket (data_directory text m) ≡ ok p.location) × AreLocated ms ps

  and-AreLocated :
      (m : Manifest) (ms : List Manifest) (l : Result String) (r : Result (List Partition))
      (ps : List Partition)
      → s3_location text bucket (data_directory text m) ≡ l
      → ((qs : List Partition) → r ≡ ok qs → AreLocated ms qs)
      → and_partition text m l r ≡ ok ps
      → AreLocated (m ∷ ms) ps
  and-AreLocated m ms (err e) r ps e' k h = absurd (cc)
  and-AreLocated m ms (ok l) (err e) ps e' k h = absurd (cc)
  and-AreLocated m ms (ok l) (ok qs) ps e' k h =
      subst (AreLocated (m ∷ ms)) (ok-injective _ ps h) (e', k qs refl)

  desired-AreLocated :
      (ms : List Manifest) (ps : List Partition)
      → get_desired_partitions text bucket ms ≡ ok ps
      → AreLocated ms ps
  unfolding get_desired_partitions
  desired-AreLocated [] ps h = subst (AreLocated []) (ok-injective _ ps h) tt
  desired-AreLocated (m ∷ ms) ps h =
      and-AreLocated m ms (s3_location text bucket (data_directory text m))
        (get_desired_partitions text bucket ms) ps refl (desired-AreLocated ms) h

module _ {W : Type 0} (api : DataSourceApi W) (text : Text) (op : OperatorConfig)
    (replace : String → String) where
  updated-ok :
      (r : Result HiveTable × W)
      → (updated_table api text op replace r).0 ≡ ok tt
      → (t : HiveTable) × (r.0 ≡ ok t)
  updated-ok (ok t, w) h = (t, refl)
  updated-ok (err e, w) h = cc

  -- If updating the partitions of a table succeeds and there are manifests, then the update that the API accepted gives the table one
  -- partition for each manifest, in order, located at its data directory.
  pub update_partitions-AreLocated :
      (source : S3Bucket) (t : HiveTable) (ms : List Manifest) (w : W)
      → is_empty ms ≡ false
      → (update_aws_billing_partitions api text op replace source t ms w).0 ≡ ok tt
      → (ps : List Partition) × (AreLocated text source.bucket ms ps
          × ((t' : HiveTable) × ((api.update_hive_table (set_partitions t ps) w).0 ≡ ok t')))
  unfolding update_aws_billing_partitions
  update_partitions-AreLocated source t ms w n h =
      let (ps, (a, b)) =
        continue-ok (get_desired_partitions text source.bucket ms, w)
          (λ qs v.
            updated_table api text op replace (api.update_hive_table (set_partitions t qs) v))
          tt (rw n at h) in
      (
        ps,
        (
          desired-AreLocated text source.bucket ms ps a,
          updated-ok (api.update_hive_table (set_partitions t ps) w)
              (ap (λ x. x.0) (sym b) ∙ rw n at h),
        ),
      )

  -- A new data source without a database of its own panics where the default storage has a database in its specification and
  -- none in its status yet: the test is of the specification.
  pub new_usage_table-panics :
      (d : ReportDataSource) (b : AwsBilling) (source : S3Bucket) (ms : List Manifest) (w w' : W)
      (location : String) (s : DataStorage)
      → b.database_name ≡ ""
      → s3_location text source.bucket source.prefix ≡ ok location
      → api.get_hive_storage none d.meta.namespace w ≡ (ok s, w')
      → s.spec_database_name ≢ ""
      → s.storage.database_name ≡ ""
      → new_usage_table api text op replace d b source ms w
        ≡ (err (panicked "unable to get dbName"), w')
  unfolding new_usage_table create_aws_usage_hive_table database_for usage_table_in
  new_usage_table-panics d b source ms w w' location s own l got spec status =
      let e1 : str_eq b.database_name "" ≡ true = ground (arith, own, eq_iff b.database_name "") in
      let e2 : str_eq s.spec_database_name "" ≡ false =
        ground (arith, spec, eq_iff s.spec_database_name "") in
      let e3 : str_eq s.storage.database_name "" ≡ true =
        ground (arith, status, eq_iff s.storage.database_name "") in
      rw (l, e1, got, e2, e3) refl
