-- ===== src/Hive/Billing.antt =====
-- The Hive table of AWS billing data: pkg/operator/aws_usage_hive.go, `DataDirectory` of pkg/aws/manifest.go and `S3Location` of
-- pkg/hive/table.go. What the source uses of strings, path, net/url and time is the record `Text`.
pub mod Identifiers
pub mod Distinct
use operator_metering.Prelude.{
  ℕ, String, ◌<>◌, ◌≡◌, ◌≢◌, refl, sym, ap, ◌∙◌, Bool, true, false, ◌||◌, Option, none, some, List,
  [], ◌∷◌, ◌++◌, map, str_eq, eq_iff, ◌==◌, if◌then◌else◌, All, arith, Bool-cases, inl, inr,
}
use operator_metering.MetricStore.{Bytes, bytes}
use operator_metering.Prom.Chunks.{Time}
use operator_metering.Kube.{Failure, invalid, panicked, Result, ok, err}
use operator_metering.Columns.{Column}
use operator_metering.Hive.Partitions.{
  Partition, set_id, ids_from, member, insert, fmt_column, fmt_partition_spec,
}

-- strings.TrimSpace, strings.Replace of all occurrences, strings.ToLower, path.Join, filepath.Dir, url.Parse with
-- String, and the format of a date.
pub record Text : Type 0 where
  pub trim_space : String → String
  pub replace : String → String → String → String
  pub to_lower : String → String
  pub join : String → String → String
  pub dir : String → String
  pub parse_url : String → Option String
  pub format_date : Time → String

-- aws.Column
pub record BillingColumn : Type 0 where
  pub category : String
  pub name : String

-- The fields of aws.Manifest that are read here.
pub record Manifest : Type 0 where
  pub columns : List BillingColumn
  pub start : Time
  pub end : Time
  pub report_keys : List String

-- AWSUsageHivePartitions
abbrev pub aws_usage_hive_partitions : List Column
aws_usage_hive_partitions =
    record { name = "billing_period_start"; type = "string" }
    ∷ record { name = "billing_period_end"; type = "string" }
    ∷ []

abbrev last_byte : Bytes → Option ℕ
last_byte [] = none
last_byte (b ∷ []) = some b
last_byte (b ∷ c ∷ bs) = last_byte (c ∷ bs)

module _ (text : Text) where
  abbrev pub parsed : Option String → Result String
  parsed none = err (invalid "url")
  parsed (some u) = ok u

  abbrev pub with_slash : String → Option ℕ → Result String
  with_slash path none = err (panicked "index out of range")
  with_slash path (some b) =
      parsed (text.parse_url ("s3a://" <> (if b == 47 then path else path <> "/")))

  -- S3Location
  unfoldable pub s3_location : String → String → Result String
  s3_location bucket prefix =
      let path = text.join bucket prefix in with_slash path (last_byte (bytes path))

  -- paths
  unfoldable pub paths : List String → List String → List String
  paths seen [] = []
  paths seen (key ∷ keys) =
      let skipped = paths seen keys in
      let rest = paths (text.dir key ∷ seen) keys in
      if member (text.dir key) seen then skipped else text.dir key ∷ rest

  abbrev pub first_or_empty : List String → String
  first_or_empty [] = ""
  first_or_empty (p ∷ ps) = p

  -- DataDirectory
  unfoldable pub data_directory : Manifest → String
  data_directory m = first_or_empty (paths [] m.report_keys)

  abbrev pub partition_at : Manifest → String → Partition
  partition_at m location = record {
    location = location;
    partition_spec = ("start", text.format_date m.start) ∷ ("end", text.format_date m.end) ∷ [];
  }

  abbrev pub and_partition :
      Manifest → Result String → Result (List Partition) → Result (List Partition)
  and_partition m (err e) ps = err e
  and_partition m (ok location) (err e) = err e
  and_partition m (ok location) (ok ps) = ok (partition_at m location ∷ ps)

  -- getDesiredPartitions
  unfoldable pub get_desired_partitions : String → List Manifest → Result (List Partition)
  get_desired_partitions bucket [] = ok []
  get_desired_partitions bucket (m ∷ ms) =
      and_partition m (s3_location bucket (data_directory m)) (get_desired_partitions bucket ms)

  -- SanetizeAWSColumnForHive
  unfoldable pub sanetize_aws_column_for_hive : BillingColumn → String
  sanetize_aws_column_for_hive c = text.to_lower (
      text.replace
        (text.replace (text.trim_space c.category <> ("_" <> text.trim_space c.name)) ":" "_") "."
        "_")

  -- AWSColumnToHiveColumnType
  unfoldable pub aws_column_to_hive_column_type : BillingColumn → String
  aws_column_to_hive_column_type c =
      let name = sanetize_aws_column_for_hive c in
      if str_eq name "lineitem_usagestartdate" || str_eq name "lineitem_usageenddate"
      then "timestamp"
      else if str_eq name "lineitem_blendedcost"
      then "double"
      else "string"

  -- the inner loop over the columns of a manifest: `columns` and `seen` are one list, of which `seen` has the names
  unfoldable pub add_columns : List Column → List BillingColumn → List Column
  add_columns columns [] = columns
  add_columns columns (c ∷ cs) =
      let name = sanetize_aws_column_for_hive c in
      add_columns
        (if member name (map (λ (d : Column). d.name) columns)
          then columns
          else columns ++ record { name = name; type = aws_column_to_hive_column_type c } ∷ [])
        cs

  unfoldable pub all_columns : List Column → List Manifest → List Column
  all_columns columns [] = columns
  all_columns columns (m ∷ ms) = all_columns (add_columns columns m.columns) ms
