-- ===== src/Sql/HiveQuery.antt =====
-- The statements of pkg/hive/query.go, and what `HiveManager` (pkg/operator/reporting/db.go) executes for partitions. strings.TrimSpace, strings.ToLower and
-- the printing of numbers and maps are parameters; a nil map of table properties is the empty list.
use operator_metering.Prelude.{
  ℕ, String, ◌<>◌, Bool, true, false, not, Option, none, some, List, [], ◌∷◌, map, join, str_eq,
  if◌then◌else◌,
}
use operator_metering.Columns.{Column}
use operator_metering.Hive.Partitions.{Partition, PartitionManager, fmt_partition_spec}
use operator_metering.Hive.Tables.{SortColumn, TableParameters}
use operator_metering.Hive.Tables.Handler.{is_empty}
use operator_metering.Sql.{only_if, concat, newline}

-- generateDropTableSQL
unfoldable pub generate_drop_table_sql : String → String → Bool → Bool → String
generate_drop_table_sql database table_name ignore_not_exists purge = concat (
    "DROP TABLE "
    ∷ only_if ignore_not_exists "IF EXISTS"
    ∷ " "
    ∷ (if str_eq database "" then table_name else concat (database ∷ "." ∷ table_name ∷ []))
    ∷ " "
    ∷ only_if purge "PURGE"
    ∷ [])

-- escapeColumn
abbrev pub escape_column : Column → String
escape_column c = concat ("`" ∷ c.name ∷ "` " ∷ c.type ∷ [])

-- generateColumnListSQL
unfoldable pub generate_column_list_sql : List Column → String
generate_column_list_sql columns = join "," (map escape_column columns)

abbrev pub quoted : String → String
quoted c = concat ("`" ∷ c ∷ "`" ∷ [])

-- generateColumnNoTypesListSQL
unfoldable pub generate_column_no_types_list_sql : List String → String
generate_column_no_types_list_sql columns = join "," (map quoted columns)

abbrev pub direction : Option Bool → String
direction none = ""
direction (some true) = " DESC"
direction (some false) = " ASC"

-- generateSortedByColumnListSQL
unfoldable pub generate_sorted_by_column_list_sql : List SortColumn → String
generate_sorted_by_column_list_sql columns =
    join "," (map (λ (c : SortColumn). quoted c.name <> direction c.decending) columns)

module _ (trim_space : String → String) (show : ℕ → String)
    (show_map : List (String × String) → String) where
  abbrev pub clustered_by_sql : TableParameters → String
  clustered_by_sql p =
      only_if (not (is_empty p.clustered_by))
        (concat ("CLUSTERED BY (" ∷ generate_column_no_types_list_sql p.clustered_by ∷ ")" ∷ []))

  abbrev pub sorted_by_sql : TableParameters → String
  sorted_by_sql p = only_if (not (is_empty p.clustered_by)) (
      only_if (not (is_empty p.sorted_by))
        (concat ("SORTED BY (" ∷ generate_sorted_by_column_list_sql p.sorted_by ∷ ")" ∷ [])))

  abbrev pub into_buckets_sql : TableParameters → String
  into_buckets_sql p =
      only_if (not (is_empty p.clustered_by))
        (concat ("INTO " ∷ show p.num_buckets ∷ " BUCKETS" ∷ []))

  -- generateCreateTableSQL
  unfoldable pub generate_create_table_sql : TableParameters → Bool → String
  generate_create_table_sql p ignore_exists = concat (
      "CREATE "
      ∷ only_if p.external "EXTERNAL"
      ∷ " TABLE "
      ∷ only_if ignore_exists "IF NOT EXISTS"
      ∷ newline
      ∷ (if str_eq p.database "" then p.name else concat (p.database ∷ "." ∷ p.name ∷ []))
      ∷ " ("
      ∷ generate_column_list_sql p.columns
      ∷ ") "
      ∷ only_if (not (is_empty p.partitioned_by))
          (concat ("PARTITIONED BY (" ∷ generate_column_list_sql p.partitioned_by ∷ ")" ∷ []))
      ∷ newline
      ∷ clustered_by_sql p
      ∷ " "
      ∷ sorted_by_sql p
      ∷ " "
      ∷ into_buckets_sql p
      ∷ newline
      ∷ only_if (not (str_eq p.row_format "")) ("ROW FORMAT " <> trim_space p.row_format)
      ∷ " "
      ∷ only_if (not (str_eq p.file_format "")) ("STORED AS " <> p.file_format)
      ∷ " "
      ∷ only_if (not (str_eq p.location "")) (concat ("LOCATION \"" ∷ p.location ∷ "\"" ∷ []))
      ∷ newline
      ∷ only_if (not (is_empty p.table_properties))
          (concat ("TBLPROPERTIES(" ∷ show_map p.table_properties ∷ ")" ∷ []))
      ∷ [])

-- generateCreateDatabaseSQL, on the name and the location; the test whether a database may exist reads the location
unfoldable pub generate_create_database_sql : String → String → Bool → String
generate_create_database_sql name location ignore_exists = concat (
    "CREATE DATABASE"
    ∷ newline
    ∷ only_if (not (str_eq location "")) "IF NOT EXISTS"
    ∷ newline
    ∷ name
    ∷ newline
    ∷ only_if (not (str_eq location "")) (concat ("LOCATION '" ∷ location ∷ "'" ∷ []))
    ∷ [])

-- generateDropDatabaseSQL
unfoldable pub generate_drop_database_sql : String → Bool → Bool → String
generate_drop_database_sql db_name ignore_not_exists cascade = concat (
    "DROP DATABASE"
    ∷ newline
    ∷ only_if ignore_not_exists "IF EXISTS"
    ∷ newline
    ∷ db_name
    ∷ newline
    ∷ only_if cascade "CASCADE"
    ∷ [])

module _ (to_lower : String → String) where
  -- AddPartition
  unfoldable pub add_partition_sql : String → List Column → Partition → String
  add_partition_sql table_name columns p = concat (
      "ALTER TABLE "
      ∷ table_name
      ∷ " ADD IF NOT EXISTS PARTITION ("
      ∷ fmt_partition_spec to_lower columns p.partition_spec
      ∷ ") "
      ∷ only_if (not (str_eq p.location "")) ("LOCATION " <> p.location)
      ∷ [])

  -- DropPartition
  unfoldable pub drop_partition_sql : String → List Column → Partition → String
  drop_partition_sql table_name columns p = concat (
      "ALTER TABLE "
      ∷ table_name
      ∷ " DROP IF EXISTS PARTITION ("
      ∷ fmt_partition_spec to_lower columns p.partition_spec
      ∷ ")"
      ∷ [])

  -- HiveManager, on what executes a statement
  unfoldable pub hive_manager :
      {W : Type 0} → (String → W → Option String × W) → String → List Column → PartitionManager W
  hive_manager exec table_name columns = record {
    add_partition = λ p. exec (add_partition_sql table_name columns p);
    drop_partition = λ p. exec (drop_partition_sql table_name columns p);
  }
