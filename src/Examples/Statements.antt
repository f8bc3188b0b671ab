-- ===== src/Examples/Statements.antt =====
-- Statements for Hive and Presto as they are executed (pkg/hive/query.go, pkg/operator/reporting/db.go, pkg/presto/util.go).
use operator_metering.Kube.{ok}
use operator_metering.Prom.Chunks.{second}
use operator_metering.MetricStore.Read.{Formats, StoredMetric, metrics_of_rows, where_clause}
use operator_metering.MetricStore.Read.Roundtrip.{row_of, metrics_of_rows-row_of}
use operator_metering.Report.Generator.{generate_report, Sends, generate_report-Sends}
use operator_metering.Prelude.{◌*◌, ◌/◌, String, Option, none, List, map, ◌≡◌, refl, true, [], ◌∷◌}
use operator_metering.Columns.{panics, hive_column_to_presto_column, hive_type_to_presto}
use operator_metering.Hive.Partitions.{fmt_partition_spec}
use operator_metering.Sql.HiveQuery.{generate_create_database_sql, add_partition_sql}
use operator_metering.Sql.PrestoQuery.{
  generate_presto_table_sql, qualified_name, generate_column_definition_list_sql,
}

-- A database without a location is created without IF NOT EXISTS, although that was asked for.
no_if_not_exists : generate_create_database_sql "metering" "" true ≡ "CREATE DATABASE\n\nmetering\n"
unfolding generate_create_database_sql
no_if_not_exists = refl

-- The location of a partition has no quotes.
bare_location :
    add_partition_sql
      (λ s. s)
      "usage"
      (record { name = "day"; type = "string" } ∷ [])
      (record { location = "s3a://b/"; partition_spec = ("day", "1") ∷ [] })
    ≡ "ALTER TABLE usage ADD IF NOT EXISTS PARTITION (`day`=`1`) LOCATION s3a://b/"
unfolding add_partition_sql fmt_partition_spec
bare_location = refl

-- The statement that creates a table ends in the text of a missing argument.
missing_comment :
    generate_presto_table_sql "hive" "metering" "usage"
      (record { name = "amount"; type = "DOUBLE" } ∷ [])
      ""
      []
      true
    ≡ "CREATE TABLE IF NOT EXISTS\nhive.metering.usage (\n\t`amount` DOUBLE\n)\n\n%!s(MISSING)"
unfolding generate_presto_table_sql qualified_name generate_column_definition_list_sql
missing_comment = refl

-- A Hive type with a '>' before its '<' makes the conversion slice from behind its end: it panics.
reversed_brackets :
    hive_column_to_presto_column (record { name = "c"; type = "MAP>STRING,STRING<x" }) ≡ panics
unfolding hive_column_to_presto_column hive_type_to_presto
reversed_brackets = refl

-- The world is the statements that were sent; Presto takes them all.
abbrev send : String → List String → Option String × List String
send s w = (none, s ∷ w)

generate_report-Sends_example :
    Sends send
      (λ w. w)
      (λ s w. refl)
      "hive.metering.usage"
      "SELECT 1"
      []
      true
      (generate_report send "hive.metering.usage" "SELECT 1" true []).0
      (generate_report send "hive.metering.usage" "SELECT 1" true []).1
generate_report-Sends_example =
    generate_report-Sends send (λ w. w) (λ s w. refl) "hive.metering.usage" "SELECT 1" true []

-- A precision is the count of seconds.
abbrev formats : Formats
formats = record {
  amount = λ n. "1.000000";
  seconds = λ n. "60.000000";
  timestamp = λ n. "2019-01-01 00:00:00.000";
  day = λ n. "2019-01-01";
  whole = λ n. n;
}

abbrev stored : StoredMetric
stored = record {
  labels = ("pod", "web") ∷ [];
  amount = 1;
  step_size = 60 * second;
  timestamp = 0;
  dt = "2019-01-01";
}

metrics_of_rows-row_of_example :
    metrics_of_rows formats (map (row_of (λ d. d / second)) (stored ∷ [])) ≡ ok (stored ∷ [])
metrics_of_rows-row_of_example =
    metrics_of_rows-row_of formats (λ d. d / second) (stored ∷ []) (refl, tt)

-- With no start the clause has two spaces before its keyword.
from_the_start :
    where_clause formats 0 1 ≡ " WHERE \"timestamp\" <= timestamp '2019-01-01 00:00:00.000'"
unfolding where_clause
from_the_start = refl
