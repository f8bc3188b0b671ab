-- ===== src/MetricStore/Read.antt =====
-- Metrics as they are read: `GetPrometheusMetrics`, `GetLastTimestampForTable` and the text of a metric,
-- `generatePrometheusMetricSQLValues`, of pkg/operator/prestostore/prometheusmetric.go. The formats of Go's fmt and time
-- packages are the record `Formats`; a select of Presto is a call.
pub mod Roundtrip
use operator_metering.Prelude.{
  ℕ, ◌*◌, String, ◌<>◌, ◌==◌, Bool, Option, none, some, List, [], ◌∷◌, map, join, str_eq,
  if◌then◌else◌,
}
use operator_metering.Prom.Chunks.{Time, Duration, second}
use operator_metering.Prom.Import.{Metric}
use operator_metering.Kube.{invalid, panicked, Result, ok, err, Act, ◌>>=◌}
use operator_metering.Columns.{Column}
use operator_metering.Sql.PrestoQuery.{generate_get_rows_sql_with_where}

-- `%f` of an amount and of the seconds of a duration, `presto.TimestampFormat` and the format of a day; the whole seconds
-- of a float64.
pub record Formats : Type 0 where
  pub amount : ℕ → String
  pub seconds : Duration → String
  pub timestamp : Time → String
  pub day : Time → String
  pub whole : ℕ → ℕ

-- The values that a row of Presto has, by their Go types; a float64 is its pattern.
pub data Value : Type 0 where
  float_value : ℕ → Value
  text_value : String → Value
  time_value : Time → Value
  map_value : List (String × Option String) → Value
  other_value : Value

abbrev pub Row : Type 0
Row = List (String × Value)

-- A metric as it is read.
pub record StoredMetric : Type 0 where
  pub labels : List (String × String)
  pub amount : ℕ
  pub step_size : Duration
  pub timestamp : Time
  pub dt : String

-- `row[name]`
abbrev pub column : String → Row → Option Value
column name [] = none
column name ((k, v) ∷ row) = let rest = column name row in if str_eq k name then some v else rest

-- The type assertions panic for a value of another type, and for a column that is not there.
abbrev pub as_float : Option Value → Result ℕ
as_float (some (float_value a)) = ok a
as_float _ = err (panicked "interface conversion")

abbrev pub as_text : Option Value → Result String
as_text (some (text_value s)) = ok s
as_text _ = err (panicked "interface conversion")

abbrev pub as_time : Option Value → Result Time
as_time (some (time_value t)) = ok t
as_time _ = err (panicked "interface conversion")

abbrev pub as_map : Option Value → Result (List (String × Option String))
as_map (some (map_value m)) = ok m
as_map _ = err (panicked "interface conversion")

infixl 10 ◌and◌
abbrev pub ◌and◌ : {A B : Type 0} → Result A → (A → Result B) → Result B
err e and f = err e
ok a and f = f a

abbrev pub with_label :
    String × String → Result (List (String × String)) → Result (List (String × String))
with_label l (err e) = err e
with_label l (ok ls) = ok (l ∷ ls)

-- the loop over the labels: a value that is no string is an error
unfoldable pub labels_of_row : List (String × Option String) → Result (List (String × String))
labels_of_row [] = ok []
labels_of_row ((k, none) ∷ ls) = err (invalid "invalid label")
labels_of_row ((k, some v) ∷ ls) = with_label (k, v) (labels_of_row ls)

module _ (formats : Formats) where
  -- the body of the loop over the rows
  unfoldable pub metric_of_row : Row → Result StoredMetric
  metric_of_row row = as_map (column "labels" row) and λ labels.
      as_float (column "amount" row) and λ amount.
      as_float (column "timePrecision" row) and λ precision.
      as_time (column "timestamp" row) and λ timestamp. as_text (column "dt" row) and λ dt.
      labels_of_row labels and λ ls. ok (record {
        labels = ls;
        amount = amount;
        step_size = formats.whole precision * second;
        timestamp = timestamp;
        dt = dt;
      })

  unfoldable pub metrics_of_rows : List Row → Result (List StoredMetric)
  metrics_of_rows [] = ok []
  metrics_of_rows (r ∷ rs) = metric_of_row r and λ m. metrics_of_rows rs and λ ms. ok (m ∷ ms)

  -- The clause of `GetPrometheusMetrics`; the zero time stands for no bound.
  unfoldable pub where_clause : Time → Time → String
  where_clause start end =
      let from =
        (if start == 0
          then ""
          else "WHERE \"timestamp\" >= timestamp '" <> (formats.timestamp start <> "' ")) in
      let link = (if start == 0 then " WHERE " else " AND ") in
      if end == 0
      then from
      else from <> (link <> ("\"timestamp\" <= timestamp '" <> (formats.timestamp end <> "'")))

  -- generatePrometheusMetricSQLValues, for the labels in the order of the list
  unfoldable pub generate_prometheus_metric_sql_values : Metric → String
  generate_prometheus_metric_sql_values m =
      let quoted : List String → String =
        λ ss. "ARRAY[" <> (join "," (map (λ s. "'" <> (s <> "'")) ss) <> "]") in
      "("
      <> (formats.amount m.amount
          <> (",timestamp '"
              <> (formats.timestamp m.timestamp
                  <> ("',"
                      <> (formats.seconds m.step_size
                          <> (",map("
                              <> (quoted (map (λ l. l.0) m.labels)
                                  <> (","
                                      <> (quoted (map (λ l. l.1) m.labels)
                                          <> ("),'" <> (formats.day m.timestamp <> "')")))))))))))

-- `presto.ExecuteSelect`, and what `GenerateGetRowsSQLWithWhere` uses; `columns` are those that `init` makes of the Hive columns.
module _ {W : Type 0} (formats : Formats) (select : String → Act W (List Row))
    (to_lower : String → String) (index : String → String → Option ℕ) (columns : List Column) where
  abbrev pub decoded : List Row → Act W (List StoredMetric)
  decoded rows w = (metrics_of_rows formats rows, w)

  -- GetPrometheusMetrics
  unfoldable pub get_prometheus_metrics : String → Time → Time → Act W (List StoredMetric)
  get_prometheus_metrics table_name start end =
      select (
        generate_get_rows_sql_with_where to_lower index table_name columns
          (where_clause formats start end))
      >>= decoded

  abbrev pub first_timestamp : List Row → Act W (Option Time)
  first_timestamp [] w = (ok none, w)
  first_timestamp (r ∷ rs) w = ((as_time (column "timestamp" r) and λ t. ok (some t)), w)

  -- GetLastTimestampForTable
  unfoldable pub get_last_timestamp_for_table : String → Act W (Option Time)
  get_last_timestamp_for_table table_name =
      select (
        "\n\t\t\t\tSELECT \"timestamp\"\n\t\t\t\tFROM "
        <> (table_name <> "\n\t\t\t\tORDER BY \"timestamp\" DESC\n\t\t\t\tLIMIT 1"))
      >>= first_timestamp
