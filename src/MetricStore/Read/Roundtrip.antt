-- ===== src/MetricStore/Read/Roundtrip.antt =====
-- Metrics that are stored and read again (pkg/operator/prestostore/prometheusmetric.go).
use operator_metering.Prelude.{ℕ, ◌*◌, String, ◌≡◌, refl, ap, ◌∙◌, some, List, [], ◌∷◌, map, All}
use operator_metering.Prom.Chunks.{Duration, second}
use operator_metering.Kube.{ok}
use operator_metering.MetricStore.Read.{
  Formats, float_value, text_value, time_value, map_value, Row, StoredMetric, ◌and◌, with_label,
  labels_of_row, metric_of_row, metrics_of_rows,
}

-- The row of a metric by the columns of its table; `precision` gives the float64 of a duration in seconds.
abbrev pub row_of : (Duration → ℕ) → StoredMetric → Row
row_of precision m =
    ("amount", float_value m.amount)
    ∷ ("timestamp", time_value m.timestamp)
    ∷ ("timePrecision", float_value (precision m.step_size))
    ∷ ("labels", map_value (map (λ (l : String × String). (l.0, some l.1)) m.labels))
    ∷ ("dt", text_value m.dt)
    ∷ []

labels-read :
    (ls : List (String × String))
    → labels_of_row (map (λ (l : String × String). (l.0, some l.1)) ls) ≡ ok ls
unfolding labels_of_row
labels-read [] = refl
labels-read ((k, v) ∷ ls) = ap (with_label (k, v)) (labels-read ls)

module _ (formats : Formats) (precision : Duration → ℕ) where
  -- The step of the metric is found again from its seconds.
  abbrev pub IsExact : StoredMetric → Type 0
  IsExact m = formats.whole (precision m.step_size) * second ≡ m.step_size

  metric-read : (m : StoredMetric) → IsExact m → metric_of_row formats (row_of precision m) ≡ ok m
  unfolding metric_of_row
  metric-read m e =
      ap
        (λ ls. ls and λ l.
          ok (record m { labels = l; step_size = formats.whole (precision m.step_size) * second }))
        (labels-read m.labels)
      ∙ ap (λ s. ok (record m { step_size = s })) e

  -- The rows of metrics whose steps are found again from their seconds are read as these metrics, in order.
  pub metrics_of_rows-row_of :
      (ms : List StoredMetric)
      → All IsExact ms
      → metrics_of_rows formats (map (row_of precision) ms) ≡ ok ms
  unfolding metrics_of_rows
  metrics_of_rows-row_of [] h = refl
  metrics_of_rows-row_of (m ∷ ms) h =
      ap (λ r. r and λ x. metrics_of_rows formats (map (row_of precision) ms) and λ xs. ok (x ∷ xs))
        (metric-read m h.0)
      ∙ ap (λ r. r and λ xs. ok (m ∷ xs)) (metrics_of_rows-row_of ms h.1)
