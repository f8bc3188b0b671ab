-- ===== src/Prom/Import.antt =====
-- `ImportFromTimeRange` of pkg/operator/prestostore/query.go and `promMatrixToPrometheusMetrics` of
-- importer.go. What is called outside of the component (the Prometheus API, the store, the context)
-- is the parameter `Env`, over a world that its calls change. Logging and the histograms of
-- durations are left out; the counters and the gauge are kept.
pub mod Accounting
use operator_metering.Prelude.{
  ℕ, zero, suc, ◌+◌, ◌-◌, String, Bool, true, false, ◌&&◌, not, Option, none, some, List, [], ◌∷◌,
  ◌++◌, map, ltb, ◌==◌, if◌then◌else◌, length, is_empty,
}
use operator_metering.Prelude.Sort.{sort_by}
use operator_metering.Prom.Chunks.{Time, Duration, Range, Chunking, Int64, get_time_ranges_chunked}

-- PrometheusMetric. The amount is the pattern of the float64, which is only copied here.
pub record Metric : Type 0 where
  pub labels : List (String × String)
  pub amount : ℕ
  pub step_size : Duration
  pub timestamp : Time

-- model.SampleStream with its model.SamplePair
pub record Sample : Type 0 where
  pub time : Time
  pub value : ℕ

pub record SampleStream : Type 0 where
  pub labels : List (String × String)
  pub values : List Sample

-- What `QueryRange` returns: an error, a matrix, or a value of another type.
pub data Reply : Type 0 where
  failed : String → Reply
  matrix : List SampleStream → Reply
  not_matrix : String → Reply

-- Config
pub record Config : Type 0 where
  pub prometheus_query : String
  pub presto_table_name : String
  pub chunk_size : Duration
  pub step_size : Duration
  pub max_time_ranges : Int64
  pub max_query_range_duration : Duration
  pub import_from_time : Option Time
  pub max_backfill_import_duration : Duration

-- ImporterMetricsCollectors
pub record Collectors : Type 0 where
  pub total_imports : ℕ
  pub failed_imports : ℕ
  pub total_prometheus_queries : ℕ
  pub failed_prometheus_queries : ℕ
  pub total_presto_stores : ℕ
  pub failed_presto_stores : ℕ
  pub metrics_scraped : ℕ
  pub metrics_imported : ℕ
  pub imports_running : ℕ

-- PrometheusImportResults
pub record Results : Type 0 where
  pub processed_time_ranges : List Range
  pub metrics : List Metric

pub data ImportError : Type 0 where
  cancelled : ImportError
  query_failed : String → ImportError
  expected_matrix : String → ImportError
  store_failed : String → ImportError
  no_last_timestamp : String → ImportError

-- prom.API, PrometheusMetricsStorer and the context: each call gives its result and the next world.
pub record Env (W : Type 0) : Type 0 where
  pub query_range : String → Range → W → Reply × W
  pub store_metrics : String → List Metric → W → Option String × W
  pub done : W → Bool × W

-- promMatrixToPrometheusMetrics
unfoldable pub stream_metrics : Range → SampleStream → List Sample → List Metric
stream_metrics r s [] = []
stream_metrics r s (v ∷ vs) =
    record { labels = s.labels; amount = v.value; step_size = r.step; timestamp = v.time }
    ∷ stream_metrics r s vs

unfoldable pub matrix_metrics : Range → List SampleStream → List Metric
unfolding stream_metrics
matrix_metrics r [] = []
matrix_metrics r (s ∷ ss) = stream_metrics r s s.values ++ matrix_metrics r ss

unfoldable pub by_time : List Metric → List Metric
unfolding sort_by
by_time = sort_by (λ m. m.timestamp)

-- The variables of the import that its loop changes.
pub record Progress (W : Type 0) : Type 0 where
  pub results : Results
  pub counters : Collectors
  pub world : W

abbrev pub Step : Type 0 → Type 0
Step W = Progress W × Option ImportError

module _ (cfg : Config) where
  -- `endTime` after the cut to MaxQueryRangeDuration; `endTime.Sub(startTime) > max` as a sum
  unfoldable pub limit_end : Time → Time → Time
  limit_end start_time end_time =
      if not (cfg.max_query_range_duration == 0)
        && ltb (start_time + cfg.max_query_range_duration) end_time
      then start_time + cfg.max_query_range_duration
      else end_time

  abbrev pub chunking : Time → Bool → Chunking
  chunking end_time allow = record {
    end_time = end_time;
    chunk_size = cfg.chunk_size;
    step_size = cfg.step_size;
    allow_incomplete = allow;
  }

module _ {W : Type 0} (env : Env W) (cfg : Config) where
  abbrev pub at_world : Progress W → W → Progress W
  at_world p w = record p { world = w }

  -- the range is appended to the processed ones
  abbrev pub processed : Range → Progress W → Progress W
  processed r p = record p {
    results = record {
      processed_time_ranges = p.results.processed_time_ranges ++ r ∷ [];
      metrics = p.results.metrics;
    };
  }

  unfoldable pub store_reply : Range → List Metric → Progress W → Option String → Step W
  store_reply r ms p (some e) =
      let c = p.counters in
      (
        record p {
          counters = record c {
            failed_imports = c.failed_imports + 1;
            failed_presto_stores = c.failed_presto_stores + 1;
          };
        },
        some (store_failed e),
      )
  store_reply r ms p none =
      let c = p.counters in
      let t = p.results in
      (
        processed r (record p {
          results = record t { metrics = t.metrics ++ ms };
          counters = record c { metrics_imported = c.metrics_imported + length ms };
        }),
        none,
      )

  -- `if numMetrics != 0`; the counter of the queries is incremented here, not that of the stores
  unfoldable pub store_chunk : Range → List Metric → Progress W → Step W
  unfolding store_reply
  store_chunk r [] p = (processed r p, none)
  store_chunk r (m ∷ ms) p =
      let sorted = by_time (m ∷ ms) in
      let c = p.counters in
      let (reply, w) = env.store_metrics cfg.presto_table_name sorted p.world in
      store_reply r sorted
        (record p {
          counters = record c { total_prometheus_queries = c.total_prometheus_queries + 1 };
          world = w;
        })
        reply

  -- from the reply of Prometheus to the end of the loop's body
  unfoldable pub handle_reply : Range → Progress W → Reply → Step W
  unfolding store_chunk
  handle_reply r p (failed e) =
      let c = p.counters in
      (
        record p {
          counters = record c {
            failed_imports = c.failed_imports + 1;
            failed_prometheus_queries = c.failed_prometheus_queries + 1;
          };
        },
        some (query_failed e),
      )
  handle_reply r p (not_matrix t) = (p, some (expected_matrix t))
  handle_reply r p (matrix ss) =
      let ms = matrix_metrics r ss in
      let c = p.counters in
      let p' : Progress W = record p {
        counters = record c { metrics_scraped = c.metrics_scraped + length ms };
      } in
      let (cancel, w) = env.done p'.world in
      let next = store_chunk r ms (at_world p' w) in
      if cancel then (at_world p' w, some cancelled) else next

  -- the body of `for _, timeRange := range timeRanges`
  unfoldable pub import_chunk : Range → Progress W → Step W
  unfolding handle_reply
  import_chunk r p =
      let (cancel, w) = env.done p.world in
      let (reply, w') = env.query_range cfg.prometheus_query r w in
      let c = p.counters in
      let queried : Progress W = record p {
        counters = record c { total_prometheus_queries = c.total_prometheus_queries + 1 };
        world = w';
      } in
      let next = handle_reply r queried reply in
      if cancel then (at_world p w, some cancelled) else next

  -- the loop: it returns at the first error
  abbrev pub or_next : Step W → (Progress W → Step W) → Step W
  or_next (p, some e) next = (p, some e)
  or_next (p, none) next = next p

  unfoldable pub import_chunks : List Range → Progress W → Step W
  unfolding import_chunk
  import_chunks [] p = (p, none)
  import_chunks (r ∷ rs) p = or_next (import_chunk r p) (import_chunks rs)

  abbrev pub no_results : Results
  no_results = record { processed_time_ranges = []; metrics = [] }

  -- the deferred function
  abbrev pub finish : Step W → Step W
  finish (p, e) =
      let c = p.counters in
      (record p { counters = record c { imports_running = c.imports_running - 1 } }, e)

  abbrev pub started : Collectors → Collectors
  started c = record c {
    imports_running = c.imports_running + 1;
    total_imports = c.total_imports + 1;
  }

  abbrev pub import_ranges : Collectors → W → Option (List Range) → Option (Step W)
  import_ranges c w none = none
  import_ranges c w (some rs) =
      some (
        finish
          (import_chunks rs (record { results = no_results; counters = started c; world = w })))

  -- `none` only if the loop that makes the time ranges does not end
  unfoldable pub import_from_time_range : Time → Time → Bool → Collectors → W → Option (Step W)
  import_from_time_range start_time end_time allow c w = import_ranges c w (
      get_time_ranges_chunked start_time (chunking cfg (limit_end cfg start_time end_time) allow)
        cfg.max_time_ranges)
