-- ===== src/Examples/Imports.antt =====
-- Runs of the importer and of the store for concrete replies (pkg/operator/prestostore).
use operator_metering.Prelude.{
  inl, ℕ, ◌+◌, ◌*◌, ◌<◌, ◌≡◌, refl, true, false, Option, none, some, [], ◌∷◌, arith, All, String,
}
use operator_metering.Prom.Chunks.{minute, Range, pos, get_time_ranges_chunked}
use operator_metering.Prom.Import.{
  matrix, Config, Collectors, ImportError, Env, Progress, import_from_time_range, limit_end,
  chunking, import_chunks, matrix_metrics,
}
use operator_metering.Prom.Import.Accounting.{Accounts, import-Accounts}
use operator_metering.Prom.Importer.{
  Importer, Outcome, LastTimestamp, found, import_from, start_time_of, remember, end_time_of,
  import_from_last_timestamp,
}
use operator_metering.Prom.Importer.Runs.{Ends, import-Ends}
use operator_metering.Prom.Importer.Resume.{IsRun, import-IsRun, next_run_starts_after}
use operator_metering.MetricStore.{Bytes, bytes, Db, store_prometheus_metrics_with_buffer}
use operator_metering.MetricStore.Stored.{Stored, store-Stored}

-- Prometheus answers with one sample at the start of the range; the store takes it. The world counts
-- the queries.
abbrev one_sample : Env ℕ
one_sample = record {
  query_range = λ q r w. (
    matrix (record { labels = []; values = record { time = r.start; value = 1 } ∷ [] } ∷ []),
    w + 1,
  );
  store_metrics = λ t ms w. (none, w);
  done = λ w. (false, w);
}

abbrev no_timestamp : String → ℕ → LastTimestamp × ℕ
no_timestamp t w = (found none, w)

abbrev pub config : Config
config = record {
  prometheus_query = "up";
  presto_table_name = "datasource_up";
  chunk_size = 5 * minute;
  step_size = minute;
  max_time_ranges = pos 0;
  max_query_range_duration = 0;
  import_from_time = some 0;
  max_backfill_import_duration = 0;
}

abbrev pub no_counts : Collectors
no_counts = record {
  total_imports = 0;
  failed_imports = 0;
  total_prometheus_queries = 0;
  failed_prometheus_queries = 0;
  total_presto_stores = 0;
  failed_presto_stores = 0;
  metrics_scraped = 0;
  metrics_imported = 0;
  imports_running = 0;
}

abbrev fresh : Importer
fresh = record { cfg = config; last_timestamp = none }

-- The first run goes up to minute ten, the second one up to minute thirteen.
next_run_starts_after_example :
    All
      (λ (r : Range). 10 * minute < r.start)
      (record { start = 11 * minute; end = 13 * minute; step = minute } ∷ [])
unfolding import_from_last_timestamp import_from start_time_of import_from_time_range
    get_time_ranges_chunked limit_end end_time_of remember import_chunks matrix_metrics
next_run_starts_after_example =
    next_run_starts_after one_sample no_timestamp fresh (10 * minute) (13 * minute) true no_counts
      no_counts 0 0 _ _ _ _ _ (omega arith) refl refl refl refl refl refl

import-IsRun_example : (o : Outcome ℕ) × IsRun config (some 0) (10 * minute) o
unfolding import_from_last_timestamp import_from start_time_of import_from_time_range
    get_time_ranges_chunked limit_end end_time_of
import-IsRun_example = (
  _,
  import-IsRun one_sample no_timestamp (record fresh { last_timestamp = some 0 }) (10 * minute) true
      no_counts 0 _ refl,
)

import-Accounts_example :
    (s : Progress ℕ × Option ImportError) × (import_from_time_range one_sample config 0
        (10 * minute)
        true
        no_counts
        0
      ≡ some s)
    × Accounts one_sample config no_counts
        (get_time_ranges_chunked 0
          (chunking config (limit_end config 0 (10 * minute)) true)
          (pos 0))
        s
unfolding import_from_time_range get_time_ranges_chunked limit_end import_chunks matrix_metrics
import-Accounts_example =
    (_, refl, import-Accounts one_sample config 0 (10 * minute) true no_counts 0 _ refl)

-- A database that counts the statements, and a buffer that has room for two of the three rows.
abbrev counting : Db ℕ
counting = record { insert = λ q w. (none, w + 1); done = λ w. (false, w) }

abbrev row : ℕ → Bytes
row n = 40 ∷ n ∷ 41 ∷ []

store-Stored_example :
    Stored counting row
      (bytes "t")
      31
      (49 ∷ 50 ∷ 51 ∷ [])
      (store_prometheus_metrics_with_buffer counting row (bytes "t") 31 (49 ∷ 50 ∷ 51 ∷ []) 0)
store-Stored_example = store-Stored counting row (bytes "t") 31 (49 ∷ 50 ∷ 51 ∷ []) 0

import-Ends_example :
    Ends one_sample
      (import_from_last_timestamp one_sample no_timestamp fresh (10 * minute) true no_counts 0)
import-Ends_example =
    import-Ends one_sample no_timestamp fresh (10 * minute) true no_counts 0 (inl (omega arith))
