-- ===== src/MetricStore.antt =====
-- `StorePrometheusMetricsWithBuffer` of pkg/operator/prestostore/prometheusmetric.go and
-- `FormatInsertQuery` of pkg/presto/util.go. Text is a list of bytes. The text of a metric, which
-- `generatePrometheusMetricSQLValues` makes, is a parameter, and so are the database and the context.
pub mod Batches
pub mod Stored
pub mod Read
use operator_metering.Prelude.{
  ℕ, ◌+◌, Bool, true, false, ◌&&◌, Option, none, some, List, [], ◌∷◌, ◌++◌, String, ltb,
  if◌then◌else◌, length, is_empty,
}
use Prim.Native.Char.{code}
use Prim.Native.String

abbrev pub Bytes : Type 0
Bytes = List ℕ

abbrev pub bytes : String → Bytes
bytes String.[] = []
bytes (String.◌∷◌ c s) = code c ∷ bytes s

-- FormatInsertQuery
unfoldable pub format_insert_query : Bytes → Bytes → Bytes
format_insert_query target query = bytes "INSERT INTO " ++ (target ++ (bytes " " ++ query))

pub data StoreError : Type 0 where
  cancelled : StoreError
  insert_failed : String → StoreError
  exceeds_buffer : Bytes → StoreError

-- The database and the context: each call gives its result and the next world.
pub record Db (W : Type 0) : Type 0 where
  pub insert : Bytes → W → Option String × W
  pub done : W → Bool × W

-- The buffer, whether it holds metrics, the statements that were executed so far, and the world.
pub record Buffer (W : Type 0) : Type 0 where
  pub text : Bytes
  pub metrics_in_buffer : Bool
  pub executed : List Bytes
  pub world : W

abbrev pub Step : Type 0 → Type 0
Step W = Buffer W × Option StoreError

module _ {W M : Type 0} (db : Db W) (sql : M → Bytes) (table_name : Bytes) (capacity : ℕ) where
  -- `n > queryCap`, where queryCap is the capacity less the length of the statement's beginning
  unfoldable pub exceeds : ℕ → Bool
  exceeds n = ltb capacity (n + length (format_insert_query table_name []))

  -- InsertInto of the buffer's text, and the reset of the buffer
  abbrev pub inserted : Buffer W → Option String × W → Step W
  inserted b (some e, w) = (record b { world = w }, some (insert_failed e))
  inserted b (none, w) = (
    record b {
      text = [];
      metrics_in_buffer = false;
      executed = b.executed ++ format_insert_query table_name b.text ∷ [];
      world = w;
    },
    none,
  )

  unfoldable pub insert_into : Buffer W → Step W
  insert_into b = inserted b (db.insert (format_insert_query table_name b.text) b.world)

  abbrev pub or_next : Step W → (Buffer W → Step W) → Step W
  or_next (b, some e) next = (b, some e)
  or_next (b, none) next = next b

  -- the first half of the loop's body: the flush, if the metric does not fit behind the others
  unfoldable pub flush_if_full : Bytes → Buffer W → Step W
  flush_if_full text b =
      if b.metrics_in_buffer && exceeds (length (bytes "," ++ text) + length b.text)
      then insert_into b
      else (b, none)

  abbrev pub to_write : Bool → Bytes → Bytes
  to_write true text = bytes "," ++ text
  to_write false text = bytes "VALUES " ++ text

  -- the second half: the write, refused if it does not fit
  unfoldable pub write_metric : Bytes → Buffer W → Step W
  write_metric text b =
      if exceeds (length (to_write b.metrics_in_buffer text) + length b.text)
      then (b, some (exceeds_buffer (to_write b.metrics_in_buffer text)))
      else (
        record b { text = b.text ++ to_write b.metrics_in_buffer text; metrics_in_buffer = true },
        none,
      )

  -- `select` on the context; then the metric is written, after a flush where there is no room
  unfoldable pub store_metric : M → Buffer W → Step W
  store_metric m b =
      let (cancel, w) = db.done b.world in
      let b' : Buffer W = record b { world = w } in
      let next = or_next (flush_if_full (sql m) b') (write_metric (sql m)) in
      if cancel then (b', some cancelled) else next

  -- the loop; after the last metric what the buffer holds is inserted
  unfoldable pub store_metrics : List M → Buffer W → Step W
  store_metrics [] b = (b, none)
  store_metrics (m ∷ []) b = or_next (store_metric m b) insert_into
  store_metrics (m ∷ (n ∷ ms)) b = or_next (store_metric m b) (store_metrics (n ∷ ms))

  -- StorePrometheusMetricsWithBuffer, on a buffer that was reset
  unfoldable pub store_prometheus_metrics_with_buffer : List M → W → Step W
  store_prometheus_metrics_with_buffer ms w =
      store_metrics ms (record { text = []; metrics_in_buffer = false; executed = []; world = w })
