-- ===== src/Prom/Importer.antt =====
-- `PrometheusImporter` of pkg/operator/prestostore/importer.go: the importer remembers the end of the
-- last range that it imported. The lock is left out: each call is one step.
pub mod Resume
pub mod Runs
pub mod Keeps
use operator_metering.Prelude.{
  ℕ, ◌+◌, ◌-◌, String, Bool, Option, none, some, List, ltb, leb, if◌then◌else◌, last?,
}
use operator_metering.Prom.Chunks.{Time, Duration, Range}
use operator_metering.Prom.Import.{
  Config, Collectors, Results, ImportError, no_last_timestamp, Env, Progress, Step,
  import_from_time_range,
}

pub record Importer : Type 0 where
  pub cfg : Config
  pub last_timestamp : Option Time

-- NewPrometheusImporter
unfoldable pub new_prometheus_importer : Config → Importer
new_prometheus_importer cfg = record { cfg = cfg; last_timestamp = none }

-- UpdateConfig
unfoldable pub update_config : Importer → Config → Importer
update_config i cfg = record i { cfg = cfg }

-- The results and the error that a call returns, with what it leaves behind.
pub record Outcome (W : Type 0) : Type 0 where
  pub importer : Importer
  pub results : Option Results
  pub error : Option ImportError
  pub counters : Collectors
  pub world : W

-- What `GetLastTimestampForTable` returns.
pub data LastTimestamp : Type 0 where
  found : Option Time → LastTimestamp
  lookup_failed : String → LastTimestamp

-- `startTime` of a run, from the last timestamp if there is one. Instants before the zero time are
-- not represented: a backfill from before it starts there.
unfoldable pub start_time_of : Config → Option Time → Time → Time
start_time_of cfg (some last) now = last + cfg.step_size
start_time_of cfg none now = elim cfg.import_from_time [
  | some t ↦ t
  | none ↦ now - cfg.max_backfill_import_duration
]

-- `totalChunkDuration := startTime.Sub(endTime)`; the test on it as a sum.
unfoldable pub end_time_of : Config → Time → Time → Time
end_time_of cfg start_time now =
    if leb (now + cfg.max_query_range_duration) start_time
    then start_time + cfg.max_query_range_duration
    else now

abbrev pub end_of : Option Range → Option Time → Option Time
end_of (some r) last = some r.end
end_of none last = last

module _ {W : Type 0} where
  abbrev pub no_import : Importer → Collectors → W → Outcome W
  no_import i c w = record {
    importer = i;
    results = some (record { processed_time_ranges = List.[]; metrics = List.[] });
    error = none;
    counters = c;
    world = w;
  }

  -- after `ImportFromTimeRange`: an error makes the importer forget the last timestamp
  unfoldable pub remember : Importer → Step W → Outcome W
  remember i (p, some e) = record {
    importer = record i { last_timestamp = none };
    results = some p.results;
    error = some e;
    counters = p.counters;
    world = p.world;
  }
  remember i (p, none) = record {
    importer = record i {
      last_timestamp = end_of (last? p.results.processed_time_ranges) i.last_timestamp;
    };
    results = some p.results;
    error = none;
    counters = p.counters;
    world = p.world;
  }

  abbrev pub remember? : Importer → Option (Step W) → Option (Outcome W)
  remember? i none = none
  remember? i (some s) = some (remember i s)

module _ {W : Type 0} (env : Env W) where
  -- from the start time on; `none` only if the chunking does not end
  unfoldable pub import_from : Importer → Time → Bool → Collectors → W → Option (Outcome W)
  import_from i now allow c w =
      let start_time = start_time_of i.cfg i.last_timestamp now in
      let run =
        import_from_time_range env i.cfg start_time (end_time_of i.cfg start_time now) allow c w in
      if ltb now start_time then some (no_import i c w) else remember? i run

module _ {W : Type 0} (env : Env W) (get_last : String → W → LastTimestamp × W) where
  abbrev pub looked_up :
      Importer → Time → Bool → Collectors → LastTimestamp × W → Option (Outcome W)
  looked_up i now allow c (lookup_failed e, w) = some (record {
    importer = record i { last_timestamp = none };
    results = none;
    error = some (no_last_timestamp e);
    counters = c;
    world = w;
  })
  looked_up i now allow c (found t, w) =
      import_from env (record i { last_timestamp = t }) now allow c w

  abbrev pub from_timestamp :
      Importer → Time → Bool → Collectors → W → Option Time → Option (Outcome W)
  from_timestamp i now allow c w (some t) = import_from env i now allow c w
  from_timestamp i now allow c w none = looked_up i now allow c (get_last i.cfg.presto_table_name w)

  -- `now` is what the clock says when the call begins.
  unfoldable pub import_from_last_timestamp :
      Importer → Time → Bool → Collectors → W → Option (Outcome W)
  import_from_last_timestamp i now allow c w = from_timestamp i now allow c w i.last_timestamp
