-- ===== src/DataSource/Config/Bounds.antt =====
-- When `newPromImporterCfg` (pkg/operator/promsum.go) gives a configuration, and what bounds the imports that run with it.
use operator_metering.Prelude.{
  ℕ, zero, suc, ◌+◌, ◌*◌, ◌/◌, ◌%◌, ◌≤◌, ◌<◌, String, ◌≡◌, ◌≢◌, ◌↔◌, refl, ◌⊎◌, inl, inr, Bool,
  Option, none, arith, sym, ap, ◌∙◌,
}
use native.Mathlib.Omega.{div_fact, mod_fact}
use operator_metering.Prom.Chunks.{Time, Duration, second, minute, pos, rounds}
use operator_metering.Prom.Import.{Config, Collectors, Env}
use operator_metering.Prom.Importer.{LastTimestamp, import_from_last_timestamp}
use operator_metering.Prom.Importer.Runs.{IsBounded, Ends, import-Ends}
use operator_metering.Kube.{panicked, Result, ok, err, ok-injective}
use operator_metering.Hive.Tables.{PrestoTable}
use operator_metering.Report.Run.Table.{fully_qualified_table_name}
use operator_metering.DataSource.{MetricsImporter}
use operator_metering.DataSource.Config.{
  OperatorConfig, overriding, whole_seconds, chunk_size_of, default_max_prom_time_ranges,
  config_with, new_prom_importer_cfg, IsTooShort,
}

rounds-pos : (n : ℕ) → 0 < n → rounds (pos n) ≢ none
unfolding rounds
rounds-pos zero h e = omega (arith, h)
rounds-pos (suc n) h e = cc

quotient-pos : (a c q r : ℕ) → suc c * q + r ≡ a → r < suc c → suc c ≤ a → 0 < q
quotient-pos a c zero r e l h = omega (arith, e, l, h)
quotient-pos a c (suc q) r e l h = omega arith

division-pos : (a b : ℕ) → b ≢ 0 → b ≤ a → 0 < a / b
division-pos a zero n h = absurd (n refl)
division-pos a (suc c) n h =
    quotient-pos a c (a / suc c) (a % suc c) (div_fact a c) (mod_fact a c) h

whole-zero : (d : Duration) → (whole_seconds d ≡ 0) ↔ (d < second)
whole-zero d = (λ h. omega (arith, h), λ h. omega (arith, h))

whole-seconds :
    (d : Duration)
    → whole_seconds d ≢ 0
    → (second ≤ whole_seconds d) × (whole_seconds d % second ≡ 0)
whole-seconds d n = (omega (arith, n), omega arith)

module _ (op : OperatorConfig) where
  ranges-ok :
      (chunk k : ℕ)
      → default_max_prom_time_ranges op chunk ≡ ok k
      → (chunk ≢ 0) × (k ≡ op.max_query_range_duration / chunk)
  ranges-ok zero k h = cc
  ranges-ok (suc c) k h = (λ z. omega (arith, z), sym (ok-injective _ k h))

  config_with-ok :
      (m : MetricsImporter) (r : Result ℕ) (name : Result String) (cfg : Config)
      → config_with op m r name ≡ ok cfg
      → (k : ℕ) × ((r ≡ ok k)
          × ((cfg.max_time_ranges ≡ pos k) × (cfg.chunk_size ≡ chunk_size_of op m)))
  config_with-ok m (err e) name cfg h = cc
  config_with-ok m (ok k) (err e) cfg h = cc
  config_with-ok m (ok k) (ok name) cfg h =
      let e = sym (ok-injective _ cfg h) in
      (k, (refl, (ap (λ (c : Config). c.max_time_ranges) e, ap (λ (c : Config). c.chunk_size) e)))

  bounded :
      (cfg : Config) (chunk k : ℕ)
      → cfg.max_time_ranges ≡ pos k
      → cfg.chunk_size ≡ chunk
      → (chunk ≢ 0) × (k ≡ op.max_query_range_duration / chunk)
      → (minute ≤ chunk) ⊎ (chunk ≤ op.max_query_range_duration)
      → IsBounded cfg
  bounded cfg chunk k r c q (inl h) = inl (omega (arith, c, h))
  bounded cfg chunk k r c q (inr h) =
      let long = rounds-pos k (omega (arith, q.1, division-pos _ chunk q.0 h)) in
      inr (λ e. long (ap rounds (sym r) ∙ e))

  -- A configuration that is made has a chunk size of whole seconds, a second at least; with a chunk size of a minute or more,
  -- or of no more than the longest query range, it bounds the time ranges of an import.
  pub config-IsBounded :
      (m : MetricsImporter) (t : PrestoTable) (cfg : Config)
      → new_prom_importer_cfg op m t ≡ ok cfg
      → (minute ≤ chunk_size_of op m) ⊎ (chunk_size_of op m ≤ op.max_query_range_duration)
      → (second ≤ cfg.chunk_size) × ((cfg.chunk_size % second ≡ 0) × IsBounded cfg)
  unfolding new_prom_importer_cfg chunk_size_of
  config-IsBounded m t cfg h long =
      let (k, (r, (n, c))) = config_with-ok m _ _ cfg h in
      let q = ranges-ok _ k r in
      let (l, z) =
        whole-seconds (overriding (λ p. p.chunk_size) op.chunk_size m.query_config) q.0 in
      (omega (arith, c, l), (omega (arith, c, z), bounded cfg _ k n c q long))

  -- If a configuration is made from a data source whose chunk size, in whole seconds, is a minute or more, or no more than the longest query
  -- range, then every call of `ImportFromLastTimestamp` of an importer with it ends with an outcome, from
  -- whatever timestamp, at whatever time, and whatever is answered.
  pub config-Ends :
      (m : MetricsImporter) (t : PrestoTable) (cfg : Config)
      → new_prom_importer_cfg op m t ≡ ok cfg
      → (minute ≤ chunk_size_of op m) ⊎ (chunk_size_of op m ≤ op.max_query_range_duration)
      → {W : Type 0} (env : Env W) (get_last : String → W → LastTimestamp × W) (last : Option Time)
        (now : Time) (allow : Bool) (c : Collectors) (w : W)
      → Ends env (
          import_from_last_timestamp env get_last
            (record { cfg = cfg; last_timestamp = last })
            now
            allow
            c
            w)
  config-Ends m t cfg h long env get_last last now allow c w =
      import-Ends env get_last (record { cfg = cfg; last_timestamp = last }) now allow c w
        (config-IsBounded m t cfg h long).1.1

  -- A chunk size below a second panics, whatever the table.
  pub config-panics :
      (m : MetricsImporter) (t : PrestoTable)
      → IsTooShort op m
      → new_prom_importer_cfg op m t ≡ err (panicked "integer divide by zero")
  unfolding new_prom_importer_cfg chunk_size_of
  config-panics m t h =
      ap (λ c. config_with op m (default_max_prom_time_ranges op c) (fully_qualified_table_name t))
        ((whole-zero _).1 h)
