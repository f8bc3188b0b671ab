-- ===== src/Prom/Importer/Runs.antt =====
-- A run of the importer (pkg/operator/prestostore/importer.go) comes to an end.
use operator_metering.Prelude.{
  ◌≤◌, ◌≡◌, ◌≢◌, ◌⊎◌, refl, ap, Bool, Option, none, some, List, ltb, inl, inr, String,
  if◌then◌else◌, true, false,
}
use operator_metering.Prom.Chunks.{Time, minute, Range, rounds}
use operator_metering.Prom.Chunks.Total.{Returns, ranges-Returns}
use operator_metering.Prom.Import.{
  Config, Collectors, Env, Step, import_ranges, chunking, limit_end, import_from_time_range,
}
use operator_metering.Prom.Importer.{
  Importer, Outcome, LastTimestamp, found, lookup_failed, import_from, looked_up, from_timestamp,
  remember?, start_time_of, end_time_of, import_from_last_timestamp,
}

-- There is a limit on the time ranges, or chunks are a minute or more.
abbrev pub IsBounded : Config → Type 0
IsBounded cfg = (minute ≤ cfg.chunk_size) ⊎ (rounds cfg.max_time_ranges ≢ none)

chunk_size-le :
    (cfg : Config) → IsBounded cfg → rounds cfg.max_time_ranges ≡ none → minute ≤ cfg.chunk_size
chunk_size-le cfg (inl h) e = h
chunk_size-le cfg (inr n) e = absurd (n e)

module _ {W : Type 0} (env : Env W) where
  abbrev pub Ends : Option (Outcome W) → Type 0
  Ends r = (o : Outcome W) × (r ≡ some o)

  ranges-Ends :
      (cfg : Config) (c : Collectors) (w : W) (rs : Option (List Range))
      → Returns rs
      → (s : Step W) × (import_ranges env cfg c w rs ≡ some s)
  ranges-Ends cfg c w none (rs, h) = cc
  ranges-Ends cfg c w (some rs) h = (_, refl)

  import_from_time_range-Ends :
      (cfg : Config) (start end : Time) (allow : Bool) (c : Collectors) (w : W)
      → IsBounded cfg
      → (s : Step W) × (import_from_time_range env cfg start end allow c w ≡ some s)
  unfolding import_from_time_range
  import_from_time_range-Ends cfg start end allow c w b = ranges-Ends cfg c w _ (
      ranges-Returns start (chunking cfg (limit_end cfg start end) allow) cfg.max_time_ranges
        (chunk_size-le cfg b))

  if-Ends : (b : Bool) (r s : Option (Outcome W)) → Ends r → Ends s → Ends (if b then r else s)
  if-Ends true r s h k = h
  if-Ends false r s h k = k

  import_from-Ends :
      (i : Importer) (now : Time) (allow : Bool) (c : Collectors) (w : W)
      → IsBounded i.cfg
      → Ends (import_from env i now allow c w)
  unfolding import_from
  import_from-Ends i now allow c w b =
      let s = start_time_of i.cfg i.last_timestamp now in
      let (run, h) = import_from_time_range-Ends i.cfg s (end_time_of i.cfg s now) allow c w b in
      if-Ends (ltb now s) _ _ (_, refl) (_, ap (λ r. remember? i r) h)

  module _ (get_last : String → W → LastTimestamp × W) where
    looked_up-Ends :
        (i : Importer) (now : Time) (allow : Bool) (c : Collectors) (reply : LastTimestamp × W)
        → IsBounded i.cfg
        → Ends (looked_up env get_last i now allow c reply)
    looked_up-Ends i now allow c (lookup_failed e, w) b = (_, refl)
    looked_up-Ends i now allow c (found t, w) b =
        import_from-Ends (record i { last_timestamp = t }) now allow c w b

    from_timestamp-Ends :
        (i : Importer) (now : Time) (allow : Bool) (c : Collectors) (w : W) (last : Option Time)
        → IsBounded i.cfg
        → Ends (from_timestamp env get_last i now allow c w last)
    from_timestamp-Ends i now allow c w (some t) b = import_from-Ends i now allow c w b
    from_timestamp-Ends i now allow c w none b =
        looked_up-Ends i now allow c (get_last i.cfg.presto_table_name w) b

    -- With a limit on the time ranges, or with chunks of a minute or more, every call of
    -- `ImportFromLastTimestamp` ends with an outcome.
    pub import-Ends :
        (i : Importer) (now : Time) (allow : Bool) (c : Collectors) (w : W)
        → IsBounded i.cfg
        → Ends (import_from_last_timestamp env get_last i now allow c w)
    unfolding import_from_last_timestamp
    import-Ends i now allow c w b = from_timestamp-Ends i now allow c w i.last_timestamp b
