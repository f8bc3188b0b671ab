-- ===== src/Prom/Importer/Resume.antt =====
-- What successive runs of the importer (pkg/operator/prestostore/importer.go) import.
use operator_metering.Prelude.{
  ◌+◌, ◌≤◌, ◌<◌, ◌≡◌, ◌⊎◌, ◌∙◌, refl, ap, String, Bool, Option, none, some, List, [], ◌∷◌, ◌++◌,
  arith, All, last?, Bool-cases, inl, inr, ltb,
}
use mathlib.Core.Path.{subst}
use mathlib.Core.Option.{some-injective}
use operator_metering.Prom.Chunks.{Time, minute, Range, truncate_to_second}
use operator_metering.Prom.Chunks.Shape.{IsAligned, IsWithin, ranges-IsWithin}
use operator_metering.Prom.Import.{
  Config, Collectors, Results, ImportError, Env, Progress, Step, import_from_time_range, limit_end,
  chunking,
}
use operator_metering.Prom.Import.Accounting.{IsSplit, import-Accounts}
use operator_metering.Prom.Importer.{
  Importer, Outcome, LastTimestamp, found, lookup_failed, start_time_of, end_time_of, remember,
  remember?, no_import, looked_up, end_of, import_from, from_timestamp, import_from_last_timestamp,
}

-- The range starts on a whole minute, not before the minute in which its run starts, and ends on a whole minute by the end
-- time of the run. It may start after it ends.
pub record InRun (cfg : Config) (start_time now : Time) (r : Range) : Type 0 where
  pub start_le : truncate_to_second start_time ≤ r.start
  pub start_aligned : IsAligned r.start
  pub aligned : IsAligned r.end
  pub end_le : r.end ≤ now
  pub end_limited :
      (cfg.max_query_range_duration ≡ 0) ⊎ (r.end ≤ start_time + cfg.max_query_range_duration)

limit_end-le :
    (cfg : Config) (s e : Time)
    → (limit_end cfg s e ≤ e)
      × ((cfg.max_query_range_duration ≡ 0)
          ⊎ (limit_end cfg s e ≤ s + cfg.max_query_range_duration))
unfolding limit_end
limit_end-le cfg s e = ground arith

-- The test on `startTime.Sub(endTime)` never holds: the difference has the wrong sign.
pub end_time_of_lem :
    (cfg : Config) (start_time now : Time)
    → start_time ≤ now
    → 0 < cfg.max_query_range_duration
    → end_time_of cfg start_time now ≡ now
unfolding end_time_of
end_time_of_lem cfg s now h k = ground arith

end_time_of-le : (cfg : Config) (s now : Time) → s ≤ now → end_time_of cfg s now ≤ now
unfolding end_time_of
end_time_of-le cfg s now h = ground arith

IsWithin-InRun :
    (cfg : Config) (s now : Time) (allow : Bool) (r : Range)
    → s ≤ now
    → IsWithin
        (chunking cfg (limit_end cfg s (end_time_of cfg s now)) allow)
        (truncate_to_second s)
        r
    → InRun cfg s now r
IsWithin-InRun cfg s now allow r h w =
    let (le, lim) = limit_end-le cfg s (end_time_of cfg s now) in
    record {
      start_le = w.from_le;
      start_aligned = w.start_aligned;
      aligned = w.end_aligned;
      end_le = omega (arith, w.end_le, le, end_time_of-le cfg s now h);
      end_limited = ground (arith, w.end_le, lim);
    }

All-map :
    {P Q : Range → Type 0} (f : (r : Range) → P r → Q r) (rs : List Range) → All P rs → All Q rs
All-map f [] h = tt
All-map f (r ∷ rs) h = (f r h.0, All-map f rs h.1)

All-prefix : (P : Range → Type 0) (xs ys : List Range) → All P (xs ++ ys) → All P xs
All-prefix P [] ys h = tt
All-prefix P (x ∷ xs) ys h = (h.0, All-prefix P xs ys h.1)

All-done :
    (P : Range → Type 0) (e : Option ImportError) (rs done rest : List Range)
    → IsSplit rs e done rest
    → All P rs
    → All P done
All-done P none rs done rest s h = subst (All P) s.0 h
All-done P (some e) rs done rest s h = All-prefix P done rest (subst (All P) s.0 h)

All-last : (P : Range → Type 0) (rs : List Range) (r : Range) → All P rs → last? rs ≡ some r → P r
All-last P [] r h l = absurd (cc)
All-last P (x ∷ []) r h l = subst P (some-injective _ _ l) h.0
All-last P (x ∷ (y ∷ rs)) r h l = All-last P (y ∷ rs) r h.1 l

-- After an error no timestamp is left, and else the end of the last range imported, or `last`.
abbrev pub Remembers : Option ImportError → Option Results → Option Time → Option Time → Type 0
Remembers (some e) res new last = new ≡ none
Remembers none none new last = ⊥
Remembers none (some res) new last = new ≡ end_of (last? res.processed_time_ranges) last

abbrev pub Imports : (Range → Type 0) → Option Results → Type 0
Imports P none = Unit
Imports P (some res) = All P res.processed_time_ranges

-- What a run may leave. It starts from `last`.
pub record IsRun {W : Type 0} (cfg : Config) (last : Option Time) (now : Time) (o : Outcome W)
    : Type 0 where
  pub cfg_eq : o.importer.cfg ≡ cfg
  pub remembers : Remembers o.error o.results o.importer.last_timestamp last
  pub imports : Imports (InRun cfg (start_time_of cfg last now) now) o.results

remembered :
    (e : Option ImportError) (o : Option Results) (new last : Option Time) (res : Results)
    → Remembers e o new last
    → e ≡ none
    → o ≡ some res
    → new ≡ end_of (last? res.processed_time_ranges) last
remembered (some e) o new last res k x y = cc
remembered none none new last res k x y = absurd k
remembered none (some t) new last res k x y =
    k ∙ ap (λ (u : Results). end_of (last? u.processed_time_ranges) last) (some-injective _ _ y)

imported :
    (P : Range → Type 0) (o : Option Results) (res : Results)
    → Imports P o
    → o ≡ some res
    → All P res.processed_time_ranges
imported P none res k y = absurd (cc)
imported P (some t) res k y =
    subst (λ (u : Results). All P u.processed_time_ranges) (some-injective _ _ y) k

module _ {W : Type 0} (env : Env W) where
  run-InRun :
      (cfg : Config) (s now : Time) (allow : Bool) (c : Collectors) (w : W) (st : Step W)
      → s ≤ now
      → import_from_time_range env cfg s (end_time_of cfg s now) allow c w ≡ some st
      → All (InRun cfg s now) st.0.results.processed_time_ranges
  run-InRun cfg s now allow c w st h eq =
      let (rs, rest, made, split) =
        (import-Accounts env cfg s (end_time_of cfg s now) allow c w st eq).4 in
      All-done _ st.1 rs _ rest split (
        All-map (λ r. IsWithin-InRun cfg s now allow r h) rs
          (ranges-IsWithin s _ cfg.max_time_ranges rs made).0)

  remember-IsRun :
      (i : Importer) (now : Time) (p : Progress W) (e : Option ImportError)
      → All
          (InRun i.cfg (start_time_of i.cfg i.last_timestamp now) now)
          p.results.processed_time_ranges
      → IsRun i.cfg i.last_timestamp now (remember i (p, e))
  unfolding remember
  remember-IsRun i now p none h = record { cfg_eq = refl; remembers = refl; imports = h }
  remember-IsRun i now p (some e) h = record { cfg_eq = refl; remembers = refl; imports = h }

  no_import-IsRun :
      (i : Importer) (now : Time) (c : Collectors) (w : W)
      → IsRun i.cfg i.last_timestamp now (no_import i c w)
  no_import-IsRun i now c w = record { cfg_eq = refl; remembers = refl; imports = tt }

  remember?-IsRun :
      (i : Importer) (now : Time) (x : Option (Step W)) (o : Outcome W)
      → ((st : Step W)
          → x ≡ some st
          → All
              (InRun i.cfg (start_time_of i.cfg i.last_timestamp now) now)
              st.0.results.processed_time_ranges)
      → remember? i x ≡ some o
      → IsRun i.cfg i.last_timestamp now o
  remember?-IsRun i now none o f h = absurd (cc)
  remember?-IsRun i now (some (p, e)) o f h =
      subst (IsRun i.cfg i.last_timestamp now) (some-injective _ _ h)
        (remember-IsRun i now p e (f (p, e) refl))

  import_from-IsRun :
      (i : Importer) (now : Time) (allow : Bool) (c : Collectors) (w : W) (o : Outcome W)
      → import_from env i now allow c w ≡ some o
      → IsRun i.cfg i.last_timestamp now o
  unfolding import_from
  import_from-IsRun i now allow c w o h =
      let s = start_time_of i.cfg i.last_timestamp now in
      elim (Bool-cases (ltb now s)) [
        | inl early ↦
            subst (IsRun i.cfg i.last_timestamp now) (some-injective _ _ (rw early at h))
              (no_import-IsRun i now c w)
        | inr late ↦
            remember?-IsRun i now _ o
              (λ st eq. run-InRun i.cfg s now allow c w st (ground arith) eq) (rw late at h)
      ]

-- The timestamp that a run starts from: the one remembered, or what the table's lookup finds.
abbrev pub known : {W : Type 0} → Option Time → LastTimestamp × W → Option Time
known (some t) _ = some t
known none (found t, _) = t
known none (lookup_failed e, _) = none

module _ {W : Type 0} (env : Env W) (get_last : String → W → LastTimestamp × W) where
  looked_up-IsRun :
      (i : Importer) (now : Time) (allow : Bool) (c : Collectors) (reply : LastTimestamp × W)
      (o : Outcome W)
      → looked_up env get_last i now allow c reply ≡ some o
      → IsRun i.cfg (known none reply) now o
  looked_up-IsRun i now allow c (found t, w) o h =
      import_from-IsRun env (record i { last_timestamp = t }) now allow c w o h
  looked_up-IsRun i now allow c (lookup_failed x, w) o h =
      subst (IsRun i.cfg none now) (some-injective _ _ h)
        (record { cfg_eq = refl; remembers = refl; imports = tt })

  from_timestamp-IsRun :
      (i : Importer) (now : Time) (allow : Bool) (c : Collectors) (w : W) (last : Option Time)
      (o : Outcome W)
      → i.last_timestamp ≡ last
      → from_timestamp env get_last i now allow c w last ≡ some o
      → IsRun i.cfg (known last (get_last i.cfg.presto_table_name w)) now o
  from_timestamp-IsRun i now allow c w (some t) o e h =
      subst (λ l. IsRun i.cfg l now o) e (import_from-IsRun env i now allow c w o h)
  from_timestamp-IsRun i now allow c w none o e h =
      looked_up-IsRun i now allow c (get_last i.cfg.presto_table_name w) o h

  -- Whatever Prometheus, the store and the table answer: a call keeps the configuration, an error makes the importer forget its
  -- timestamp, and a success makes it remember the end of the last range imported. Every imported range starts on a whole minute,
  -- not before the minute in which the run starts (a step after the timestamp, or the backfill's start), and ends on a
  -- whole minute, not after now nor after the run's start and the longest query range.
  pub import-IsRun :
      (i : Importer) (now : Time) (allow : Bool) (c : Collectors) (w : W) (o : Outcome W)
      → import_from_last_timestamp env get_last i now allow c w ≡ some o
      → IsRun i.cfg (known i.last_timestamp (get_last i.cfg.presto_table_name w)) now o
  unfolding import_from_last_timestamp
  import-IsRun i now allow c w o h = from_timestamp-IsRun i now allow c w i.last_timestamp o refl h

  -- A run that succeeds leaves the end of the last range imported, on whole minutes.
  pub run_remembers :
      (i : Importer) (now : Time) (allow : Bool) (c : Collectors) (w : W) (o : Outcome W)
      (res : Results) (r : Range)
      → import_from_last_timestamp env get_last i now allow c w ≡ some o
      → o.error ≡ none
      → o.results ≡ some res
      → last? res.processed_time_ranges ≡ some r
      → (o.importer.last_timestamp ≡ some r.end) × IsAligned r.end
  run_remembers i now allow c w o res r run ok got l =
      let a = import-IsRun i now allow c w o run in
      let last = known i.last_timestamp (get_last i.cfg.presto_table_name w) in
      (
        remembered o.error o.results o.importer.last_timestamp last res a.remembers ok got
            ∙ ap (λ (t : Option Range). end_of t last) l,
        (All-last _ res.processed_time_ranges r (imported _ o.results res a.imports got) l).aligned,
      )

  -- A run from a timestamp imports only what comes after it.
  pub run_starts_after :
      (i : Importer) (now : Time) (allow : Bool) (c : Collectors) (w : W) (o : Outcome W)
      (res : Results) (t : Time)
      → minute ≤ i.cfg.step_size
      → i.last_timestamp ≡ some t
      → IsAligned t
      → import_from_last_timestamp env get_last i now allow c w ≡ some o
      → o.results ≡ some res
      → All (λ r. t < r.start) res.processed_time_ranges
  unfolding start_time_of
  run_starts_after i now allow c w o res t h e al run got =
      let b = import-IsRun i now allow c w o run in
      All-map (λ r k. omega (arith, k.start_le, al, h)) res.processed_time_ranges
        (rw e at (imported _ o.results res b.imports got))

  -- After a run that imported up to the range `r`, and with a step of a minute or more, the next run,
  -- whenever it is and whatever is answered, imports only what comes after the end of `r`.
  pub next_run_starts_after :
      (i : Importer) (now now' : Time) (allow : Bool) (c c' : Collectors) (w w' : W)
      (o o' : Outcome W) (res res' : Results) (r : Range)
      → minute ≤ i.cfg.step_size
      → import_from_last_timestamp env get_last i now allow c w ≡ some o
      → o.error ≡ none
      → o.results ≡ some res
      → last? res.processed_time_ranges ≡ some r
      → import_from_last_timestamp env get_last o.importer now' allow c' w' ≡ some o'
      → o'.results ≡ some res'
      → All (λ r'. r.end < r'.start) res'.processed_time_ranges
  next_run_starts_after i now now' allow c c' w w' o o' res res' r h run ok got l run' got' =
      let a = import-IsRun i now allow c w o run in
      let (e, al) = run_remembers i now allow c w o res r run ok got l in
      run_starts_after o.importer now' allow c' w' o' res' r.end
        (omega (arith, h, ap (λ (x : Config). x.step_size) a.cfg_eq)) e al run' got'
