-- ===== src/DataSource/Status/Coverage.antt =====
-- What the import status of a data source (pkg/operator/datasources.go) says after an import, as the check of a report's
-- dependencies (pkg/operator/reports.go) reads it.
use operator_metering.Prelude.{
  ◌≤◌, ◌≡◌, refl, Bool, true, false, Option, none, some, List, [], ◌∷◌, if◌then◌else◌, arith,
}
use mathlib.Core.Path.{subst}
use operator_metering.Prom.Chunks.{Time, Range}
use operator_metering.Prom.Import.{Metric, Results}
use operator_metering.Report.Period.{ReportPeriod}
use operator_metering.Report.Gate.{ImportState, imports, Covers}
use operator_metering.DataSource.{ImportStatus}
use operator_metering.DataSource.Status.{
  no_later, no_earlier, last_of, or_first, record_ranges, has_older_data, record_metrics, Recorded,
  nothing_processed, older_data, recorded, record_first, record_results,
}

-- The status as the check of a report's dependencies reads it.
abbrev pub state_of : ImportStatus → ImportState
state_of s = imports s.import_data_start_time s.import_data_end_time

-- The period lies between the start of the first processed range and the end of the last.
abbrev pub IsProcessed : List Range → ReportPeriod → Type 0
IsProcessed [] p = ⊥
IsProcessed (first ∷ rest) p =
    (first.start ≤ p.period_start) × (p.period_end ≤ (last_of first rest).end)

-- an older earliest time, a newer newest time, of the data
abbrev pub IsNewer : Option Time → Option Time → Type 0
IsNewer none t = Unit
IsNewer (some a) none = ⊥
IsNewer (some a) (some b) = a ≤ b

abbrev pub IsKept : Option Time → Option Time → Type 0
IsKept none t = Unit
IsKept (some a) t = t ≡ some a

-- What an import leaves of a status: what was covered is covered, as are the processed ranges; the earliest metric stays, the
-- newest gets no older.
pub record Extends (ranges : List Range) (s t : ImportStatus) : Type 0 where
  pub covers_before : (p : ReportPeriod) → Covers p (state_of s) → Covers p (state_of t)
  pub covers_processed : (p : ReportPeriod) → IsProcessed ranges p → Covers p (state_of t)
  pub earliest : IsKept s.earliest_imported_metric_time t.earliest_imported_metric_time
  pub newest : IsNewer s.newest_imported_metric_time t.newest_imported_metric_time

Covers-widen :
    (p : ReportPeriod) (a b : Time) (s e : Option Time)
    → Covers p (imports s e)
    → Covers p (imports (some (no_later a s)) (some (no_earlier b e)))
Covers-widen p a b none none h = absurd h
Covers-widen p a b none (some e) h = absurd h
Covers-widen p a b (some s) none h = absurd h
Covers-widen p a b (some s) (some e) h = ground (arith, h)

Covers-new :
    (p : ReportPeriod) (a b : Time) (s e : Option Time)
    → a ≤ p.period_start
    → p.period_end ≤ b
    → Covers p (imports (some (no_later a s)) (some (no_earlier b e)))
Covers-new p a b none none h k = (h, k)
Covers-new p a b none (some e) h k = ground (arith, h, k)
Covers-new p a b (some s) none h k = ground (arith, h, k)
Covers-new p a b (some s) (some e) h k = ground (arith, h, k)

IsKept-refl : (t : Option Time) → IsKept t t
IsKept-refl none = tt
IsKept-refl (some a) = refl

IsNewer-refl : (t : Option Time) → IsNewer t t
IsNewer-refl none = tt
IsNewer-refl (some a) = omega arith

ranges-Extends :
    (first : Range) (rest : List Range) (s : ImportStatus)
    → Extends (first ∷ rest) s (record_ranges first (last_of first rest) s)
unfolding record_ranges
ranges-Extends first rest s = record {
  covers_before = λ p.
      Covers-widen p first.start (last_of first rest).end s.import_data_start_time
        s.import_data_end_time;
  covers_processed = λ p h.
      Covers-new p first.start (last_of first rest).end s.import_data_start_time
        s.import_data_end_time h.0 h.1;
  earliest = IsKept-refl s.earliest_imported_metric_time;
  newest = IsNewer-refl s.newest_imported_metric_time;
}

or_first-IsKept : (a : Time) (t : Option Time) → IsKept t (or_first a t)
or_first-IsKept a none = tt
or_first-IsKept a (some b) = refl

no_earlier-IsNewer : (a : Time) (t : Option Time) → IsNewer t (some (no_earlier a t))
no_earlier-IsNewer a none = tt
no_earlier-IsNewer a (some b) = ground arith

metrics-Extends :
    (ranges : List Range) (m l : Metric) (s t : ImportStatus)
    → Extends ranges s t
    → t.earliest_imported_metric_time ≡ s.earliest_imported_metric_time
    → t.newest_imported_metric_time ≡ s.newest_imported_metric_time
    → Extends ranges s (record_metrics m l t)
unfolding record_metrics
metrics-Extends ranges m l s t x e n = record {
  covers_before = x.covers_before;
  covers_processed = x.covers_processed;
  earliest =
      subst (λ a. IsKept a (or_first m.timestamp t.earliest_imported_metric_time)) e
        (or_first-IsKept m.timestamp t.earliest_imported_metric_time);
  newest =
      subst (λ a. IsNewer a (some (no_earlier l.timestamp t.newest_imported_metric_time))) n
        (no_earlier-IsNewer l.timestamp t.newest_imported_metric_time);
}

-- The status that a step records, if it records one.
abbrev pub Records : (ImportStatus → Type 0) → Recorded → Type 0
Records P nothing_processed = Unit
Records P older_data = Unit
Records P (recorded s b) = P s

if-Records :
    (P : ImportStatus → Type 0) (b : Bool) (s : ImportStatus) (c : Bool)
    → P s
    → Records P (if b then older_data else recorded s c)
if-Records P true s c h = tt
if-Records P false s c h = h

first-Extends :
    (ranges : List Range) (ms : List Metric) (s t : ImportStatus)
    → Extends ranges s t
    → t.earliest_imported_metric_time ≡ s.earliest_imported_metric_time
    → t.newest_imported_metric_time ≡ s.newest_imported_metric_time
    → Records (Extends ranges s) (record_first ms t)
first-Extends ranges [] s t x e n = x
first-Extends ranges (m ∷ ms) s t x e n =
    if-Records (Extends ranges s) (has_older_data m t) _ true
      (metrics-Extends ranges m (last_of m ms) s t x e n)

-- A status that an import records covers each period that the status covered before, and each period between the start of
-- the first processed range and the end of the last; the time of the earliest metric is kept, and that of the newest gets no earlier.
pub record_results-Extends :
    (r : Results) (s : ImportStatus)
    → Records (Extends r.processed_time_ranges s) (record_results r s)
unfolding record_results record_ranges
record_results-Extends r s = on r.processed_time_ranges
  where
    on :
        (ranges : List Range)
        → Records (Extends ranges s) (elim ranges [
          | [] ↦ nothing_processed
          | first ∷ rest ↦ record_first r.metrics (record_ranges first (last_of first rest) s)
        ])
    on [] = tt
    on (first ∷ rest) =
        first-Extends (first ∷ rest) r.metrics s (record_ranges first (last_of first rest) s)
          (ranges-Extends first rest s) refl refl
