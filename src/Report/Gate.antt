-- ===== src/Report/Gate.antt =====
-- The checks of `runReport` (pkg/operator/reports.go) that the data a Report depends on is there. The lists of names
-- in the source are kept as their lengths, which is what its tests read: two of them may share an
-- array, so that a name can be overwritten, but not a length.
use operator_metering.Prelude.{
  ℕ, suc, ◌≤◌, ◌≡◌, ◌↔◌, refl, Bool, true, false, ◌||◌, not, Option, none, some, List, [], ◌∷◌, ltb,
  ◌==◌, All, arith,
}
use operator_metering.Prom.Chunks.{Time}
use operator_metering.Report.Period.{ReportPeriod}

-- The importer of a ReportDataSource: it has none, or one without an import status, or one with the
-- start and the end of the data that is there.
pub data ImportState : Type 0 where
  no_importer : ImportState
  not_started : ImportState
  imports : Option Time → Option Time → ImportState

-- The lengths of unstartedDataSourceDependendencies and the other three lists.
pub record Unmet : Type 0 where
  pub unstarted : ℕ
  pub data_start : ℕ
  pub data_end : ℕ
  pub reports : ℕ

abbrev pub nothing_unmet : Unmet
nothing_unmet = record { unstarted = 0; data_start = 0; data_end = 0; reports = 0 }

abbrev pub starts_late : ReportPeriod → Option Time → Bool
starts_late p none = true
starts_late p (some s) = ltb p.period_start s

abbrev pub ends_early : ReportPeriod → Option Time → Bool
ends_early p none = true
ends_early p (some e) = ltb e p.period_end

abbrev pub count : Bool → ℕ → ℕ
count true n = suc n
count false n = n

-- The body of the loop over the data sources. A source that has not started is appended to the list of the sources
-- that start late, and the outcome is assigned to the list of those that have not started.
unfoldable pub check_data_source : ReportPeriod → ImportState → Unmet → Unmet
check_data_source p no_importer u = u
check_data_source p not_started u = record u { unstarted = suc u.data_start }
check_data_source p (imports s e) u = record u {
  data_start = count (starts_late p s) u.data_start;
  data_end = count (ends_early p e) u.data_end;
}

-- `queue`: the source is put into its queue
unfoldable pub is_queued : ReportPeriod → ImportState → Bool
is_queued p no_importer = false
is_queued p not_started = true
is_queued p (imports s e) = starts_late p s || ends_early p e

-- A report that has a last report time, which is before the end of the period.
abbrev pub is_behind : ReportPeriod → Option Time → Bool
is_behind p none = false
is_behind p (some t) = ltb t p.period_end

-- the loop over the data sources
unfoldable pub check_data_sources : ReportPeriod → List ImportState → Unmet → Unmet
unfolding check_data_source
check_data_sources p [] u = u
check_data_sources p (i ∷ is) u = check_data_sources p is (check_data_source p i u)

-- the loop over the reports, by their last report times
unfoldable pub check_reports : ReportPeriod → List (Option Time) → Unmet → Unmet
check_reports p [] u = u
check_reports p (t ∷ ts) u =
    check_reports p ts (record u { reports = count (is_behind p t) u.reports })

-- the test whether one of the lists is not empty
unfoldable pub has_unmet : Unmet → Bool
has_unmet u =
    not (u.unstarted == 0)
    || (not (u.data_start == 0) || (not (u.data_end == 0) || not (u.reports == 0)))

unfoldable pub unmet_dependencies : ReportPeriod → List ImportState → List (Option Time) → Unmet
unmet_dependencies p is ts = check_reports p ts (check_data_sources p is nothing_unmet)

-- The imported data covers the period.
abbrev pub Covers : ReportPeriod → ImportState → Type 0
Covers p no_importer = Unit
Covers p not_started = ⊥
Covers p (imports (some s) (some e)) = (s ≤ p.period_start) × (p.period_end ≤ e)
Covers p (imports _ _) = ⊥

-- A report that has reported has reported on the period; one that has never reported passes.
abbrev pub Reported : ReportPeriod → Option Time → Type 0
Reported p none = Unit
Reported p (some t) = p.period_end ≤ t

module _ (p : ReportPeriod) where
  Covers-step :
      (i : ImportState) (u : Unmet)
      → (has_unmet (check_data_source p i u) ≡ false) ↔ ((has_unmet u ≡ false) × Covers p i)
  unfolding check_data_source has_unmet
  Covers-step no_importer u = (λ h. (h, tt), λ h. h.0)
  Covers-step not_started u = (λ h. ground (arith, h), λ h. absurd h.1)
  Covers-step (imports none none) u = (λ h. ground (arith, h), λ h. absurd h.1)
  Covers-step (imports none (some e)) u = (λ h. ground (arith, h), λ h. absurd h.1)
  Covers-step (imports (some s) none) u = (λ h. ground (arith, h), λ h. absurd h.1)
  Covers-step (imports (some s) (some e)) u = (λ h. ground (arith, h), λ h. ground (arith, h))

  Reported-step :
      (t : Option Time) (u : Unmet)
      → (has_unmet (record u { reports = count (is_behind p t) u.reports }) ≡ false)
        ↔ ((has_unmet u ≡ false) × Reported p t)
  unfolding has_unmet
  Reported-step none u = (λ h. (h, tt), λ h. h.0)
  Reported-step (some t) u = (λ h. ground (arith, h), λ h. ground (arith, h))

  All-Covers :
      (is : List ImportState) (u : Unmet)
      → (has_unmet (check_data_sources p is u) ≡ false)
        ↔ ((has_unmet u ≡ false) × All (Covers p) is)
  unfolding check_data_sources
  All-Covers [] u = (λ h. (h, tt), λ h. h.0)
  All-Covers (i ∷ is) u =
      let a = All-Covers is (check_data_source p i u) in
      let b = Covers-step i u in
      (
        λ h. let (x, y) = a.0 h in let (z, c) = b.0 x in (z, (c, y)),
        λ h. a.1 (b.1 (h.0, h.1.0), h.1.1),
      )

  All-Reported :
      (ts : List (Option Time)) (u : Unmet)
      → (has_unmet (check_reports p ts u) ≡ false) ↔ ((has_unmet u ≡ false) × All (Reported p) ts)
  unfolding check_reports
  All-Reported [] u = (λ h. (h, tt), λ h. h.0)
  All-Reported (t ∷ ts) u =
      let a = All-Reported ts (record u { reports = count (is_behind p t) u.reports }) in
      let b = Reported-step t u in
      (
        λ h. let (x, y) = a.0 h in let (z, c) = b.0 x in (z, (c, y)),
        λ h. a.1 (b.1 (h.0, h.1.0), h.1.1),
      )

  -- No dependency is unmet exactly if every data source that imports metrics has imported data that covers the period, and every
  -- sub-report that has a last report time has one not before the end of the period. A sub-report that has never
  -- reported is not counted as unmet.
  pub unmet_dependencies-Covers :
      (is : List ImportState) (ts : List (Option Time))
      → (has_unmet (unmet_dependencies p is ts) ≡ false) ↔ (All (Covers p) is × All (Reported p) ts)
  unfolding unmet_dependencies has_unmet
  unmet_dependencies-Covers is ts =
      let a = All-Reported ts (check_data_sources p is nothing_unmet) in
      let b = All-Covers is nothing_unmet in
      (λ h. let (x, y) = a.0 h in ((b.0 x).1, y), λ h. a.1 (b.1 (refl, h.0), h.1))
