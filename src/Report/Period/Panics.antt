-- ===== src/Report/Period/Panics.antt =====
-- When `getReportPeriod` (pkg/operator/reports.go) panics. The law of the cron library is what it documents of `Next`.
use operator_metering.Prelude.{
  ◌↔◌, ◌⊎◌, ◌<◌, ◌≡◌, ◌≢◌, refl, ap, sym, ◌∙◌, Option, none, some, arith,
}
use mathlib.Core.Path.{subst}
use mathlib.Core.Option.{some-injective}
use operator_metering.Prom.Chunks.{Time}
use operator_metering.Report.{ReportSchedule, Report}
use operator_metering.Report.Schedule.{Checked, ok, err, Cron, get_schedule}
use operator_metering.Report.Status.{
  AreOrdered, IsValidSpec, validate_spec, validate_spec-IsValidSpec,
}
use operator_metering.Report.Period.{
  ReportPeriod, panics, truncate_to_millisecond, set_next_report_time, get_next_report_period,
  scheduled_period, check_period, get_run_once_report_period, scheduled, run_once, both_set,
  period_by, period_from, first_known, get_report_period,
}

-- What the cron library documents of `Next`: it is later than the given time, or the zero time if no time satisfies the schedule.
abbrev pub IsNext : {Schedule : Type 0} → Cron Schedule → Type 0
IsNext {Schedule} cron = (s : Schedule) (t : Time) → (t < cron.next s t) ⊎ (cron.next s t ≡ 0)

ok-injective : {A : Type 0} (s t : A) → ok s ≡ ok t → s ≡ t
ok-injective s t h = cc

module _ {Schedule : Type 0} (cron : Cron Schedule) where
  -- The time that the period of a scheduled report is computed from: the one that is known, or the end of the
  -- current period.
  abbrev pub period_base : Option Time → Schedule → Time → Time
  period_base (some t) s now = t
  period_base none s now = truncate_to_millisecond (cron.next s now)

  -- The schedule has no activation after the time that the period is computed from, which is not the zero time to the
  -- millisecond.
  abbrev pub Stops : Time → Report → Schedule → Type 0
  Stops now r s =
      let t =
        period_base
          (first_known cron r.status.last_report_time r.spec.reporting_start
            r.status.next_report_time)
          s now in
      (cron.next s t ≡ 0) × (0 < truncate_to_millisecond t)

  abbrev pub IsExhausted : Time → Report → Type 0
  IsExhausted now r =
      (rs : ReportSchedule) × ((r.spec.schedule ≡ some rs)
        × ((s : Schedule) × ((get_schedule cron rs ≡ ok s) × Stops now r s)))

  check-panics :
      (p : ReportPeriod) (r : Report)
      → (check_period cron (p, r) ≡ panics) ↔ (p.period_end < p.period_start)
  unfolding check_period
  check-panics p r = (λ h. ground (arith, h), λ h. ground (arith, h))

  module _ (next : IsNext cron) where
    next-panics :
        (s : Schedule) (t : Time) (r : Report)
        → (check_period cron (get_next_report_period cron s t, r) ≡ panics)
          ↔ ((cron.next s t ≡ 0) × (0 < truncate_to_millisecond t))
    unfolding get_next_report_period
    next-panics s t r =
        let c = check-panics (get_next_report_period cron s t) r in
        (λ h. ground (arith, c.0 h, next s t), λ h. c.1 (omega (arith, h.0, h.1)))

    from-panics :
        (o : Option Time) (s : Schedule) (now : Time) (r : Report)
        → (check_period cron (period_from cron o s now r) ≡ panics)
          ↔ (let t = period_base o s now in (cron.next s t ≡ 0) × (0 < truncate_to_millisecond t))
    unfolding get_next_report_period
    from-panics (some t) s now r = next-panics s t r
    from-panics none s now r =
        let t = truncate_to_millisecond (cron.next s now) in
        next-panics s t (set_next_report_time cron r (get_next_report_period cron s t).period_start)

    scheduled-panics :
        (c : Checked Schedule) (now : Time) (r : Report)
        → (scheduled cron c now r ≡ panics) ↔ ((s : Schedule) × ((c ≡ ok s) × Stops now r s))
    unfolding scheduled_period
    scheduled-panics (err e) now r = (λ h. absurd (cc), λ h. absurd (cc (h.1.0)))
    scheduled-panics (ok s) now r =
        let x =
          from-panics
            (first_known cron r.status.last_report_time r.spec.reporting_start
              r.status.next_report_time)
            s now r in
        (
          λ h. (s, (refl, x.0 h)),
          λ h. x.1 (subst (Stops now r) (sym (ok-injective s h.0 h.1.0)) h.1.1),
        )

    run_once-ne-panics :
        (start end : Option Time) (r : Report)
        → AreOrdered start end
        → run_once cron (both_set cron start end) r ≢ panics
    run_once-ne-panics (some s) (some e) r v h =
        omega (arith, v, (check-panics (record { period_start = s; period_end = e }) r).0 h)
    run_once-ne-panics (some s) none r v h = cc
    run_once-ne-panics none (some e) r v h = cc
    run_once-ne-panics none none r v h = cc

    period_by-panics :
        (o : Option ReportSchedule) (now : Time) (r : Report)
        → IsValidSpec r.spec
        → (period_by cron o now r ≡ panics) ↔ (
            (rs : ReportSchedule) × ((o ≡ some rs)
              × ((s : Schedule) × ((get_schedule cron rs ≡ ok s) × Stops now r s))))
    unfolding get_run_once_report_period
    period_by-panics (some rs) now r v =
        let x = scheduled-panics (get_schedule cron rs) now r in
        (
          λ h. (rs, (refl, x.0 h)),
          λ h.
              x.1 (
                h.1.1.0,
                (ap (get_schedule cron) (some-injective _ _ h.1.0) ∙ h.1.1.1.0, h.1.1.1.1),
              ),
        )
    period_by-panics none now r v = (
      λ h. absurd (run_once-ne-panics r.spec.reporting_start r.spec.reporting_end r v.ordered h),
      λ h. absurd (cc (h.1.0)),
    )

    -- If the cron library answers as it is documented to, then for a report whose spec was accepted the period is computed with a panic exactly
    -- if the report has a schedule that is not satisfied after the time that the period is computed from, and that time is a
    -- millisecond or more after the zero time, which is then taken for the period's end.
    pub get_report_period-panics :
        (now : Time) (r : Report)
        → validate_spec r.spec ≡ none
        → (get_report_period cron now r ≡ panics) ↔ IsExhausted now r
    unfolding get_report_period
    get_report_period-panics now r v =
        period_by-panics r.spec.schedule now r (validate_spec-IsValidSpec r.spec v)
