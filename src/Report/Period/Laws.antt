-- ===== src/Report/Period/Laws.antt =====
-- The periods that a Report reports on (pkg/operator/reports.go).
use operator_metering.Prelude.{◌≤◌, ◌<◌, ◌≡◌, refl, ap, sym, ◌∙◌, Option, none, some, arith}
use operator_metering.Prom.Chunks.{Time}
use operator_metering.Report.{ReportSchedule, ReportSpec, Report}
use operator_metering.Report.Schedule.{Checked, ok, Cron, get_schedule}
use operator_metering.Report.Period.{
  ReportPeriod, period, get_next_report_period, scheduled_period, limit_to_reporting_end,
  check_period, scheduled, period_by, period_from, first_known, get_report_period,
}

-- The period `q` starts where `n` starts, and ends by its end.
abbrev pub IsNextOf : ReportPeriod → ReportPeriod → Type 0
IsNextOf n q = (q.period_start ≡ n.period_start) × (q.period_end ≤ n.period_end)

module _ {Schedule : Type 0} (cron : Cron Schedule) where
  abbrev IsOrdered : ReportPeriod → Type 0
  IsOrdered p = p.period_start ≤ p.period_end

  from_last :
      (s : Schedule) (now : Time) (r : Report) (t : Time)
      → r.status.last_report_time ≡ some t
      → scheduled_period cron s now r ≡ (get_next_report_period cron s t, r)
  unfolding scheduled_period
  from_last s now r t c =
      ap
        (λ (o : Option Time).
          period_from cron (first_known cron o r.spec.reporting_start r.status.next_report_time) s
            now r)
        c

  pub period_by_schedule :
      (now : Time) (r : Report) (rs : ReportSchedule) (s : Schedule) (t : Time)
      → r.spec.schedule ≡ some rs
      → get_schedule cron rs ≡ ok s
      → r.status.last_report_time ≡ some t
      → get_report_period cron now r ≡ check_period cron (get_next_report_period cron s t, r)
  unfolding get_report_period
  period_by_schedule now r rs s t a b c =
      ap (λ (o : Option ReportSchedule). period_by cron o now r) a
      ∙ ap (λ (k : Checked Schedule). scheduled cron k now r) b
      ∙ ap (λ x. check_period cron x) (from_last s now r t c)

  -- The period of a scheduled report that ran before, and whose schedule has a next activation, starts at its last report time, truncated to the
  -- millisecond, and ends at the next activation or the report's end, whichever is earlier.
  pub period_after_last :
      (now : Time) (r : Report) (rs : ReportSchedule) (s : Schedule) (t : Time)
      → r.spec.schedule ≡ some rs
      → get_schedule cron rs ≡ ok s
      → r.status.last_report_time ≡ some t
      → t < cron.next s t
      → get_report_period cron now r
        ≡ period
            (limit_to_reporting_end cron (get_next_report_period cron s t) r.spec.reporting_end)
            r
  unfolding get_report_period check_period get_next_report_period
  period_after_last now r rs s t a b c lt =
      period_by_schedule now r rs s t a b c ∙ ground (arith, lt)

  check-period_start :
      (p q : ReportPeriod) (r r' : Report)
      → check_period cron (p, r) ≡ period q r'
      → q.period_start ≡ p.period_start
  unfolding check_period limit_to_reporting_end
  check-period_start p q r r' h = ground arith

  check-period_end :
      (p q : ReportPeriod) (r r' : Report) (e : Time)
      → r.spec.reporting_end ≡ some e
      → check_period cron (p, r) ≡ period q r'
      → q.period_end ≤ e
  unfolding check_period limit_to_reporting_end
  check-period_end p q r r' e k h = ground arith

  -- Successive periods of a scheduled report join: once the end of a period is the last report time,
  -- the next period, computed at any time, starts right there.
  pub period_starts_at_last_end :
      (now : Time) (r r' : Report) (rs : ReportSchedule) (s : Schedule) (t : Time)
      (p : ReportPeriod)
      → r.spec.schedule ≡ some rs
      → get_schedule cron rs ≡ ok s
      → r.status.last_report_time ≡ some (get_next_report_period cron s t).period_end
      → get_report_period cron now r ≡ period p r'
      → p.period_start ≡ (get_next_report_period cron s t).period_end
  unfolding get_report_period get_next_report_period
  period_starts_at_last_end now r r' rs s t p a b c h =
      let joined = sym (period_by_schedule now r rs s _ a b c) ∙ h in
      check-period_start _ p r r' joined ∙ omega arith

  pub check-IsNextOf :
      (p q : ReportPeriod) (r r' : Report) → check_period cron (p, r) ≡ period q r' → IsNextOf p q
  unfolding check_period limit_to_reporting_end
  check-IsNextOf p q r r' h = ground arith

  check-inverted :
      (p : ReportPeriod) (r : Report) (e : Time)
      → IsOrdered p
      → r.spec.reporting_end ≡ some e
      → e < p.period_start
      → check_period cron (p, r) ≡ period (record p { period_end = e }) r
  unfolding check_period limit_to_reporting_end
  check-inverted p r e o h lt = ground arith

  spec-period_from :
      (o : Option Time) (s : Schedule) (now : Time) (r : Report)
      → (period_from cron o s now r).1.spec ≡ r.spec
  spec-period_from (some t) s now r = refl
  spec-period_from none s now r = refl

  -- A scheduled report whose end lies before the start of its next period, which runs forwards: the period that is returned
  -- ends there, before it starts, since the check that panics comes before the truncation.
  pub period_inverted :
      (now : Time) (r : Report) (rs : ReportSchedule) (s : Schedule) (e : Time)
      → r.spec.schedule ≡ some rs
      → get_schedule cron rs ≡ ok s
      → r.spec.reporting_end ≡ some e
      → IsOrdered (scheduled_period cron s now r).0
      → e < (scheduled_period cron s now r).0.period_start
      → (p : ReportPeriod) × (r' : Report) × (get_report_period cron now r ≡ period p r')
        × (p.period_end < p.period_start)
  unfolding get_report_period
  period_inverted now r rs s e a b c ord lt =
      let x = scheduled_period cron s now r in
      let k : x.1.spec ≡ r.spec = unfold scheduled_period in spec-period_from _ s now r in
      (
        record (x.0) { period_end = e },
        x.1,
        ap (λ (o : Option ReportSchedule). period_by cron o now r) a
            ∙ ap (λ (y : Checked Schedule). scheduled cron y now r) b
            ∙ check-inverted x.0 x.1 e ord (ap (λ (z : ReportSpec). z.reporting_end) k ∙ c) lt,
        lt,
      )
