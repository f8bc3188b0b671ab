-- ===== src/Report/Completion.antt =====
-- What `runReport` of pkg/operator/reports.go does to a Report once its generation succeeded: the last
-- report time, the finished or the waiting condition, and the time of the next run. The texts of the
-- messages are parameters.
use operator_metering.Prelude.{
  String, ◌≤◌, ◌≡◌, ◌≢◌, refl, sym, ap, ◌∙◌, Bool, true, false, Option, none, some, ◌==◌,
  if◌then◌else◌, arith, inl, inr, eq_iff, Bool-cases,
}
use mathlib.Core.Path.{subst}
use mathlib.Core.Option.{some-injective}
use operator_metering.Prom.Chunks.{Time}
use operator_metering.Conditions.{
  report_running, condition_true, condition_false, report_finished_reason,
  reporting_period_waiting_reason, new_report_condition,
}
use operator_metering.Conditions.Laws.{set-is_current}
use operator_metering.Report.{ReportSchedule, Report}
use operator_metering.Report.Schedule.{Checked, ok, err, ScheduleError, Cron, get_schedule}
use operator_metering.Report.Status.{
  with_condition, is_after, IsDone, is_report_finished, is_report_finished-IsDone,
}
use operator_metering.Report.Period.{
  ReportPeriod, period, truncate_to_millisecond, get_report_period, get_next_report_period,
}
use operator_metering.Report.Period.Laws.{IsNextOf, check-IsNextOf, period_by_schedule}

-- The report as it is sent to the API, with the time at which it is put into the queue again, if it is.
pub data Completion : Type 0 where
  completed : Report → Option Time → Completion
  failed : ScheduleError → Completion

abbrev pub reached : Option Time → Time → Bool
reached none t = false
reached (some e) t = e == t

module _ {Schedule : Type 0} (cron : Cron Schedule) (finished_message : Time → String)
    (waiting_message : ReportPeriod → Time → String) where
  abbrev set_last_report_time : Report → Time → Report
  set_last_report_time r t =
      let s = r.status in record r { status = record s { last_report_time = some t } }

  -- the Report whose end is reached
  abbrev pub finish : Time → ReportPeriod → Report → Report
  finish now p r = with_condition r (
      new_report_condition now report_running condition_false report_finished_reason
        (finished_message p.period_end))

  abbrev pub wait_until : Time → ReportPeriod → Report → Time → Report
  wait_until now p r next_run_time =
      let s = r.status in
      with_condition (record r { status = record s { next_report_time = some next_run_time } })
        (new_report_condition now report_running condition_false reporting_period_waiting_reason
          (waiting_message p next_run_time))

  abbrev pub wait_by : Checked Schedule → Time → ReportPeriod → Report → Completion
  wait_by (err e) now p r = failed e
  wait_by (ok schedule) now p r =
      let next = (get_next_report_period cron schedule p.period_end).period_end in
      completed (wait_until now p r next) (some next)

  abbrev pub wait_for : Option ReportSchedule → Time → ReportPeriod → Report → Completion
  wait_for none now p r = completed r none
  wait_for (some s) now p r = wait_by (get_schedule cron s) now p r

  -- the end of `runReport`, for a report generated for the period `p`
  unfoldable pub complete_report : Time → ReportPeriod → Report → Completion
  complete_report now p r =
      let r' = set_last_report_time r p.period_end in
      if reached r.spec.reporting_end p.period_end
      then completed (finish now p r') none
      else wait_for r.spec.schedule now p r'

  false-ne-true : condition_false ≢ condition_true
  false-ne-true x = ground (arith, eq_iff condition_false condition_true)

  not_after_itself : (t : Time) → is_after (some t) (some t) ≡ false
  not_after_itself t = ground arith

  reached-some : (o : Option Time) (t : Time) → o ≡ some t → reached o t ≡ true
  reached-some none t h = cc
  reached-some (some e) t h = ground arith

  finish-IsDone :
      (now : Time) (p : ReportPeriod) (r : Report)
      → r.spec.reporting_end ≡ some p.period_end
      → r.status.last_report_time ≡ some p.period_end
      → is_report_finished (finish now p r) ≡ true
  unfolding with_condition new_report_condition
  finish-IsDone now p r e l =
      let (d, got, st, rs) = set-is_current r.status.conditions (
        new_report_condition now report_running condition_false report_finished_reason
          (finished_message p.period_end)) in
      (is_report_finished-IsDone (finish now p r)).1 (
        subst (IsDone (finish now p r)) (sym got) (
          rs,
          λ x. false-ne-true (sym st ∙ x),
          inr (λ x. cc, rw e (rw l (not_after_itself p.period_end))),
        ))

  -- A report that was generated up to its reporting end is finished: it has the condition and the last
  -- report time for which a later run leaves it alone, and it is not put into the queue again.
  pub complete-is_report_finished :
      (now : Time) (p : ReportPeriod) (r : Report)
      → r.spec.reporting_end ≡ some p.period_end
      → (r' : Report) × (complete_report now p r ≡ completed r' none)
        × (r'.status.last_report_time ≡ some p.period_end)
        × (is_report_finished r' ≡ true)
  unfolding complete_report
  complete-is_report_finished now p r e =
      let r' = set_last_report_time r p.period_end in
      (
        finish now p r',
        rw (reached-some r.spec.reporting_end p.period_end e) refl,
        unfold with_condition in refl,
        finish-IsDone now p r' e refl,
      )

  -- A scheduled report that was generated for a period before its reporting end waits: it is put into the
  -- queue again for the end of its next period, and the last report time is the end of the period.
  pub complete-waits :
      (now : Time) (p : ReportPeriod) (r : Report) (rs : ReportSchedule) (s : Schedule)
      → r.spec.schedule ≡ some rs
      → get_schedule cron rs ≡ ok s
      → reached r.spec.reporting_end p.period_end ≡ false
      → (r' : Report) × (complete_report now p r
          ≡ completed r' (some (get_next_report_period cron s p.period_end).period_end))
        × (r'.status.last_report_time ≡ some p.period_end)
        × (r'.status.next_report_time
            ≡ some (get_next_report_period cron s p.period_end).period_end)
        × (r'.spec ≡ r.spec)
  unfolding complete_report with_condition
  complete-waits now p r rs s a b c =
      let r1 = set_last_report_time r p.period_end in
      (
        wait_until now p r1 (get_next_report_period cron s p.period_end).period_end,
        rw c (
            ap (λ (o : Option ReportSchedule). wait_for o now p r1) a
            ∙ ap (λ (k : Checked Schedule). wait_by k now p r1) b),
        refl,
        refl,
        refl,
      )

  completed-injective :
      (r r' : Report) (o o' : Option Time) → completed r o ≡ completed r' o' → (r ≡ r') × (o ≡ o')
  completed-injective r r' o o' h = (cc, cc)

  -- The period of a report whose schedule and last report time are known.
  period_from_end :
      (now : Time) (r r' : Report) (rs : ReportSchedule) (s : Schedule) (t : Time)
      (q : ReportPeriod)
      → r.spec.schedule ≡ some rs
      → get_schedule cron rs ≡ ok s
      → r.status.last_report_time ≡ some t
      → get_report_period cron now r ≡ period q r'
      → IsNextOf (get_next_report_period cron s t) q
  period_from_end now r r' rs s t q a b c h =
      check-IsNextOf cron _ q r r' (sym (period_by_schedule cron now r rs s t a b c) ∙ h)

  waited-next :
      (now now' : Time) (p : ReportPeriod) (r r' r'' : Report) (rs : ReportSchedule)
      (k : Checked Schedule) (t : Time) (q : ReportPeriod)
      → r.spec.schedule ≡ some rs
      → get_schedule cron rs ≡ k
      → r.status.last_report_time ≡ some p.period_end
      → wait_by k now p r ≡ completed r' (some t)
      → get_report_period cron now' r' ≡ period q r''
      → (q.period_start ≡ truncate_to_millisecond p.period_end) × (q.period_end ≤ t)
  unfolding with_condition get_next_report_period
  waited-next now now' p r r' r'' rs (err e) t q a b c h g = cc
  waited-next now now' p r r' r'' rs (ok s) t q a b c h g =
      let (e, f) = completed-injective _ r' _ (some t) h in
      let x : IsNextOf (get_next_report_period cron s p.period_end) q =
        period_from_end now' r' r'' rs s p.period_end q
          (ap (λ (y : Report). y.spec.schedule) (sym e) ∙ a) b
          (ap (λ (y : Report). y.status.last_report_time) (sym e) ∙ c) g in
      (x.0, subst (λ u. q.period_end ≤ u) (some-injective _ t f) x.1)

  scheduled-next :
      (now now' : Time) (p : ReportPeriod) (r r' r'' : Report) (o : Option ReportSchedule)
      (t : Time) (q : ReportPeriod)
      → r.spec.schedule ≡ o
      → r.status.last_report_time ≡ some p.period_end
      → wait_for o now p r ≡ completed r' (some t)
      → get_report_period cron now' r' ≡ period q r''
      → (q.period_start ≡ truncate_to_millisecond p.period_end) × (q.period_end ≤ t)
  scheduled-next now now' p r r' r'' none t q a c h g =
      absurd (cc ((completed-injective r r' none (some t) h).1))
  scheduled-next now now' p r r' r'' (some rs) t q a c h g =
      waited-next now now' p r r' r'' rs (get_schedule cron rs) t q a refl c h g

  -- If a report is put into the queue again for a time after it was generated for a period, then the period that is computed for it next,
  -- whenever that is, starts where that period ended, to the millisecond, and ends by that time.
  pub complete-next_period :
      (now now' : Time) (p q : ReportPeriod) (r r' r'' : Report) (t : Time)
      → complete_report now p r ≡ completed r' (some t)
      → get_report_period cron now' r' ≡ period q r''
      → (q.period_start ≡ truncate_to_millisecond p.period_end) × (q.period_end ≤ t)
  unfolding complete_report
  complete-next_period now now' p q r r' r'' t h g =
      let r1 = set_last_report_time r p.period_end in
      elim (Bool-cases (reached r.spec.reporting_end p.period_end)) [
        | inl e ↦
            absurd (cc ((completed-injective (finish now p r1) r' none (some t) (rw e at h)).1))
        | inr e ↦ scheduled-next now now' p r1 r' r'' r.spec.schedule t q refl refl (rw e at h) g
      ]
