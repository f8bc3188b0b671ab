-- ===== src/Report/Run/Progress.antt =====
-- The last report time that is stored moves to the end of the period exactly if the generation of the report (the end of
-- `runReport`, pkg/operator/reports.go) succeeds: a period is not skipped.
use operator_metering.Prelude.{
  String, ◌≡◌, refl, sym, ap, ◌∙◌, Bool, Option, none, some, Bool-cases, inl, inr, if◌then◌else◌,
}
use operator_metering.Prom.Chunks.{Time}
use operator_metering.Kube.{
  Failure, Result, ok, err, Act, continue, fail, call_failed, ignored, ignored-world, ignored-ok,
}
use operator_metering.Conditions.{
  new_report_condition, report_running, condition_true, run_immediately_reason, scheduled_reason,
}
use operator_metering.Dependencies.{Query}
use operator_metering.Hive.Tables.{PrestoTable}
use operator_metering.Report.{Report, ReportSchedule}
use operator_metering.Report.Schedule.{Cron, Checked, ok, err, get_schedule}
use operator_metering.Report.Status.{with_condition}
use operator_metering.Report.Period.{ReportPeriod}
use operator_metering.Report.Completion.{
  Completion, completed, failed, complete_report, reached, wait_for, wait_by,
}
use operator_metering.Report.Run.Dependents.{queue_dependents, QueuesQuietly, dependents-keep}
use operator_metering.Report.Run.{ReportApi, Texts, update_report_status}
use operator_metering.Report.Run.Table.{fully_qualified_table_name}
use operator_metering.Report.Run.Generate.{generate, after_generation, store_completion, requeue}

-- The stored last report time: an update that succeeds stores the report that is sent and gives it back, one that fails
-- stores nothing, and the other calls of a generation do not store reports.
pub record IsReportStore {W : Type 0} (api : ReportApi W) (last : W → Option Time) : Type 0 where
  pub updated :
      (r r' : Report) (w : W)
      → (api.update_report r w).0 ≡ ok r'
      → (r' ≡ r) × (last (api.update_report r w).1 ≡ r.status.last_report_time)
  pub not_updated :
      (r : Report) (e : Failure) (w : W)
      → (api.update_report r w).0 ≡ err e
      → last (api.update_report r w).1 ≡ last w
  pub queues : QueuesQuietly last api
  pub requeued : (r : Report) (t : Time) (w : W) → last (api.enqueue_report_after r t w) ≡ last w
  pub rendered :
      (q : Query) (p : ReportPeriod) (r : Report) (w : W)
      → last (api.render_query q p r w).1 ≡ last w
  pub generated :
      (table text : String) (overwrite : Bool) (w : W)
      → last (api.generate_report table text overwrite w).1 ≡ last w

-- The new time after a success and the old one after an error.
abbrev pub outcome : {T : Type 0} → Result T → Option Time → Option Time → Option Time
outcome (ok t) old new = new
outcome (err e) old new = old

module _ {W : Type 0} (last : W → Option Time) (new : Option Time) where
  abbrev Moves : {T : Type 0} → Result T × W → Option Time → Type 0
  Moves r old = last r.1 ≡ outcome r.0 old new

  Moves-then :
      {T V : Type 0} (old : Option Time) (r : Result T × W) (next : T → Act W V)
      → last r.1 ≡ old
      → ((t : T) → r.0 ≡ ok t → Moves (next t r.1) old)
      → Moves (continue r next) old
  Moves-then old (ok t, w) next h k = k t refl
  Moves-then old (err e, w) next h k = h

module _ {W Schedule : Type 0} (api : ReportApi W) (cron : Cron Schedule) (texts : Texts)
    (last : W → Option Time) (store : IsReportStore api last) where
  status-stored :
      (r : Report) (status reason message : String) (w : W)
      → last w ≡ r.status.last_report_time
      → last (update_report_status api texts r status reason message w).1 ≡ last w
  unfolding update_report_status with_condition
  status-stored r status reason message w h =
      by
        (with_condition r (new_report_condition (api.clock w) report_running status reason message))
        refl (api.update_report _ w) refl
    where
      by :
          (s : Report)
          → s.status.last_report_time ≡ r.status.last_report_time
          → (x : Result Report × W) → api.update_report s w ≡ x
          → last x.1 ≡ last w
      by s same (ok r', v) e =
          ap (λ x. last x.1) (sym e) ∙ (store.updated s r' w (ap (λ x. x.0) e)).1 ∙ same ∙ sym h
      by s same (err x, v) e =
          ap (λ y. last y.1) (sym e) ∙ store.not_updated s x w (ap (λ y. y.0) e)

  status-report :
      (r r' : Report) (status reason message : String) (w : W)
      → (update_report_status api texts r status reason message w).0 ≡ ok r'
      → r'.status.last_report_time ≡ r.status.last_report_time
  unfolding update_report_status with_condition
  status-report r r' status reason message w h =
      ap (λ (x : Report). x.status.last_report_time) (store.updated _ r' w h).0

  -- The report that is stored has this last report time.
  abbrev Ends : Option Time → Completion → Type 0
  Ends t (failed e) = Unit
  Ends t (completed r again) = r.status.last_report_time ≡ t

  wait_for-Ends :
      (now : Time) (p : ReportPeriod) (r : Report) (o : Option ReportSchedule)
      → Ends r.status.last_report_time (wait_for cron texts.finished texts.waiting o now p r)
  wait_for-Ends now p r none = refl
  wait_for-Ends now p r (some s) = by (get_schedule cron s)
    where
      by :
          (c : Checked Schedule)
          → Ends r.status.last_report_time (wait_by cron texts.finished texts.waiting c now p r)
      by (err e) = tt
      by (ok x) = unfold with_condition in refl

  complete-Ends :
      (now : Time) (p : ReportPeriod) (r : Report)
      → Ends (some p.period_end) (complete_report cron texts.finished texts.waiting now p r)
  unfolding complete_report with_condition
  complete-Ends now p r = elim (Bool-cases (reached r.spec.reporting_end p.period_end)) [
    | inl e ↦ rw e refl
    | inr e ↦ rw e (wait_for-Ends now p _ r.spec.schedule)
  ]

  completion-Moves :
      (p : ReportPeriod) (c : Completion) (w : W)
      → Ends (some p.period_end) c
      → Moves last (some p.period_end) (store_completion api cron texts c w) (last w)
  completion-Moves p (failed e) w h = refl
  completion-Moves p (completed r again) w h =
      by (api.update_report r w') refl
      ∙ ap
          (λ o.
            outcome (store_completion api cron texts (completed r again) w).0 o (some p.period_end))
          (requeue-keeps again)
    where
      w' : W
      w' = requeue api cron texts again r w

      requeue-keeps : (o : Option Time) → last (requeue api cron texts o r w) ≡ last w
      requeue-keeps none = refl
      requeue-keeps (some t) = store.requeued r _ w

      rest : Report → Act W (Unit {0})
      rest r' v = ignored (queue_dependents api r' v)

      by :
          (x : Result Report × W)
          → api.update_report r w' ≡ x
          → Moves last (some p.period_end) (continue x rest) (last w')
      by (ok r', v) e =
          ap last (ignored-world (queue_dependents api r' v))
          ∙ dependents-keep last api store.queues r' v
          ∙ ap (λ y. last y.1) (sym e)
          ∙ (store.updated r r' w' (ap (λ y. y.0) e)).1
          ∙ h
          ∙ ap (λ o. outcome o (last w') (some p.period_end))
              (sym (ignored-ok (queue_dependents api r' v)))
      by (err x, v) e = ap (λ y. last y.1) (sym e) ∙ store.not_updated r x w' (ap (λ y. y.0) e)

  after_generation-Moves :
      (p : ReportPeriod) (r : Report) (g : Option String × W)
      → last g.1 ≡ r.status.last_report_time
      → Moves last (some p.period_end) (after_generation api cron texts p r g) (last g.1)
  after_generation-Moves p r (none, w) h = completion-Moves p _ w (complete-Ends (api.clock w) p r)
  after_generation-Moves p r (some e, w) h =
      Moves-then last (some p.period_end) (last w)
        (update_report_status api texts r _ _ (texts.failed e) w)
        (λ r'. fail (call_failed "generateReport" e)) (status-stored r _ _ _ w h)
        (λ t k. status-stored r _ _ _ w h)

  -- If the stored last report time is that of the report and the store of reports does what it is documented to do, then generating the report for a period stores the end of the
  -- period as the last report time if it succeeds, and leaves the stored one as it was if it does not.
  pub generate-last_report_time :
      (p : ReportPeriod) (table : PrestoTable) (query : Query) (r : Report) (w : W)
      → last w ≡ r.status.last_report_time
      → let g = generate api cron texts p table query r w in
        last g.1 ≡ outcome g.0 (last w) (some p.period_end)
  unfolding generate
  generate-last_report_time p table query r w h =
      let new = some p.period_end in
      let set =
        update_report_status api texts r condition_true
          (if r.spec.run_immediately then run_immediately_reason else scheduled_reason)
          (texts.running r.spec.run_immediately p) w in
      let kept : last set.1 ≡ last w = status-stored r _ _ _ w h in
      Moves-then last new (last w) set _ kept (λ r' k.
        let text = api.render_query query p r' set.1 in
        let kept' : last text.1 ≡ last w = store.rendered query p r' set.1 ∙ kept in
        Moves-then last new (last w) text _ kept' (λ t k'.
          Moves-then last new (last w) (fully_qualified_table_name table, text.1) _ kept'
            (λ name k''.
              let g = api.generate_report name t r'.spec.overwrite_existing_data text.1 in
              let kept'' : last g.1 ≡ last w =
                store.generated name t r'.spec.overwrite_existing_data text.1 ∙ kept' in
              after_generation-Moves p r' g (kept'' ∙ h ∙ sym (status-report r r' _ _ _ w k))
              ∙ ap (λ o. outcome (after_generation api cron texts p r' g).0 o new) kept'')))
