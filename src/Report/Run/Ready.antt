-- ===== src/Report/Run/Ready.antt =====
-- When `runReport` (pkg/operator/reports.go) may generate a report: an observation of the world that only the generation
-- changes is changed only if the Report was not finished, valid, and its period had ended with its dependencies met.
use operator_metering.Prelude.{
  ℕ, ◌≤◌, String, ◌≡◌, ◌≢◌, refl, sym, ap, ◌∙◌, Bool, true, false, ◌⊎◌, inl, inr, Option, map, All,
  ltb, arith, Bool-cases, if◌then◌else◌,
}
use mathlib.Core.Path.{subst}
use operator_metering.Prom.Chunks.{Time}
use operator_metering.Kube.{Result, ok, err, Act, continue}
use operator_metering.Conditions.{ReportCondition}
use operator_metering.Dependencies.{Query}
use operator_metering.Dependencies.Validate.{QueryDependencies}
use operator_metering.Hive.Tables.{PrestoTable}
use operator_metering.Report.{Report}
use operator_metering.Report.Schedule.{Cron}
use operator_metering.Report.Status.{is_report_finished}
use operator_metering.Report.Period.{
  ReportPeriod, PeriodResult, period, failed, must_have_both, panics, get_report_period,
}
use operator_metering.Report.Gate.{Covers, Reported, has_unmet, unmet_dependencies-Covers}
use operator_metering.Report.Run.{ReportApi, Texts, Validation, accepted, refused, validate_report}
use operator_metering.Report.Run.Table.{ensure_table}
use operator_metering.Report.Run.Generate.{
  run_period, check_dependencies, generate, wait, report_unmet, unmet_of, queue_reports,
  queue_data_sources,
}
use operator_metering.Report.Run.Handler.{run_report, by_validation, by_period, running_of}
use operator_metering.Report.Run.Keeps.{
  IsQuiet, validate-keeps, set_invalid-keeps, wait-keeps, unmet-keeps, queues-keep,
}
use operator_metering.Report.Run.Keeps.Table.{table-keeps}

-- A chain that changes an observation which its first step keeps has a first step that succeeds and a rest that changes it.
changed-rest :
    {W T V : Type 0} (f : W → ℕ) (r : Result T × W) (next : T → Act W V)
    → f (continue r next).1 ≢ f r.1
    → (t : T) × ((r.0 ≡ ok t) × (f (next t r.1).1 ≢ f r.1))
changed-rest f (ok t, w) next h = (t, (refl, h))
changed-rest f (err e, w) next h = absurd (h refl)

module _ {W Schedule : Type 0} (api : ReportApi W) (cron : Cron Schedule) (texts : Texts)
    (to_lower replace : String → String) (enable_finalizers : Bool) where
  -- The report runs immediately, or its period has ended and the dependencies cover it.
  abbrev pub MayGenerate : Time → ReportPeriod → QueryDependencies → Report → Type 0
  MayGenerate now p deps r =
      (r.spec.run_immediately ≡ true)
      ⊎ ((p.period_end ≤ now)
          × (All (Covers p) (map api.importer deps.report_data_sources)
              × All (Reported p) (map api.reported_until deps.reports)))

  -- A report and a world in which it may be generated: what the validation, the period and the table are.
  pub record IsReady (r : Report) (w : W) : Type 0 where
    pub unfinished : is_report_finished r ≡ false
    pub query : Query
    pub deps : QueryDependencies
    pub p : ReportPeriod
    pub dated : Report
    pub table : PrestoTable
    pub stored : Report
    pub is_valid : (validate_report api texts r w).0 ≡ accepted query deps
    pub has_period :
        get_report_period cron (api.clock (validate_report api texts r w).1) r ≡ period p dated
    pub has_table :
        (ensure_table api to_lower replace enable_finalizers dated query
          (validate_report api texts r w).1).0
        ≡ ok (table, stored)
    pub may_generate : MayGenerate (api.clock (validate_report api texts r w).1) p deps stored

  module _ (f : W → ℕ) (quiet : IsQuiet f api) where
    later :
        (running : Option ReportCondition) (now : Time) (p : ReportPeriod) (table : PrestoTable)
        (query : Query) (deps : QueryDependencies) (r : Report) (w : W)
        → r.spec.run_immediately ≡ false
        → run_period api cron texts running now p table query deps r w
          ≡ (if ltb now p.period_end
                then wait api cron texts now p r
                else check_dependencies api cron texts running p table query deps r)
              w
    unfolding run_period
    later running now p table query deps r w e =
        ap
          (λ b.
            (if◌then◌else◌ {A = Act W (Unit {0})} b (generate api cron texts p table query r) (
                if ltb now p.period_end
                then wait api cron texts now p r
                else check_dependencies api cron texts running p table query deps r))
              w)
          e

    waits-keep :
        (running : Option ReportCondition) (now : Time) (p : ReportPeriod) (table : PrestoTable)
        (query : Query) (deps : QueryDependencies) (r : Report) (w : W)
        → r.spec.run_immediately ≡ false
        → (ltb now p.period_end ≡ true) ⊎ (has_unmet (unmet_of api cron texts p deps) ≡ true)
        → f (run_period api cron texts running now p table query deps r w).1 ≡ f w
    unfolding check_dependencies
    waits-keep running now p table query deps r w e h =
        ap (λ x. f x.1) (later running now p table query deps r w e) ∙ by (ltb now p.period_end) h
      where
        by :
            (b : Bool)
            → (b ≡ true) ⊎ (has_unmet (unmet_of api cron texts p deps) ≡ true)
            → f
                ((if b
                    then wait api cron texts now p r
                    else check_dependencies api cron texts running p table query deps r)
                  w).1
              ≡ f w
        by true h = wait-keeps f api texts quiet cron now p r w
        by false (inl l) = cc
        by false (inr u) =
            ap
              (λ b.
                f
                  ((if◌then◌else◌ {A = Act W (Unit {0})} b
                      (report_unmet api cron texts running p (unmet_of api cron texts p deps) r)
                      (generate api cron texts p table query r))
                    (queue_reports api cron texts p deps.reports
                      (queue_data_sources api cron texts p deps.report_data_sources w))).1)
              u
            ∙ unmet-keeps f api texts quiet cron running p (unmet_of api cron texts p deps) r _
            ∙ queues-keep f api texts quiet cron p deps w

    run_period-MayGenerate :
        (running : Option ReportCondition) (now : Time) (p : ReportPeriod) (table : PrestoTable)
        (query : Query) (deps : QueryDependencies) (r : Report) (w : W)
        → f (run_period api cron texts running now p table query deps r w).1 ≢ f w
        → MayGenerate now p deps r
    run_period-MayGenerate running now p table query deps r w h =
        elim (Bool-cases r.spec.run_immediately) [
          | inl e ↦ inl e
          | inr e ↦ elim (Bool-cases (ltb now p.period_end)) [
            | inl l ↦ absurd (h (waits-keep running now p table query deps r w e (inl l)))
            | inr l ↦ elim (Bool-cases (has_unmet (unmet_of api cron texts p deps))) [
              | inl u ↦ absurd (h (waits-keep running now p table query deps r w e (inr u)))
              | inr u ↦ inr (
                ground arith,
                (unmet_dependencies-Covers p (map api.importer deps.report_data_sources)
                      (map api.reported_until deps.reports)).0
                    u,
              )
            ]
          ]
        ]

    module _ (r : Report) (w : W) (unfinished : is_report_finished r ≡ false) where
      period-IsReady :
          (query : Query) (deps : QueryDependencies) (w' : W)
          → validate_report api texts r w ≡ (accepted query deps, w')
          → (x : PeriodResult) → get_report_period cron (api.clock w') r ≡ x
          → f
              (by_period api cron texts to_lower replace enable_finalizers
                (running_of api cron texts to_lower replace enable_finalizers r)
                (api.clock w')
                query
                deps
                x
                w').1
            ≢ f w'
          → IsReady r w
      period-IsReady query deps w' e (failed x) k h = absurd (h refl)
      period-IsReady query deps w' e must_have_both k h = absurd (h refl)
      period-IsReady query deps w' e panics k h = absurd (h refl)
      period-IsReady query deps w' e (period p dated) k h =
          let ensured = ensure_table api to_lower replace enable_finalizers dated query w' in
          let same : f ensured.1 ≡ f w' =
            table-keeps f api texts quiet to_lower replace enable_finalizers dated query w' in
          let running = running_of api cron texts to_lower replace enable_finalizers r in
          let ((table, stored), (a, b)) =
            changed-rest f ensured
              (λ t. run_period api cron texts running (api.clock w') p t.0 query deps t.1)
              (λ x. h (x ∙ same)) in
          record {
            unfinished = unfinished;
            query = query;
            deps = deps;
            p = p;
            dated = dated;
            table = table;
            stored = stored;
            is_valid = ap (λ x. x.0) e;
            has_period = ap (λ x. get_report_period cron (api.clock x.1) r) e ∙ k;
            has_table =
                ap (λ x. (ensure_table api to_lower replace enable_finalizers dated query x.1).0) e
                ∙ a;
            may_generate =
                subst (λ now. MayGenerate now p deps stored) (sym (ap (λ x. api.clock x.1) e))
                  (run_period-MayGenerate running (api.clock w') p table query deps stored ensured.1
                    b);
          }

      validation-IsReady :
          (v : Validation × W)
          → validate_report api texts r w ≡ v
          → f (by_validation api cron texts to_lower replace enable_finalizers r v).1 ≢ f v.1
          → IsReady r w
      validation-IsReady (refused x, w') e h =
          absurd (h (set_invalid-keeps f api texts quiet r x w'))
      validation-IsReady (accepted query deps, w') e h =
          period-IsReady query deps w' e (get_report_period cron (api.clock w') r) refl h

    -- If handling a report changes an observation of the world that no call but `GenerateReport` changes, then the report was
    -- not finished, it was valid, it has a period and a table, and the stored report runs immediately or the period has
    -- ended, the imported data covers it and the reports that have reported have reported up to its end.
    pub run_report-IsReady :
        (r : Report) (w : W)
        → f (run_report api cron texts to_lower replace enable_finalizers r w).1 ≢ f w
        → IsReady r w
    unfolding run_report
    run_report-IsReady r w h = elim (Bool-cases (is_report_finished r)) [
      | inl e ↦ absurd (h (rw e refl))
      | inr e ↦
          validation-IsReady r w e (validate_report api texts r w) refl
            (λ x. h (rw e (x ∙ validate-keeps f api texts quiet r w)))
    ]
