-- ===== src/Report/Status.antt =====
-- `isReportFinished`, `updateReportStatus`, `setReportStatusInvalidReport` and the checks on the spec
-- in `validateReport`, of pkg/operator/reports.go.
use operator_metering.Prelude.{
  ◌<◌, String, ◌≡◌, refl, ◌≢◌, ◌↔◌, ap, Bool, true, false, ◌&&◌, ◌||◌, not, Option, none, some,
  List, ltb, ◌==◌, str_eq, eq_iff, if◌then◌else◌, is_none, arith, ◌⊎◌,
}
use operator_metering.Prom.Chunks.{Time}
use operator_metering.Conditions.{
  ReportCondition, get_report_condition, set_report_condition, new_report_condition,
  report_finished_reason, invalid_report_reason, condition_true, condition_false, report_running,
}
use operator_metering.Conditions.Laws.{set-unchanged}
use operator_metering.Report.{ReportSpec, Report}

abbrev pub is_after : Option Time → Option Time → Bool
is_after (some a) (some b) = ltb b a
is_after _ _ = false

-- isReportFinished, on the running condition
unfoldable pub finished_by : Report → Option ReportCondition → Bool
finished_by r none = false
finished_by r (some c) =
    if str_eq c.reason report_finished_reason && not (str_eq c.status condition_true)
    then (if is_none r.spec.schedule
        then true
        else if is_none r.spec.reporting_end
        then false
        else if is_after r.spec.reporting_end r.status.last_report_time
        then false
        else true)
    else false

unfoldable pub is_report_finished : Report → Bool
unfolding finished_by
is_report_finished r = finished_by r (get_report_condition r.status.conditions report_running)

-- The errors of `validateReport` that its own checks give.
pub data SpecError : Type 0 where
  query_unset : SpecError
  end_not_after_start : Time → Time → SpecError
  run_immediately_without_end : SpecError

abbrev pub not_after : Option Time → Option Time → Bool
not_after (some start) (some end) = ltb end start || start == end
not_after _ _ = false

abbrev pub or_zero : Option Time → Time
or_zero none = 0
or_zero (some t) = t

-- the checks before the query is fetched
unfoldable pub validate_spec : ReportSpec → Option SpecError
validate_spec s =
    if str_eq s.query_name ""
    then some query_unset
    else if not_after s.reporting_start s.reporting_end
    then some (end_not_after_start (or_zero s.reporting_start) (or_zero s.reporting_end))
    else if is_none s.reporting_end && s.run_immediately
    then some run_immediately_without_end
    else none

-- A report with a condition set: what `updateReportStatus` sends to the API.
unfoldable pub with_condition : Report → ReportCondition → Report
with_condition r c =
    let s = r.status in
    record r { status = record s { conditions = set_report_condition s.conditions c } }

-- setReportStatusInvalidReport: the report that is sent to the API, if one is.
abbrev pub is_invalid_with : String → Option ReportCondition → Bool
is_invalid_with msg none = false
is_invalid_with msg (some c) =
    str_eq c.status condition_false
    && (str_eq c.reason invalid_report_reason && str_eq c.message msg)

unfoldable pub set_report_status_invalid_report : Time → Report → String → Option Report
unfolding with_condition
set_report_status_invalid_report now r msg =
    if is_invalid_with msg (get_report_condition r.status.conditions report_running)
    then none
    else some (
        with_condition r
          (new_report_condition now report_running condition_false invalid_report_reason msg))

abbrev pub AreOrdered : Option Time → Option Time → Type 0
AreOrdered (some a) (some b) = a < b
AreOrdered _ _ = Unit

-- A query is named, the end is after the start where both are set, and a report that runs immediately
-- has an end.
pub record IsValidSpec (s : ReportSpec) : Type 0 where
  pub query_set : s.query_name ≢ ""
  pub ordered : AreOrdered s.reporting_start s.reporting_end
  pub end_set : (s.run_immediately ≡ false) ⊎ (s.reporting_end ≢ none)

-- A spec that is accepted is valid.
pub validate_spec-IsValidSpec : (s : ReportSpec) → validate_spec s ≡ none → IsValidSpec s
unfolding validate_spec
validate_spec-IsValidSpec s h = record {
  query_set = λ e. ground (arith, eq_iff s.query_name "");
  ordered = AreOrdered-by s.reporting_start s.reporting_end (λ a b p q. ground arith);
  end_set = ground arith;
}
  where
    AreOrdered-by :
        (o p : Option Time) → ((a b : Time) → o ≡ some a → p ≡ some b → a < b) → AreOrdered o p
    AreOrdered-by (some a) (some b) f = f a b refl refl
    AreOrdered-by (some a) none f = tt
    AreOrdered-by none (some b) f = tt
    AreOrdered-by none none f = tt

-- The report is finished: its running condition says so, and it runs once or has an end that it has
-- reached.
abbrev pub IsDone : Report → Option ReportCondition → Type 0
IsDone r none = ⊥
IsDone r (some c) =
    (c.reason ≡ report_finished_reason)
    × (c.status ≢ condition_true)
    × ((r.spec.schedule ≡ none)
        ⊎ (r.spec.reporting_end ≢ none)
          × (is_after r.spec.reporting_end r.status.last_report_time ≡ false))

finished_by-IsDone :
    (r : Report) (o : Option ReportCondition) → (finished_by r o ≡ true) ↔ IsDone r o
unfolding finished_by
finished_by-IsDone r none = (λ h. cc, λ h. absurd h)
finished_by-IsDone r (some c) = (
  λ h. ground (arith, eq_iff c.reason report_finished_reason, eq_iff c.status condition_true),
  λ h. ground (arith, eq_iff c.reason report_finished_reason, eq_iff c.status condition_true),
)

-- A report is left alone exactly if its running condition has the reason Finished and is not true,
-- and it has no schedule, or it has an end that is not after the last report time.
pub is_report_finished-IsDone :
    (r : Report)
    → (is_report_finished r ≡ true)
      ↔ IsDone r (get_report_condition r.status.conditions report_running)
unfolding is_report_finished
is_report_finished-IsDone r =
    finished_by-IsDone r (get_report_condition r.status.conditions report_running)

-- A report that is invalid already, with another message: the update that is sent changes nothing,
-- so the old message stays.
pub invalid_message_stays :
    (now : Time) (r : Report) (msg : String) (c : ReportCondition)
    → get_report_condition r.status.conditions report_running ≡ some c
    → c.status ≡ condition_false
    → c.reason ≡ invalid_report_reason
    → c.message ≢ msg
    → set_report_status_invalid_report now r msg ≡ some r
unfolding set_report_status_invalid_report new_report_condition
invalid_message_stays now r msg c h s e m =
    let changed : is_invalid_with msg (some c) ≡ false = ground (arith, eq_iff c.message msg) in
    let t = r.status in
    rw h (
      rw changed (
        ap
          (λ (cs : List ReportCondition). some (record r { status = record t { conditions = cs } }))
          (set-unchanged t.conditions _ c h s e)))
