-- ===== src/Report/Finalizers.antt =====
-- The finalizer of a Report: `addReportFinalizer`, `removeReportFinalizer` and `reportNeedsFinalizer`
-- of pkg/operator/reports.go, as far as the object that is sent to the API.
use operator_metering.Prelude.{
  String, ◌≡◌, refl, Bool, true, false, ◌&&◌, not, Option, none, some, [], ◌∷◌, ◌++◌, arith,
  is_none, if◌then◌else◌,
}
use operator_metering.Slice.{contains_string, remove_string, contains-append_self, remove-append}
use operator_metering.Report.{Report}

abbrev pub report_finalizer : String
report_finalizer = "metering.openshift.io/report"

unfoldable pub report_needs_finalizer : Report → Bool
report_needs_finalizer r =
    is_none r.deletion_timestamp && not (contains_string r.finalizers report_finalizer none)

unfoldable pub add_report_finalizer : Report → Report
add_report_finalizer r = record r { finalizers = r.finalizers ++ report_finalizer ∷ [] }

-- `none` if the finalizer is not there, and nothing is sent
unfoldable pub remove_report_finalizer : Report → Option Report
remove_report_finalizer r =
    if contains_string r.finalizers report_finalizer none
    then some (record r { finalizers = remove_string r.finalizers report_finalizer none })
    else none

-- A report that needed the finalizer and was given it does not need it any more, and removing it
-- gives back the report as it was.
pub remove-add_report_finalizer :
    (r : Report)
    → report_needs_finalizer r ≡ true
    → (report_needs_finalizer (add_report_finalizer r) ≡ false)
      × (remove_report_finalizer (add_report_finalizer r) ≡ some r)
unfolding report_needs_finalizer add_report_finalizer remove_report_finalizer
remove-add_report_finalizer r h = (
  ground (arith, contains-append_self r.finalizers report_finalizer),
  rw (contains-append_self r.finalizers report_finalizer)
      (rw (remove-append r.finalizers report_finalizer (ground arith)) refl),
)
