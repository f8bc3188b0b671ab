-- ===== src/Report.antt =====
-- The Reports of pkg/apis/metering/v1/report.go, as far as pkg/operator/reports.go reads and writes
-- them: the data of this component, whose operations are in the modules below.
pub mod Schedule
pub mod Status
pub mod Finalizers
pub mod Period
pub mod Completion
pub mod Gate
pub mod Run
pub mod Generator
use operator_metering.Prelude.{ℕ, String, Bool, Option, List}
use operator_metering.Prom.Chunks.{Time, Int64}
use operator_metering.Conditions.{ReportCondition}

pub record ScheduleHourly : Type 0 where
  pub minute : Int64
  pub second : Int64

pub record ScheduleDaily : Type 0 where
  pub hour : Int64
  pub minute : Int64
  pub second : Int64

pub record ScheduleWeekly : Type 0 where
  pub day_of_week : Option String
  pub hour : Int64
  pub minute : Int64
  pub second : Int64

pub record ScheduleMonthly : Type 0 where
  pub day_of_month : Option Int64
  pub hour : Int64
  pub minute : Int64
  pub second : Int64

-- The period is a string in the API; `cron` holds the expression.
pub record ReportSchedule : Type 0 where
  pub period : String
  pub cron : Option String
  pub hourly : Option ScheduleHourly
  pub daily : Option ScheduleDaily
  pub weekly : Option ScheduleWeekly
  pub monthly : Option ScheduleMonthly

pub record ReportSpec : Type 0 where
  pub query_name : String
  pub schedule : Option ReportSchedule
  pub reporting_start : Option Time
  pub reporting_end : Option Time
  pub overwrite_existing_data : Bool
  pub run_immediately : Bool

pub record ReportStatus : Type 0 where
  pub conditions : List ReportCondition
  pub last_report_time : Option Time
  pub next_report_time : Option Time
  pub table_ref : String

pub record Report : Type 0 where
  pub name : String
  pub namespace : String
  pub finalizers : List String
  pub deletion_timestamp : Option Time
  pub spec : ReportSpec
  pub status : ReportStatus
