-- ===== src/Report/Schedule.antt =====
-- `getSchedule` and `convertDayOfWeek` of pkg/operator/reports.go, and the validations of
-- pkg/operator/util.go. The cron library is a parameter: it is given the fields of the expression that
-- the source prints with `Sprintf`, or the expression that the user wrote.
pub mod Fields
use operator_metering.Prelude.{
  ℕ, ◌≤◌, String, ◌≡◌, refl, Bool, true, false, ◌&&◌, ◌||◌, Option, none, some, List, [], ◌∷◌, ltb,
  leb, str_eq, if◌then◌else◌, is_none, arith,
}
use operator_metering.Prom.Chunks.{Time, Int64, pos, neg}
use operator_metering.Report.{
  ScheduleHourly, ScheduleDaily, ScheduleWeekly, ScheduleMonthly, ReportSchedule,
}

pub data ScheduleError : Type 0 where
  invalid_hour invalid_minute invalid_second invalid_day_of_month : Int64 → ScheduleError
  invalid_day_of_week : String → ScheduleError
  no_cron_expression : ScheduleError
  invalid_period : String → ScheduleError
  cron_error : String → ScheduleError

-- A value, or the first validation that failed.
pub data Checked (T : Type 0) : Type 0 where
  err : ScheduleError → Checked T
  ok : T → Checked T

infixl 10 ◌>>=◌ ◌>>◌
abbrev pub ◌>>=◌ : {T V : Type 0} → Checked T → (T → Checked V) → Checked V
err failure >>= next = err failure
ok value >>= next = next value

abbrev pub ◌>>◌ : {V : Type 0} → Checked (Unit {0}) → Checked V → Checked V
err failure >> rest = err failure
ok _ >> rest = rest

-- A chain that is accepted was accepted at its first step.
pub >>=-ok :
    {T V : Type 0} (c : Checked T) (next : T → Checked V) (v : V)
    → (c >>= next) ≡ ok v
    → (t : T) × ((c ≡ ok t) × (next t ≡ ok v))
>>=-ok (err failure) next v e = cc
>>=-ok (ok t) next v e = (t, (refl, e))

-- `lo ≤ n && n ≤ hi` on int64, for bounds that are not negative
unfoldable pub in_range : ℕ → ℕ → Int64 → Bool
in_range lo hi (pos n) = leb lo n && leb n hi
in_range lo hi (neg n) = false

-- validateHour, validateMinute, validateSecond, validateDayOfMonth
unfoldable pub validate_hour : Int64 → Checked (Unit {0})
validate_hour h = if in_range 0 23 h then ok tt else err (invalid_hour h)

unfoldable pub validate_minute : Int64 → Checked (Unit {0})
validate_minute m = if in_range 0 59 m then ok tt else err (invalid_minute m)

unfoldable pub validate_second : Int64 → Checked (Unit {0})
validate_second s = if in_range 0 59 s then ok tt else err (invalid_second s)

unfoldable pub validate_day_of_month : Int64 → Checked (Unit {0})
validate_day_of_month d = if in_range 1 31 d then ok tt else err (invalid_day_of_month d)

-- The cases of the `switch` in `convertDayOfWeek`.
abbrev pub day_names : List (String × ℕ)
day_names =
    ("sun", 0)
    ∷ ("sunday", 0)
    ∷ ("mon", 1)
    ∷ ("monday", 1)
    ∷ ("tue", 2)
    ∷ ("tues", 2)
    ∷ ("tuesday", 2)
    ∷ ("wed", 3)
    ∷ ("weds", 3)
    ∷ ("wednesday", 3)
    ∷ ("thur", 4)
    ∷ ("thurs", 4)
    ∷ ("thursday", 4)
    ∷ ("fri", 5)
    ∷ ("friday", 5)
    ∷ ("sat", 6)
    ∷ ("saturday", 6)
    ∷ []

pub find_day : String → List (String × ℕ) → Option ℕ
find_day d [] = none
find_day d ((name, n) ∷ days) = let rest = find_day d days in if str_eq d name then some n else rest

-- the `switch` of `convertDayOfWeek`, after `strings.ToLower`
unfoldable pub day_number : String → Option ℕ
day_number d = find_day d day_names

-- A field of a cron expression.
pub data Field : Type 0 where
  star : Field
  field : Int64 → Field

-- The cron library and `strings.ToLower`.
pub record Cron (Schedule : Type 0) : Type 0 where
  pub to_lower : String → String
  pub parse : List Field → Checked Schedule
  pub parse_standard : String → Checked Schedule
  pub next : Schedule → Time → Time

abbrev pub or_default {ℓ} : {A : Type ℓ} → Option A → A → A
or_default none d = d
or_default (some a) d = a

abbrev pub zero64 : Int64
zero64 = pos 0

module _ {Schedule : Type 0} (cron : Cron Schedule) where
  unfoldable pub convert_day_of_week : String → Checked ℕ
  convert_day_of_week dow = elim (day_number (cron.to_lower dow)) [
    | some n ↦ ok n
    | none ↦ err (invalid_day_of_week dow)
  ]

  abbrev pub day_field : Option String → Checked ℕ
  day_field none = ok 0
  day_field (some dow) = convert_day_of_week dow

  -- The cases of `getSchedule`, each with its own part of the schedule.
  unfoldable pub cron_schedule : Option String → Checked Schedule
  cron_schedule none = err no_cron_expression
  cron_schedule (some e) = if str_eq e "" then err no_cron_expression else cron.parse_standard e

  unfoldable pub hourly_schedule : ScheduleHourly → Checked (List Field)
  unfolding validate_minute validate_second
  hourly_schedule s = do
    validate_minute s.minute
    validate_second s.second
    ok (field s.second ∷ field s.minute ∷ star ∷ star ∷ star ∷ star ∷ [])

  unfoldable pub daily_schedule : ScheduleDaily → Checked (List Field)
  unfolding validate_hour validate_minute validate_second
  daily_schedule s = do
    validate_hour s.hour
    validate_minute s.minute
    validate_second s.second
    ok (field s.second ∷ field s.minute ∷ field s.hour ∷ star ∷ star ∷ star ∷ [])

  unfoldable pub weekly_schedule : ScheduleWeekly → Checked (List Field)
  unfolding validate_hour validate_minute validate_second
  weekly_schedule s = do
    dow ← day_field s.day_of_week
    validate_hour s.hour
    validate_minute s.minute
    validate_second s.second
    ok (field s.second ∷ field s.minute ∷ field s.hour ∷ star ∷ star ∷ field (pos dow) ∷ [])

  unfoldable pub monthly_schedule : ScheduleMonthly → Checked (List Field)
  unfolding validate_hour validate_minute validate_second validate_day_of_month
  monthly_schedule s = do
    let dom = or_default s.day_of_month (pos 1)
    validate_day_of_month dom
    validate_hour s.hour
    validate_minute s.minute
    validate_second s.second
    ok (field s.second ∷ field s.minute ∷ field s.hour ∷ field dom ∷ star ∷ star ∷ [])

  -- The `switch` on the period, for all but the cron case: the fields that are printed.
  unfoldable pub schedule_fields : ReportSchedule → Checked (List Field)
  schedule_fields s =
      if str_eq s.period "hourly"
      then hourly_schedule (or_default s.hourly (record { minute = zero64; second = zero64 }))
      else if str_eq s.period "daily"
      then daily_schedule
          (or_default s.daily (record { hour = zero64; minute = zero64; second = zero64 }))
      else if str_eq s.period "weekly"
      then weekly_schedule (
          or_default s.weekly
            (record { day_of_week = none; hour = zero64; minute = zero64; second = zero64 }))
      else if str_eq s.period "monthly"
      then monthly_schedule (
          or_default s.monthly
            (record { day_of_month = none; hour = zero64; minute = zero64; second = zero64 }))
      else err (invalid_period s.period)

  -- getSchedule
  unfoldable pub get_schedule : ReportSchedule → Checked Schedule
  get_schedule s =
      if str_eq s.period "cron"
      then cron_schedule s.cron
      else (do fields ← schedule_fields s; cron.parse fields)
