-- ===== src/Report/Schedule/Fields.antt =====
-- The cron expressions that `getSchedule` (pkg/operator/reports.go) prints are well formed.
use operator_metering.Prelude.{
  ℕ, ◌≤◌, String, ◌≡◌, true, inl, inr, Option, none, some, List, [], ◌∷◌, arith, str_eq, Bool-cases,
  All, sym,
}
use mathlib.Core.Path.{subst}
use operator_metering.Prom.Chunks.{Int64, pos, neg}
use operator_metering.Report.{
  ScheduleHourly, ScheduleDaily, ScheduleWeekly, ScheduleMonthly, ReportSchedule,
}
use operator_metering.Report.Schedule.{
  ok, ◌>>◌, >>=-ok, Field, star, field, Cron, day_number, find_day, day_names, or_default,
  convert_day_of_week, day_field, hourly_schedule, daily_schedule, weekly_schedule,
  monthly_schedule, schedule_fields, validate_hour, validate_minute, validate_second, in_range,
}

-- A field is a star or a number between `lo` and `hi`.
abbrev pub IsField : ℕ → ℕ → Field → Type 0
IsField lo hi star = Unit
IsField lo hi (field (pos n)) = (lo ≤ n) × (n ≤ hi)
IsField lo hi (field (neg n)) = ⊥

-- Seconds, minutes, hours, days of the month, months and days of the week, the seconds not a star.
abbrev pub IsCron : List Field → Type 0
IsCron (field s ∷ m ∷ h ∷ dom ∷ mon ∷ dow ∷ []) =
    IsField 0 59 (field s)
    × IsField 0 59 m
    × IsField 0 23 h
    × IsField 1 31 dom
    × IsField 1 12 mon
    × IsField 0 6 dow
IsCron _ = ⊥

find_day-le :
    (d : String) (days : List (String × ℕ)) (m : ℕ)
    → All (λ p. p.1 ≤ m) days
    → (n : ℕ) → find_day d days ≡ some n
    → n ≤ m
unfolding find_day
find_day-le d [] m h n e = cc
find_day-le d ((name, k) ∷ days) m h n e = ground (arith, find_day-le d days m h.1 n, h.0)

day_number-le : (d : String) (n : ℕ) → day_number d ≡ some n → n ≤ 6
unfolding day_number
day_number-le d = find_day-le d day_names 6 (omega arith)

in_range-IsField : (lo hi : ℕ) (n : Int64) → in_range lo hi n ≡ true → IsField lo hi (field n)
unfolding in_range
in_range-IsField lo hi (pos n) h = ground arith
in_range-IsField lo hi (neg n) h = cc

module _ {Schedule : Type 0} (cron : Cron Schedule) (fs : List Field) where
  hourly-IsCron : (s : ScheduleHourly) → hourly_schedule cron s ≡ ok fs → IsCron fs
  unfolding hourly_schedule
  hourly-IsCron s e =
      let (m, sec, eq) = accepted in
      subst IsCron (sym eq)
        (in_range-IsField 0 59 s.second sec, in_range-IsField 0 59 s.minute m, tt, tt, tt, tt)
    where
      accepted :
          (in_range 0 59 s.minute ≡ true)
          × (in_range 0 59 s.second ≡ true)
          × (fs ≡ field s.second ∷ field s.minute ∷ star ∷ star ∷ star ∷ star ∷ [])
      accepted = ground arith

  daily-IsCron : (s : ScheduleDaily) → daily_schedule cron s ≡ ok fs → IsCron fs
  unfolding daily_schedule
  daily-IsCron s e =
      let (h, m, sec, eq) = accepted in
      subst IsCron (sym eq) (
        in_range-IsField 0 59 s.second sec,
        in_range-IsField 0 59 s.minute m,
        in_range-IsField 0 23 s.hour h,
        tt,
        tt,
        tt,
      )
    where
      accepted :
          (in_range 0 23 s.hour ≡ true)
          × (in_range 0 59 s.minute ≡ true)
          × (in_range 0 59 s.second ≡ true)
          × (fs ≡ field s.second ∷ field s.minute ∷ field s.hour ∷ star ∷ star ∷ star ∷ [])
      accepted = ground arith

  monthly-IsCron : (s : ScheduleMonthly) → monthly_schedule cron s ≡ ok fs → IsCron fs
  unfolding monthly_schedule
  monthly-IsCron s e =
      let (d, h, m, sec, eq) = accepted in
      subst IsCron (sym eq) (
        in_range-IsField 0 59 s.second sec,
        in_range-IsField 0 59 s.minute m,
        in_range-IsField 0 23 s.hour h,
        in_range-IsField 1 31 (or_default s.day_of_month (pos 1)) d,
        tt,
        tt,
      )
    where
      accepted :
          (in_range 1 31 (or_default s.day_of_month (pos 1)) ≡ true)
          × (in_range 0 23 s.hour ≡ true)
          × (in_range 0 59 s.minute ≡ true)
          × (in_range 0 59 s.second ≡ true)
          × (fs
              ≡ field s.second
                ∷ field s.minute
                ∷ field s.hour
                ∷ field (or_default s.day_of_month (pos 1))
                ∷ star
                ∷ star
                ∷ [])
      accepted = ground arith

  day_field-le : (d : Option String) (n : ℕ) → day_field cron d ≡ ok n → n ≤ 6
  unfolding convert_day_of_week
  day_field-le none n e = ground arith
  day_field-le (some d) n e = ground (arith, day_number-le (cron.to_lower d) n)

  weekly_rest :
      (s : ScheduleWeekly) (dow : ℕ)
      → (validate_hour s.hour
          >> (validate_minute s.minute
              >> (validate_second s.second
                  >> ok (
                      field s.second
                      ∷ field s.minute
                      ∷ field s.hour
                      ∷ star
                      ∷ star
                      ∷ field (pos dow)
                      ∷ []))))
        ≡ ok fs
      → (in_range 0 23 s.hour ≡ true)
        × (in_range 0 59 s.minute ≡ true)
        × (in_range 0 59 s.second ≡ true)
        × (fs ≡ field s.second ∷ field s.minute ∷ field s.hour ∷ star ∷ star ∷ field (pos dow) ∷ [])
  unfolding validate_hour validate_minute validate_second
  weekly_rest s dow e = ground arith

  weekly-IsCron : (s : ScheduleWeekly) → weekly_schedule cron s ≡ ok fs → IsCron fs
  unfolding weekly_schedule
  weekly-IsCron s e =
      let (dow, (day, rest)) = >>=-ok (day_field cron s.day_of_week) _ _ e in
      let (h, m, sec, eq) = weekly_rest s dow rest in
      subst IsCron (sym eq) (
        in_range-IsField 0 59 s.second sec,
        in_range-IsField 0 59 s.minute m,
        in_range-IsField 0 23 s.hour h,
        tt,
        tt,
        (omega arith, day_field-le s.day_of_week dow day),
      )

  -- Whatever a user writes into a schedule, the expression that is printed for the cron library has
  -- six fields within their ranges.
  pub schedule_fields-IsCron : (s : ReportSchedule) → schedule_fields cron s ≡ ok fs → IsCron fs
  unfolding schedule_fields
  schedule_fields-IsCron s e = elim (Bool-cases (str_eq s.period "hourly")) [
    | inl a ↦ hourly-IsCron _ (rw a at e)
    | inr a ↦ elim (Bool-cases (str_eq s.period "daily")) [
      | inl b ↦ daily-IsCron _ (rw (a, b) at e)
      | inr b ↦ elim (Bool-cases (str_eq s.period "weekly")) [
        | inl c ↦ weekly-IsCron _ (rw (a, b, c) at e)
        | inr c ↦ elim (Bool-cases (str_eq s.period "monthly")) [
          | inl d ↦ monthly-IsCron _ (rw (a, b, c, d) at e)
          | inr d ↦
              absurd (let x : schedule_fields cron s ≡ ok fs = e in ground (arith, a, b, c, d))
        ]
      ]
    ]
  ]
