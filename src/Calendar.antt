-- ===== src/Calendar.antt =====
-- Dates of internal/rota and internal/database. Each date in the program is a DATE at midnight UTC
-- and has one text form, so a date and its text are the number of days since 1 January of year 1,
-- the zero `time.Time`, which was a Monday. `AddDate(0, 0, 1)` is `suc`.
use madhatter.Base.{
  ℕ, zero, suc, ◌+◌, ◌-◌, ◌%◌, Bool, true, false, ◌||◌, Option, none, some, ◌==◌, if◌then◌else◌,
}
pub mod WorkingDays

abbrev pub Day : Type 0
Day = ℕ

-- `time.Time{}`, and `IsZero`.
abbrev pub zero_day : Day
zero_day = 0

-- Monday is 0.
abbrev pub weekday : Day → ℕ
weekday d = d % 7

abbrev pub saturday : ℕ
saturday = 5

abbrev pub sunday : ℕ
sunday = 6

-- `HolidayChecker`, which may be nil.
abbrev pub HolidayChecker : Type 0
HolidayChecker = Option (Day → Bool)

unfoldable pub is_holiday : HolidayChecker → Day → Bool
is_holiday none d = false
is_holiday (some check) d = check d

abbrev pub is_weekend : Day → Bool
is_weekend d = weekday d == saturday || weekday d == sunday

unfoldable pub should_skip_date : HolidayChecker → Day → Bool
unfolding is_holiday
should_skip_date checker d =
    if is_weekend d then true else if is_holiday checker d then true else false

-- The loop of `workingDaysBetween`, over the `n` days that are left.
unfoldable pub count_working : HolidayChecker → Day → ℕ → ℕ
count_working checker d zero = 0
count_working checker d (suc n) =
    let rest = count_working checker (suc d) n in
    if should_skip_date checker d then rest else suc rest

unfoldable pub working_days_between : HolidayChecker → Day → Day → ℕ
working_days_between checker from to = count_working checker from (to - from)
