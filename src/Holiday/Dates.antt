-- ===== src/Holiday/Dates.antt =====
-- `time.Parse("2006-01-02", …)` and the range of dates of internal/holiday/store.go. The clock is read
-- in UTC.
use madhatter.Base.{
  ℕ, zero, suc, ◌+◌, ◌-◌, ◌*◌, ◌%◌, ltb, leb, Bool, true, false, not, ◌&&◌, ◌||◌, ◌==◌, Option,
  none, some, List, [], ◌∷◌, Text, keep, text_leb, if◌then◌else◌,
}
use madhatter.Base.Sort.{sort_by}
use madhatter.Holiday.{Holiday, Store}

pub record Civil : Type 0 where
  pub year : ℕ
  pub month : ℕ
  pub day : ℕ

abbrev pub is_leap : ℕ → Bool
is_leap y = (y % 4 == 0) && (not (y % 100 == 0) || (y % 400 == 0))

abbrev pub days_in : ℕ → ℕ → ℕ
days_in m y =
    if m == 2
    then (if is_leap y then 29 else 28)
    else if m == 4 || (m == 6 || (m == 9 || m == 11))
    then 30
    else 31

abbrev pub is_digit : ℕ → Bool
is_digit c = leb 48 c && leb c 57

abbrev pub are_digits : List ℕ → Bool
are_digits [] = true
are_digits (c ∷ cs) = is_digit c && are_digits cs

abbrev pub number_of : List ℕ → ℕ → ℕ
number_of [] n = n
number_of (c ∷ cs) n = number_of cs (n * 10 + (c - 48))

abbrev pub dash : ℕ
dash = 45

abbrev pub check_civil : Civil → Option Civil
check_civil d =
    if leb 1 d.month && (leb d.month 12 && (leb 1 d.day && leb d.day (days_in d.month d.year)))
    then some d
    else none

-- Four digits, two and two, each of them needed, and a day that the month has.
unfoldable pub parse_date : Text → Option Civil
parse_date (a ∷ b ∷ c ∷ d ∷ x ∷ e ∷ f ∷ y ∷ g ∷ h ∷ []) =
    if x == dash && (y == dash && are_digits (a ∷ b ∷ c ∷ d ∷ e ∷ f ∷ g ∷ h ∷ []))
    then check_civil (record {
      year = number_of (a ∷ b ∷ c ∷ d ∷ []) 0;
      month = number_of (e ∷ f ∷ []) 0;
      day = number_of (g ∷ h ∷ []) 0;
    })
    else none
parse_date _ = none

-- An instant: a day, and the nanoseconds of it that have passed.
pub record Instant : Type 0 where
  pub day : Civil
  pub elapsed : ℕ

abbrev pub civil_lt : Civil → Civil → Bool
civil_lt a b =
    ltb a.year b.year
    || ((a.year == b.year) && (ltb a.month b.month || ((a.month == b.month) && ltb a.day b.day)))

abbrev pub civil_eq : Civil → Civil → Bool
civil_eq a b = (a.year == b.year) && ((a.month == b.month) && (a.day == b.day))

-- The start of a day is before an instant, or after it.
abbrev pub begins_before : Civil → Instant → Bool
begins_before d t = civil_lt d t.day || (civil_eq d t.day && ltb 0 t.elapsed)

abbrev pub begins_after : Civil → Instant → Bool
begins_after d t = civil_lt t.day d

-- `AddDate` by years: a 29 February that the year lacks is 1 March.
abbrev pub normalised : Civil → Civil
normalised d =
    if d.month == 2 && (d.day == 29 && not (is_leap d.year))
    then record { year = d.year; month = 3; day = 1 }
    else d

abbrev pub one_year_ago : Instant → Instant
one_year_ago now = record now { day = normalised (record now.day { year = now.day.year - 1 }) }

abbrev pub years_ahead : ℕ
years_ahead = 2

abbrev pub two_years_ahead : Instant → Instant
two_years_ahead now = record now {
  day = normalised (record now.day { year = now.day.year + years_ahead });
}

-- Whether there is no error.
unfoldable pub validate_holiday_date : Instant → Text → Bool
unfolding parse_date
validate_holiday_date now date = elim (parse_date date) [
  | none ↦ false
  | some d ↦ not (begins_before d (one_year_ago now)) && not (begins_after d (two_years_ahead now))
]

-- `AddDate` by days.
abbrev pub next_day : Civil → Civil
next_day d =
    if ltb d.day (days_in d.month d.year)
    then record d { day = suc d.day }
    else if ltb d.month 12
    then record { year = d.year; month = suc d.month; day = 1 }
    else record { year = suc d.year; month = 1; day = 1 }

abbrev pub add_days : ℕ → Civil → Civil
add_days zero d = d
add_days (suc n) d = add_days n (next_day d)

abbrev pub is_upcoming : Instant → ℕ → Holiday → Bool
is_upcoming now days_ahead h = elim (parse_date h.date) [
  | none ↦ false
  | some d ↦
      begins_after d now && begins_before d (record now { day = add_days days_ahead now.day })
]

unfoldable pub get_upcoming_holidays : Instant → ℕ → Store → List Holiday
unfolding sort_by
get_upcoming_holidays now days_ahead s =
    sort_by (λ (a b : Holiday). text_leb a.date b.date) (keep (is_upcoming now days_ahead) s)

abbrev pub any_year : ℕ → List ℕ → Bool
any_year y [] = false
any_year y (z ∷ zs) = z == y || any_year y zs

abbrev pub is_of_years : List ℕ → Holiday → Bool
is_of_years years h = elim (parse_date h.date) [ none ↦ false | some d ↦ any_year d.year years ]

unfoldable pub filter_holidays_by_year : List Holiday → List ℕ → List Holiday
filter_holidays_by_year hs [] = hs
filter_holidays_by_year hs (y ∷ ys) = keep (is_of_years (y ∷ ys)) hs

abbrev pub is_within : Civil → Civil → Holiday → Bool
is_within start last h = elim (parse_date h.date) [
  | none ↦ false
  | some d ↦ not (civil_lt d start) && not (civil_lt last d)
]

-- `none` is an error: one of the bounds is no date.
unfoldable pub filter_holidays_by_date_range : List Holiday → Text → Text → Option (List Holiday)
filter_holidays_by_date_range hs start_date end_date = elim (parse_date start_date) [
  | none ↦ none
  | some start ↦ elim (parse_date end_date) [
    | none ↦ none
    | some last ↦ some (keep (is_within start last) hs)
  ]
]
