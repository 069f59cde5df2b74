-- ===== src/Examples/Feeds.antt =====
-- Runs of internal/holiday: one feed that answers with two holidays, and one that fails.
use madhatter.Base.{
  ◌≡◌, refl, true, false, none, [], ◌∷◌, map, Text, codes, text_eq, any, All, is_empty, is_space,
  ◌⊎◌, if◌then◌else◌,
}
use madhatter.Holiday.{is_holiday}
use madhatter.Holiday.Dates.{Instant, parse_date, validate_holiday_date}
use madhatter.Holiday.Feed.{some_holidays, parse_ical_content_fallback}
use madhatter.Holiday.Fetch.{Fetcher, failed, answered, fetch_each}
use madhatter.Holiday.Good.{IsGood}
use madhatter.Holiday.Printed.{Entry, holiday_of, print}
use madhatter.Holiday.RoundTrip.{parse-print}
use madhatter.Holiday.Scheduler.{Scheduler, run_fetch}
use madhatter.Holiday.Scheduler.Fetched.{is_fed, run_fetch-Fetched}

abbrev now : Instant
now = record { day = record { year = 2025; month = 11; day = 27 }; elapsed = 43_200 }

-- 1 January 2026.
abbrev new_year : Entry
new_year = record {
  word = codes "New";
  words = codes "Year" ∷ [];
  y1 = b'2';
  y2 = b'0';
  y3 = b'2';
  y4 = b'6';
  m1 = b'0';
  m2 = b'1';
  d1 = b'0';
  d2 = b'1';
}

abbrev labour_day : Entry
labour_day = record new_year { word = codes "Labour"; words = codes "Day" ∷ []; m2 = b'5' }

parse-print_example :
    parse_ical_content_fallback now (print (new_year ∷ labour_day ∷ []))
    ≡ some_holidays (map holiday_of (new_year ∷ labour_day ∷ []))
unfolding validate_holiday_date parse_date is_space
parse-print_example = parse-print now (new_year ∷ labour_day ∷ []) (
  (
    (((refl, (refl, (refl, tt))), refl), (((refl, (refl, (refl, (refl, tt)))), refl), tt)),
    refl,
    refl,
  ),
  (
    (
      (
        ((refl, (refl, (refl, (refl, (refl, (refl, tt)))))), refl),
        (((refl, (refl, (refl, tt))), refl), tt),
      ),
      refl,
      refl,
    ),
    tt,
  ),
)

abbrev fetcher : Fetcher
fetcher = record {
  get = λ url.
      if text_eq url (codes "https://a.no")
      then answered 200 (print (new_year ∷ labour_day ∷ []))
      else failed;
  parse_calendar = λ _. none;
}

abbrev scheduler : Scheduler
scheduler = record {
  store = [];
  urls = codes "https://a.no" ∷ codes "https://b.no" ∷ [];
  running = true;
  stop_closed = false;
  last_fetch = none;
  last_error = none;
}

run_fetch-Fetched_example :
    (((date : Text)
        → is_holiday date (run_fetch fetcher now scheduler).store
          ≡ any (is_fed fetcher now date) scheduler.urls)
      × All (IsGood now) (run_fetch fetcher now scheduler).store)
    ⊎ (((run_fetch fetcher now scheduler).store ≡ scheduler.store)
        × ((date : Text) → any (is_fed fetcher now date) scheduler.urls ≡ false)
        × (is_empty (fetch_each fetcher now scheduler.urls).1 ≡ false))
run_fetch-Fetched_example = run_fetch-Fetched fetcher now scheduler refl
