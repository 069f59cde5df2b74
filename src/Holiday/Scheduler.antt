-- ===== src/Holiday/Scheduler.antt =====
-- internal/holiday/scheduler.go and service.go. A fetch is one step: `Stop` waits for those that run.
pub mod Fetched
use madhatter.Base.{
  ℕ, Bool, true, false, not, ◌&&◌, ◌||◌, Option, none, some, List, [], ◌∷◌, ◌++◌, Text, codes,
  trim_space, is_empty, length, any, if◌then◌else◌,
}
use madhatter.Base.Split.{split}
use madhatter.Holiday.{Holiday, Store, update_holidays, is_holiday, get_holiday}
use madhatter.Holiday.Dates.{Instant}
use madhatter.Holiday.Feed.{has_prefix}
use madhatter.Holiday.Fetch.{Fetcher, FetchError, fetch_multiple}

-- `stop_closed`: the channel that ends the periodic loop is closed. It is made once.
pub record Scheduler : Type 0 where
  pub store : Store
  pub urls : List Text
  pub running : Bool
  pub stop_closed : Bool
  pub last_fetch : Option Instant
  pub last_error : Option FetchError

unfoldable pub new_scheduler : Store → List Text → Scheduler
new_scheduler store urls = record {
  store = store;
  urls = urls;
  running = false;
  stop_closed = false;
  last_fetch = none;
  last_error = none;
}

pub data StopResult : Type 0 where
  stopped not_running close_of_closed_channel : StopResult

-- Whether it was started; the fetch and the loop that it launches are steps of their own.
unfoldable pub start : Scheduler → Bool × Scheduler
start s = if s.running then (false, s) else (true, record s { running = true })

unfoldable pub stop : Scheduler → StopResult × Scheduler
stop s =
    if not s.running
    then (not_running, s)
    else if s.stop_closed
    then (close_of_closed_channel, record s { running = false })
    else (stopped, record s { running = false; stop_closed = true })

abbrev pub store_fetched : List Holiday × Option FetchError → Store → Store
store_fetched (hs, none) store = update_holidays hs
store_fetched ([], some e) store = store
store_fetched (h ∷ hs, some e) store = update_holidays (h ∷ hs)

unfoldable pub run_fetch : Fetcher → Instant → Scheduler → Scheduler
unfolding fetch_multiple update_holidays
run_fetch f now s =
    if not s.running
    then s
    else let fetched = fetch_multiple f now s.urls in
      record s {
        last_fetch = some now;
        last_error = fetched.1;
        store = store_fetched fetched s.store;
      }

-- The ticker of the periodic loop, which has ended once the channel is closed.
unfoldable pub tick : Fetcher → Instant → Scheduler → Scheduler
unfolding run_fetch
tick f now s = if s.stop_closed then s else run_fetch f now s

-- Whether the scheduler is running, and so fetches.
unfoldable pub force_fetch : Fetcher → Instant → Scheduler → Bool × Scheduler
unfolding run_fetch
force_fetch f now s = if not s.running then (false, s) else (true, run_fetch f now s)

-- An error, of a part of the feeds too, stores nothing.
unfoldable pub fetch_and_store_immediate :
    Fetcher → Instant → Scheduler → Option (List Holiday) × Scheduler
unfolding fetch_multiple update_holidays
fetch_and_store_immediate f now s =
    let fetched = fetch_multiple f now s.urls in
    elim fetched.1 [
      | some e ↦ (none, s)
      | none ↦ (some fetched.0, record s { store = update_holidays fetched.0 })
    ]

unfoldable pub validate_holiday_url : Text → Bool
unfolding trim_space
validate_holiday_url raw =
    let url = trim_space raw in
    not (is_empty url) && (has_prefix (codes "http://") url || has_prefix (codes "https://") url)

abbrev pub trimmed_urls : List Text → List Text
trimmed_urls [] = []
trimmed_urls (p ∷ ps) =
    let rest = trimmed_urls ps in if is_empty (trim_space p) then rest else trim_space p ∷ rest

-- The value of the environment variable HOLIDAY_URLS.
unfoldable pub load_holiday_urls : Text → List Text
unfolding split trim_space
load_holiday_urls value = if is_empty value then [] else trimmed_urls (split 44 value)

-- `Service.UpdateURLs`: whether it succeeds. A scheduler that is not running cannot be stopped.
unfoldable pub update_urls : List Text → Scheduler → StopResult × Scheduler
unfolding stop start new_scheduler
update_urls urls s = elim (stop s).0 [
  | not_running ↦ (not_running, s)
  | close_of_closed_channel ↦ stop s
  | stopped ↦
      let s' = new_scheduler s.store urls in (stopped, (if is_empty urls then s' else (start s').1))
]
