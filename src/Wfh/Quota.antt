-- ===== src/Wfh/Quota.antt =====
-- The quota of voluntary days, the purge of old rows and the checks of dates of
-- internal/wfh/service.go.
pub mod Purge
pub mod Agreement
use madhatter.Base.{
  ℕ, ◌+◌, ◌-◌, Bool, true, false, not, ◌&&◌, ltb, if◌then◌else◌, none, some, length,
}
use madhatter.Base.Int.{ℤ}
use madhatter.Calendar.{Day, is_holiday}
use madhatter.Store.Exec.{
  Exec, Outcome, ok, err, bind, invalid_period_anchor, wfh_date_too_far, wfh_on_holiday,
  bad_retention,
}
use madhatter.Wfh.{Config, Service, Wfh, today_utc}
use madhatter.Wfh.Period.{Period, compute_period_bounds, previous_period_start}
use madhatter.Wfh.Requests.{
  get_wfh_requests_voluntary_in_period, purge_wfh_requests_before, count_wfh_requests_before,
}

unfoldable pub validate : Config → Exec Wfh Unit
validate cfg w =
    if ltb cfg.co_presence_retention_days cfg.co_presence_horizon_days
    then err bad_retention w
    else ok tt w

unfoldable pub is_purge_enabled : Config → Bool
is_purge_enabled cfg = cfg.enabled && cfg.purge_enabled

-- The cutoff, of a purge that is enabled, and the number of rows.
pub record Purged : Type 0 where
  pub cutoff : ℤ
  pub rows : ℕ

pub data PurgeResult : Type 0 where
  purge_off : PurgeResult
  purge_run : Purged → PurgeResult

unfoldable pub purge_past_periods : Service → Exec Wfh PurgeResult
unfolding is_purge_enabled previous_period_start purge_wfh_requests_before
purge_past_periods s w =
    if not (is_purge_enabled s.cfg)
    then ok purge_off w
    else elim (previous_period_start s.cfg (today_utc s)) [
      | none ↦ err invalid_period_anchor w
      | some cutoff ↦
          bind (purge_wfh_requests_before cutoff w)
            (λ deleted w'. ok (purge_run (record { cutoff = cutoff; rows = deleted })) w')
    ]

unfoldable pub purge_past_periods_dry_run : Service → Exec Wfh PurgeResult
unfolding is_purge_enabled previous_period_start count_wfh_requests_before
purge_past_periods_dry_run s w =
    if not (is_purge_enabled s.cfg)
    then ok purge_off w
    else elim (previous_period_start s.cfg (today_utc s)) [
      | none ↦ err invalid_period_anchor w
      | some cutoff ↦
          ok (purge_run (record { cutoff = cutoff; rows = count_wfh_requests_before cutoff w })) w
    ]

pub record QuotaStatus : Type 0 where
  pub period : Period
  pub used : ℕ
  pub remaining : ℕ
  pub over_quota_by : ℕ

-- The subtraction stops at 0, as `max(…, 0)` does.
unfoldable pub get_quota_status_for_date : Service → ℕ → Day → Exec Wfh QuotaStatus
unfolding compute_period_bounds get_wfh_requests_voluntary_in_period
get_quota_status_for_date s member_id ref_date w = elim (compute_period_bounds s.cfg ref_date) [
  | none ↦ err invalid_period_anchor w
  | some p ↦
      let used = length (get_wfh_requests_voluntary_in_period member_id p w) in
      ok
        (record {
          period = p;
          used = used;
          remaining = s.cfg.max_days_per_period - used;
          over_quota_by = used - s.cfg.max_days_per_period;
        })
        w
]

unfoldable pub get_quota_status : Service → ℕ → Exec Wfh QuotaStatus
unfolding get_quota_status_for_date
get_quota_status s member_id = get_quota_status_for_date s member_id (today_utc s)

unfoldable pub can_withdraw : Service → Day → Bool
can_withdraw s wfh_date = not (ltb wfh_date (today_utc s))

unfoldable pub max_request_date : Service → Day
max_request_date s = today_utc s + s.cfg.request_horizon_days

unfoldable pub validate_horizon : Service → Day → Exec Wfh Unit
unfolding max_request_date
validate_horizon s date w =
    if ltb (max_request_date s) date then err wfh_date_too_far w else ok tt w

unfoldable pub check_quota : Service → ℕ → Day → Exec Wfh Bool
unfolding compute_period_bounds get_wfh_requests_voluntary_in_period
check_quota s member_id date w =
    if is_holiday s.holiday_checker date
    then err wfh_on_holiday w
    else elim (compute_period_bounds s.cfg date) [
      | none ↦ err invalid_period_anchor w
      | some p ↦
          ok
            (ltb (length (get_wfh_requests_voluntary_in_period member_id p w))
              s.cfg.max_days_per_period)
            w
    ]
